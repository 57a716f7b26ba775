-- ===== src/ServHash.antt =====
-- serv_hash.c: the table of service names, under a port and a protocol number.
pub mod Names
use iftop_dotqoo.Prelude.{
  Bool, List, Option, [], arith, none, some, true, ℕ, ◌%◌, ◌&&◌, ◌*◌, ◌+◌, ◌/◌, ◌==◌, ◌↔◌, ◌∷◌, ◌≡◌,
}
use iftop_dotqoo.Hash.{HashType, IsLawful, Table, hash_initialise, hash_insert}
use Prim.Native.String.{String}

pub record IpService : Type 0 where
  pub port : ℕ
  pub protocol : ℕ

abbrev hash_table_size : ℕ
hash_table_size = 123

unfoldable pub serv_hash_compare : IpService → IpService → Bool
serv_hash_compare aa bb = aa.port == bb.port && aa.protocol == bb.protocol

-- Protocol numbers are not negative, so C's remainder is this one.
unfoldable pub serv_hash_hash : IpService → ℕ
serv_hash_hash serv = serv.protocol % hash_table_size

abbrev pub serv_ops : HashType IpService
serv_ops = record { compare = serv_hash_compare; hash = serv_hash_hash; size = hash_table_size }

unfoldable pub serv_hash_create : Table IpService String
serv_hash_create = (hash_initialise serv_ops).0

-- What `getservent` returns: the port in network byte order, as the 16-bit word holds it.
pub record Servent : Type 0 where
  pub s_name : String
  pub s_port : ℕ
  pub s_proto : String

-- `ntohs` on a little-endian machine.
unfoldable pub ntohs : ℕ → ℕ
ntohs w = w % 256 * 256 + w / 256 % 256

module _ (getprotobyname : String → Option ℕ) where
  -- The key that an entry is stored under, where its protocol is known.
  unfoldable pub service_key : Servent → Option IpService
  service_key ent = elim (getprotobyname ent.s_proto) [
    | none ↦ none
    | some p_proto ↦ some (record { port = ntohs ent.s_port; protocol = p_proto })
  ]

  unfoldable pub add_service : Table IpService String → Servent → Table IpService String
  add_service sh ent = elim (service_key ent) [
    | none ↦ sh
    | some service ↦ (hash_insert serv_ops sh service ent.s_name).0
  ]

  -- The loop over the entries that `getservent` goes through.
  unfoldable pub serv_hash_initialise :
      Table IpService String → List Servent → Table IpService String
  serv_hash_initialise sh [] = sh
  serv_hash_initialise sh (ent ∷ ents) = serv_hash_initialise (add_service sh ent) ents

serv_hash_compare_iff : (a b : IpService) → (serv_hash_compare a b ≡ true) ↔ (a ≡ b)
unfolding serv_hash_compare
serv_hash_compare_iff a b = ground arith

-- The comparison is equality of services, and every hash is a bucket of the table.
pub serv_ops-IsLawful : IsLawful serv_ops
unfolding serv_hash_hash
serv_ops-IsLawful = record { compare_iff = serv_hash_compare_iff; hash-lt-size = λ k. omega arith }
