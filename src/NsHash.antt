-- ===== src/NsHash.antt =====
-- ns_hash.c: the table of the resolver's host names, under IPv6 addresses.
use iftop_dotqoo.Prelude.{Bool, arith, bit_and, true, ℕ, ◌%◌, ◌&&◌, ◌+◌, ◌/◌, ◌==◌, ◌^◌, ◌↔◌, ◌≡◌}
use iftop_dotqoo.Hash.{HashType, IsLawful, Table, hash_initialise}

-- `s6_addr` read as its four 32-bit words, `addr6[0]` to `addr6[3]`.
pub record In6Addr : Type 0 where
  pub word0 : ℕ
  pub word1 : ℕ
  pub word2 : ℕ
  pub word3 : ℕ

abbrev hash_table_size : ℕ
hash_table_size = 256

unfoldable pub ns_hash_compare : In6Addr → In6Addr → Bool
ns_hash_compare aa bb =
    aa.word0 == bb.word0 && aa.word1 == bb.word1 && aa.word2 == bb.word2 && aa.word3 == bb.word3

unfoldable pub hash_uint32 : ℕ → ℕ
hash_uint32 n =
    bit_and n 0x000000FF
    + bit_and n 0x0000FF00 / 2 ^ 8
    + bit_and n 0x00FF0000 / 2 ^ 16
    + bit_and n 0xFF000000 / 2 ^ 24

unfoldable pub ns_hash_hash : In6Addr → ℕ
ns_hash_hash key =
    (hash_uint32 key.word0 + hash_uint32 key.word1 + hash_uint32 key.word2 + hash_uint32 key.word3)
    % 0xFF

abbrev pub ns_ops : HashType In6Addr
ns_ops = record { compare = ns_hash_compare; hash = ns_hash_hash; size = hash_table_size }

unfoldable pub ns_hash_create : {R : Type 0} → Table In6Addr R
ns_hash_create = (hash_initialise ns_ops).0

ns_hash_compare_iff : (a b : In6Addr) → (ns_hash_compare a b ≡ true) ↔ (a ≡ b)
unfolding ns_hash_compare
ns_hash_compare_iff a b = ground arith

-- The comparison is equality of addresses, and every hash is a bucket of the table.
pub ns_ops-IsLawful : IsLawful ns_ops
unfolding ns_hash_hash
ns_ops-IsLawful = record { compare_iff = ns_hash_compare_iff; hash-lt-size = λ k. omega arith }
