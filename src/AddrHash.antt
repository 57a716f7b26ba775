-- ===== src/AddrHash.antt =====
-- addr_hash.c: the keys of the connection table, an address pair, and the table over them.
use iftop_dotqoo.Prelude.{Bool, arith, bit_and, true, ℕ, ◌%◌, ◌&&◌, ◌+◌, ◌/◌, ◌==◌, ◌^◌, ◌↔◌, ◌≡◌}
use iftop_dotqoo.Hash.{HashType, IsLawful, Table, hash_initialise}

-- Fields as the C structure holds them: addresses are the 32 bits of `s_addr`.
pub record AddrPair : Type 0 where
  pub protocol : ℕ
  pub src_port : ℕ
  pub src : ℕ
  pub dst_port : ℕ
  pub dst : ℕ

abbrev pub hash_table_size : ℕ
hash_table_size = 4096

unfoldable pub compare : AddrPair → AddrPair → Bool
compare aa bb =
    aa.src == bb.src
    && aa.src_port == bb.src_port
    && aa.dst == bb.dst
    && aa.dst_port == bb.dst_port
    && aa.protocol == bb.protocol

-- The sum of the four bytes.
unfoldable pub hash_uint32 : ℕ → ℕ
hash_uint32 n =
    bit_and n 0x000000FF
    + bit_and n 0x0000FF00 / 2 ^ 8
    + bit_and n 0x00FF0000 / 2 ^ 16
    + bit_and n 0xFF000000 / 2 ^ 24

unfoldable pub hash : AddrPair → ℕ
hash key =
    let h = (hash_uint32 key.src + key.src_port) % 0xFFF in
    (h + hash_uint32 key.dst + key.dst_port) % 0xFFF

-- The operations that `addr_hash_create` stores in the table.
abbrev pub addr_ops : HashType AddrPair
addr_ops = record { compare = compare; hash = hash; size = hash_table_size }

unfoldable pub addr_hash_create : {R : Type 0} → Table AddrPair R
addr_hash_create = (hash_initialise addr_ops).0

compare_iff : (a b : AddrPair) → (compare a b ≡ true) ↔ (a ≡ b)
unfolding compare
compare_iff a b = ground arith

-- What the table asks of its keys: `compare` is equality, and a hash is a bucket, since it stays
-- below 4095.
pub addr_ops-IsLawful : IsLawful addr_ops
unfolding hash
addr_ops-IsLawful = record { compare_iff = compare_iff; hash-lt-size = λ k. omega arith }
