-- ===== src/Message/Reader.antt =====
-- The round trip of the message, from `construct_MQTT_msg` of mqtt.c to `save_data` of
-- Python_Client/mqtt_client.py. A platform whose `long` and `time_t` have 4 bytes writes what it reads.
use iftop_dotqoo.Prelude.{
  All, Bool-cases, List, [], ap, append_assoc, arith, bit_and, flatten, if◌then◌else◌, inl, inr,
  length, length-append, length-replicate, refl, replicate, suc, zero, ℕ, ◌%◌, ◌&&◌, ◌*◌, ◌++◌, ◌+◌,
  ◌/◌, ◌<◌, ◌==◌, ◌^◌, ◌∙◌, ◌∷◌, ◌≡◌,
}
use iftop_dotqoo.Bits.{bit_and-byte_mask, splits_byte}
use iftop_dotqoo.Hash.Table.{IsValid}
use iftop_dotqoo.AddrHash.{AddrPair, addr_ops}
use iftop_dotqoo.History.{History, HistoryType}
use iftop_dotqoo.History.Report.{approved}
use iftop_dotqoo.Run.{ok}
use iftop_dotqoo.Message.{Platform, encode, fill_message, le_bytes, long_at, struct_size}
use iftop_dotqoo.Message.Client.{
  InRange, Nodes, Reported, host_order, inner_reports, is_inner, report, save_data, save_one,
  swap_addresses, swap_bytes, take_le, unpack,
}
use iftop_dotqoo.Message.Layout.{entry, fill_message_lem, length-records, records}
use native.Mathlib.Nat.{pow-suc, zero-add}

take_le-le_bytes :
    (n x : ℕ) (rest : List ℕ) → x < 256 ^ n → take_le n (le_bytes n x ++ rest) ≡ (x, rest)
unfolding take_le le_bytes
take_le-le_bytes zero x rest h = let e : x ≡ 0 = omega arith in rw e
take_le-le_bytes (suc n) x rest h =
    let scaled : x < 256 ^ n * 256 = rw (pow-suc) at h in
    rw (take_le-le_bytes n (x / 256) rest (omega (arith, scaled))) (ground arith)

swap_bytes-host_order : (ip : ℕ) → swap_bytes ip ≡ host_order ip
unfolding swap_bytes host_order take_le
swap_bytes-host_order ip = omega arith

-- The test of the reader, by octets.
inner_test :
    (a b c d : ℕ)
    → a < 256
    → b < 256
    → c < 256
    → d < 256
    → (bit_and (d + 256 * (c + 256 * (b + 256 * a))) 0xFFFF0000 == 0xAC100000)
      ≡ (a == 172 && b == 16)
inner_test a b c d ha hb hc hd =
    let (d0, x, y) = bit_and-byte_mask 0 d hd in
    let (c0, z, w) = bit_and-byte_mask 0 c hc in
    let (b8, u, v) = bit_and-byte_mask 8 b hb in
    let (a8, s, t) = bit_and-byte_mask 8 a ha in
    let first = splits_byte d (c + 256 * (b + 256 * a)) 0 0xFFFF00 hd (omega arith) in
    let second = splits_byte c (b + 256 * a) 0 0xFFFF hc (omega arith) in
    let third = splits_byte b a 255 255 hb (omega arith) in
    let value : bit_and (d + 256 * (c + 256 * (b + 256 * a))) 0xFFFF0000 ≡ 65536 * (b + 256 * a) =
      omega (arith, d0, c0, b8, a8, first, second, third) in
    rw value (ground arith)

swap_bytes-is_inner :
    (key : AddrPair) → (bit_and (swap_bytes key.dst) 0xFFFF0000 == 0xAC100000) ≡ is_inner key
unfolding swap_bytes take_le is_inner
swap_bytes-is_inner key =
    let shape : swap_bytes key.dst
        ≡ key.dst / 2 ^ 24 % 256
          + 256 * (key.dst / 2 ^ 16 % 256 + 256 * (key.dst / 2 ^ 8 % 256 + 256 * (key.dst % 256))) =
      omega arith in
    ap (λ ip. bit_and ip 0xFFFF0000 == 0xAC100000) shape
    ∙ inner_test (key.dst % 256) (key.dst / 2 ^ 8 % 256) (key.dst / 2 ^ 16 % 256)
        (key.dst / 2 ^ 24 % 256) (omega arith) (omega arith) (omega arith) (omega arith)

one-add : (n : ℕ) → 1 + n ≡ suc n
one-add n = omega arith

no_bytes : (x : ℕ) → le_bytes 0 x ≡ []
unfolding le_bytes
no_bytes x = refl

module _ (platform : Platform) (long4 : platform.long_size ≡ 4)
    (time4 : platform.time_size ≡ 4) where
  unpack-encode :
      (key : AddrPair) (stat : HistoryType) (rest : List ℕ)
      → InRange key stat
      → unpack (encode platform key stat ++ rest) ≡ (report key stat, rest)
  unfolding unpack encode report long_at
  unpack-encode key stat rest r =
      let field : (n x : ℕ)
          → x < 256 ^ n
          → (tail : List ℕ) → take_le n (le_bytes n x ++ tail) ≡ (x, tail) =
        λ n x h tail. take_le-le_bytes n x tail h in
      rw (long4, time4)
        (simp (
          append_assoc,
          no_bytes,
          field 4 key.src r.src,
          field 2 key.src_port r.src_port,
          field 4 key.dst r.dst,
          field 2 key.dst_port r.dst_port,
          field 2 key.protocol r.protocol,
          field 8 stat.total_sent r.total_sent,
          field 8 stat.total_recv r.total_recv,
          field 4 stat.create_time r.create_time,
          field 4 stat.last_update_time r.last_update_time,
        ))

  save_one-report :
      (key : AddrPair) (stat : HistoryType) (others : List Reported)
      → save_one (report key stat) others ≡ (
          if is_inner key
          then record (report key stat) {
            outer_ip = host_order key.src;
            inner_ip = host_order key.dst;
          }
            ∷ others
          else others)
  unfolding save_one swap_addresses report
  save_one-report key stat others =
      rw (swap_bytes-is_inner key, swap_bytes-host_order key.src, swap_bytes-host_order key.dst)
        refl

  -- One round of the loop.
  save_data-encode :
      (key : AddrPair) (stat : HistoryType) (n : ℕ) (rest : List ℕ) (others : List Reported)
      → InRange key stat
      → save_data n rest ≡ others
      → save_data (suc n) (encode platform key stat ++ rest) ≡ (
          if is_inner key
          then record (report key stat) {
            outer_ip = host_order key.src;
            inner_ip = host_order key.dst;
          }
            ∷ others
          else others)
  unfolding save_data
  save_data-encode key stat n rest others r e =
      ap (λ u. save_one u.0 (save_data n u.1)) (unpack-encode key stat rest r)
      ∙ ap (save_one (report key stat)) e
      ∙ save_one-report key stat others

  save_data-records :
      (c : Nodes) (rest : List ℕ)
      → All (λ (p : AddrPair × HistoryType). InRange p.0 p.1) c
      → save_data (approved c) (records platform c ++ rest) ≡ inner_reports c
  unfolding records entry approved inner_reports
  save_data-records [] rest r = unfold save_data in refl
  save_data-records ((key, stat) ∷ c) rest r = elim (Bool-cases stat.approval) [
    | inl keep ↦ simp (
      keep,
      one-add,
      append_assoc,
      save_data-encode key stat (approved c) (records platform c ++ rest) (inner_reports c) r.0
          (save_data-records c rest r.1),
    )
    | inr skip ↦ simp (skip, zero-add) (save_data-records c rest r.1)
  ]

  -- On such a platform, the message for the approved connections of a valid table whose numbers are
  -- within their C types has one record for each of them. The reader keeps, in the order of the
  -- table, those whose destination starts with the octets 172 and 16, with every number as it was;
  -- the first octet of an address is the highest byte there. The others it skips.
  pub fill_message-save_data :
      (history : History)
      → IsValid addr_ops history
      → All (λ (p : AddrPair × HistoryType). InRange p.0 p.1) (flatten history)
      → (message : List ℕ) × (fill_message platform (approved (flatten history)) history
          ≡ ok message)
        × (length message ≡ struct_size platform * approved (flatten history))
        × (save_data (approved (flatten history)) message ≡ inner_reports (flatten history))
  fill_message-save_data history v r = (
    records platform (flatten history) ++ replicate (struct_size platform * 0) 0,
    fill_message_lem platform (approved (flatten history)) 0 history (omega arith) v (omega arith),
    rw (length-append, length-replicate) (omega (arith, length-records platform (flatten history))),
    save_data-records (flatten history) _ r,
  )
