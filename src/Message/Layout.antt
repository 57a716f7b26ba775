-- ===== src/Message/Layout.antt =====
-- How long the records are that `construct_MQTT_msg` writes, and that they fit the buffer.
use iftop_dotqoo.Prelude.{
  Bool-cases, List, [], ap, append-nil, append_assoc, arith, drop, drop-suc, flatten, if◌then◌else◌,
  inl, inr, length, length-append, refl, replicate, suc, zero, ℕ, ◌*◌, ◌++◌, ◌+◌, ◌-◌, ◌/◌, ◌<◌,
  ◌∙◌, ◌∷◌, ◌≡◌, ◌≤◌,
}
use iftop_dotqoo.Hash.{Chain, next_item, next_used}
use iftop_dotqoo.Hash.Chain.{IsChain}
use iftop_dotqoo.Hash.Table.{IsTable, IsValid}
use iftop_dotqoo.Hash.Walk.{cursor, cursor-cons, next_item-cursor}
use iftop_dotqoo.AddrHash.{AddrPair, addr_ops}
use iftop_dotqoo.History.{History, HistoryType}
use iftop_dotqoo.History.Report.{approved}
use iftop_dotqoo.Run.{ok}
use iftop_dotqoo.Message.{
  Platform, encode, fill_message, le_bytes, long_at, struct_size, write_loop, write_record,
}

abbrev Nodes : Type 0
Nodes = Chain AddrPair HistoryType

pub length-le_bytes : (n x : ℕ) → length (le_bytes n x) ≡ n
unfolding le_bytes
length-le_bytes zero x = refl
length-le_bytes (suc n) x = ap suc (length-le_bytes n (x / 256))

module _ (platform : Platform) where
  -- What one connection adds to the message, and what a list of them does.
  unfoldable pub entry : AddrPair → HistoryType → List ℕ
  entry key stat = if stat.approval then encode platform key stat else []

  unfoldable pub records : Nodes → List ℕ
  unfolding entry
  records [] = []
  records ((key, stat) ∷ c) = entry key stat ++ records c

  length-encode :
      (key : AddrPair) (stat : HistoryType)
      → 4 ≤ platform.long_size
      → length (encode platform key stat) ≡ struct_size platform
  unfolding encode struct_size long_at
  length-encode key stat wide = simp (length-append, length-le_bytes) (omega arith)

  length-entry :
      (key : AddrPair) (stat : HistoryType)
      → 4 ≤ platform.long_size
      → length (entry key stat) ≡ struct_size platform * (if stat.approval then 1 else 0)
  unfolding entry
  length-entry key stat wide = elim (Bool-cases stat.approval) [
    | inl keep ↦ simp keep (omega (arith, length-encode key stat wide))
    | inr skip ↦ simp skip (omega arith)
  ]

  pub length-records :
      (c : Nodes) → 4 ≤ platform.long_size → length (records c) ≡ struct_size platform * approved c
  unfolding records approved
  length-records [] wide = omega arith
  length-records ((key, stat) ∷ c) wide =
      rw length-append (omega (arith, length-entry key stat wide, length-records c wide))

  write_record_lem :
      (capacity : ℕ) (written : List ℕ) (key : AddrPair) (stat : HistoryType)
      → length (written ++ entry key stat) ≤ capacity
      → write_record platform capacity written key stat ≡ ok (written ++ entry key stat)
  unfolding write_record entry
  write_record_lem capacity written key stat fits = ground (arith, append-nil written)

  write_loop_lem :
      (fuel capacity : ℕ) (t : History) (c : Nodes) (bs : History) (i : ℕ) (written : List ℕ)
      → IsChain addr_ops i c
      → drop (suc i) t ≡ bs
      → IsTable addr_ops (suc i) bs
      → length c + length (flatten bs) < fuel
      → length written + length (records (c ++ flatten bs)) ≤ capacity
      → write_loop platform fuel capacity t (cursor addr_ops c bs) written
        ≡ ok (written ++ records (c ++ flatten bs))
  unfolding write_loop records next_used flatten
  write_loop_lem zero capacity t (p ∷ c) bs i written v e w enough fits = absurd (omega arith)
  write_loop_lem (suc fuel) capacity t ((k, d) ∷ c) bs i written v e w enough fits =
      let rest = records (c ++ flatten bs) in
      let here = length-append written (entry k d) in
      let all = length-append (entry k d) rest in
      rw
        (
          next_item-cursor addr_ops t bs i (k, d) c v.0 e,
          write_record_lem capacity written k d (omega (arith, here, all)),
        )
        (write_loop_lem fuel capacity t c bs i (written ++ entry k d) v.2 e w (omega arith)
            (omega (arith, here, all))
          ∙ ap ok (append_assoc written (entry k d) rest))
  write_loop_lem zero capacity t [] [] i written v e w enough fits = absurd (omega arith)
  write_loop_lem (suc fuel) capacity t [] [] i written v e w enough fits = rw append-nil
  write_loop_lem fuel capacity t [] (c ∷ bs) i written v e w enough fits =
      let size = length-append c (flatten bs) in
      rw (cursor-cons addr_ops c bs) (
        write_loop_lem fuel capacity t c bs (suc i) written w.0 (drop-suc (suc i) t c bs e) w.1
          (omega (arith, size)) fits)

  write_all :
      (fuel capacity : ℕ) (t u : History)
      → t ≡ u
      → IsTable addr_ops 0 u
      → length (flatten u) < fuel
      → length (records (flatten u)) ≤ capacity
      → write_loop platform fuel capacity t (next_used u) [] ≡ ok (records (flatten u))
  unfolding write_loop records next_used flatten
  write_all zero capacity t u e w enough fits = absurd (omega arith)
  write_all (suc fuel) capacity t [] e w enough fits = refl
  write_all (suc fuel) capacity t (c ∷ bs) e w enough fits =
      let count = length-append c (flatten bs) in
      rw (cursor-cons addr_ops c bs) (
        write_loop_lem (suc fuel) capacity t c bs 0 [] w.0 (rw e) w.1 (omega (arith, count))
          (omega arith))

  -- On a valid table, and with a `long` of 4 bytes or more, a buffer for at least as many records
  -- as there are approved connections is enough. It then holds the record of each of them in the
  -- order of the table, and zeroes behind them.
  pub fill_message_lem :
      (n extra : ℕ) (history : History)
      → 4 ≤ platform.long_size
      → IsValid addr_ops history
      → n ≡ approved (flatten history) + extra
      → fill_message platform n history
        ≡ ok (records (flatten history) ++ replicate (struct_size platform * extra) 0)
  unfolding fill_message next_item
  fill_message_lem n extra history wide v room =
      let size = length-records (flatten history) wide in
      let split : struct_size platform * n
          ≡ length (records (flatten history)) + struct_size platform * extra =
        rw (room, size) (grind arith) in
      let rest : struct_size platform * n - length (records (flatten history))
          ≡ struct_size platform * extra =
        omega (arith, split) in
      rw (
        write_all (suc (length (flatten history))) (struct_size platform * n) history history refl
            v.placed (omega arith) (omega (arith, split)),
        rest,
      )
