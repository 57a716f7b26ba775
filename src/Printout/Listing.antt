-- ===== src/Printout/Listing.antt =====
-- `print_all_history` of ui_common.c prints each connection once.
use iftop_dotqoo.Prelude.{
  [], arith, flatten, length, map, some, suc, zero, ℕ, ◌++◌, ◌+◌, ◌<◌, ◌∷◌, ◌≡◌,
}
use iftop_dotqoo.Hash.{Chain, next_item}
use iftop_dotqoo.Hash.Table.{IsValid}
use iftop_dotqoo.Hash.Walk.{walk, walk-flatten}
use iftop_dotqoo.AddrHash.{AddrPair, addr_ops}
use iftop_dotqoo.History.{History, HistoryType}
use iftop_dotqoo.Printout.{Printer, history_line, last_lines, print_all_history, print_loop}
use mathlib.Core.Option

module _ (pr : Printer) where
  print_loop-walk :
      (fuel : ℕ) (history : History) (n : Chain AddrPair HistoryType) (counter : ℕ)
      → length (walk addr_ops fuel history n) < fuel
      → print_loop pr fuel history n counter
        ≡ some (
            map (history_line pr) (walk addr_ops fuel history n)
            ++ last_lines pr (counter + length (walk addr_ops fuel history n)))
  unfolding print_loop walk Option.map
  print_loop-walk zero history n counter h = absurd (omega arith)
  print_loop-walk (suc fuel) history [] counter h =
      let none_left : counter + 0 ≡ counter = omega arith in rw none_left
  print_loop-walk (suc fuel) history (p ∷ c) counter h =
      let rest = walk addr_ops fuel history (next_item addr_ops history (p ∷ c)) in
      let count : counter + 1 + length rest ≡ counter + suc (length rest) = omega arith in
      rw (
        print_loop-walk fuel history (next_item addr_ops history (p ∷ c)) (counter + 1)
            (omega arith),
        count,
      )

  -- For a valid table, `print_all_history` ends, and it has printed one line for each connection,
  -- bucket by bucket, and then their number.
  pub print_all_history-flatten :
      (history : History)
      → IsValid addr_ops history
      → print_all_history pr history
        ≡ some (map (history_line pr) (flatten history) ++ last_lines pr (length (flatten history)))
  unfolding print_all_history
  print_all_history-flatten history v =
      let whole = walk-flatten addr_ops (suc (length (flatten history))) history v (omega arith) in
      let run =
        print_loop-walk (suc (length (flatten history))) history (next_item addr_ops history []) 0
          (rw whole (omega arith)) in
      let from_zero : 0 + length (flatten history) ≡ length (flatten history) = omega arith in
      rw (whole, from_zero) at run
