-- ===== src/History/Rotate.antt =====
-- `history_rotate` deletes and marks records while it walks the table: the walk stays on the
-- table, meets every record once, and leaves what the verdicts say.
use iftop_dotqoo.Prelude.{
  All, Bool, Option-cases, [], append-nil, append_assoc, arith, drop-append, flatten, if◌then◌else◌,
  inl, inr, length, length-append, map, none, refl, some, subst, suc, true, zero, ℕ, ◌++◌, ◌+◌, ◌<◌,
  ◌∙◌, ◌∷◌, ◌≡◌,
}
use native.Mathlib.Nat.{add_assoc, add-zero, zero-add}
use iftop_dotqoo.Hash.{Chain, next_item, next_used}
use iftop_dotqoo.Hash.Chain.{Fresh, IsChain, append-Fresh, compare_comm}
use iftop_dotqoo.Hash.Table.{IsTable, IsValid}
use iftop_dotqoo.Hash.Node.{hash_delete-append, write_rec-append}
use iftop_dotqoo.Hash.Walk.{cursor, cursor-cons, next_item-cursor}
use iftop_dotqoo.AddrHash.{AddrPair, addr_ops, addr_ops-IsLawful, hash}
use iftop_dotqoo.Options.{Options}
use iftop_dotqoo.History.{History, HistoryType, history_rotate, rotate_loop, rotate_one}
use iftop_dotqoo.History.Verdict.{counted, counted_all, kept, sweep, verdict}

abbrev Node : Type 0
Node = AddrPair × HistoryType

abbrev Nodes : Type 0
Nodes = Chain AddrPair HistoryType

-- Every key of `c` is fresh for `done`.
abbrev Apart : Nodes → Nodes → Type 0
Apart done = All λ (p : Node). Fresh addr_ops p.0 done

Apart-snoc :
    (k : AddrPair) (d : HistoryType) (done c : Nodes)
    → Fresh addr_ops k c
    → Apart done c
    → Apart (done ++ (k, d) ∷ []) c
Apart-snoc k d done [] f a = tt
Apart-snoc k d done (p ∷ c) f a = (
  append-Fresh addr_ops addr_ops-IsLawful p.0 done ((k, d) ∷ []) a.0
      (compare_comm addr_ops addr_ops-IsLawful k p.0 ∙ f.0, tt),
  Apart-snoc k d done c f.1 a.1,
)

Apart-nil : (c : Nodes) → Apart [] c
Apart-nil [] = tt
Apart-nil (p ∷ c) = (tt, Apart-nil c)

module _ (options : Options) (stale : HistoryType → Bool) (t : ℕ) where
  abbrev flag : HistoryType → Bool
  flag d = elim (verdict options t d) [ none ↦ stale d | some d' ↦ d'.approval ]

  -- One round replaces the node by what is kept of it.
  rotate_one_lem :
      (pre bs : History) (done c : Nodes) (k : AddrPair) (d : HistoryType)
      → hash k ≡ length pre
      → Fresh addr_ops k done
      → rotate_one options stale t (pre ++ (done ++ (k, d) ∷ c) ∷ bs) k d
        ≡ (pre ++ (done ++ (kept options t k d ++ c)) ∷ bs, flag d)
  unfolding rotate_one verdict kept
  rotate_one_lem pre bs done c k d home fresh = ground (
    arith,
    hash_delete-append addr_ops addr_ops-IsLawful pre bs done c k d home fresh,
    write_rec-append addr_ops addr_ops-IsLawful pre bs done c k d (record d { approval = true })
        home fresh,
  )

  Apart-kept :
      (k : AddrPair) (d : HistoryType) (done c : Nodes)
      → Fresh addr_ops k c
      → Apart done c
      → Apart (done ++ kept options t k d) c
  unfolding kept
  Apart-kept k d done c f a = elim (Option-cases (verdict options t d)) [
    | inl gone ↦ rw (gone, kept) (rw (append-nil done) a)
    | inr (d', left) ↦ rw (left, kept) (Apart-snoc k d' done c f a)
  ]

  size_step :
      (d : HistoryType) (size : ℕ)
      → (if flag d then size + 1 else size) ≡ size + counted options stale t d
  unfolding counted
  size_step d size = ground arith

  rotate_loop_lem :
      (fuel : ℕ) (c : Nodes) (bs pre : History) (done : Nodes) (size : ℕ)
      → IsChain addr_ops (length pre) c
      → IsTable addr_ops (suc (length pre)) bs
      → Apart done c
      → length c + length (flatten bs) < fuel
      → rotate_loop options stale fuel t (pre ++ (done ++ c) ∷ bs) (cursor addr_ops c bs) size
        ≡ some (
          pre ++ (done ++ sweep options t c) ∷ map (sweep options t) bs,
          size + counted_all options stale t (c ++ flatten bs),
        )
  unfolding rotate_loop sweep counted_all flatten next_used
  rotate_loop_lem zero ((k, d) ∷ c) bs pre done size v w a enough = absurd (omega arith)
  rotate_loop_lem zero [] [] pre done size v w a enough = absurd (omega arith)
  rotate_loop_lem (suc fuel) ((k, d) ∷ c) bs pre done size v w a enough =
      let here = kept options t k d in
      let rest =
        rotate_loop_lem fuel c bs pre (done ++ here) (size + counted options stale t d) v.2 w
          (Apart-kept k d done c v.1 a.1) (omega arith) in
      rw
        (
          rotate_one_lem pre bs done c k d v.0 a.0,
          next_item-cursor addr_ops (pre ++ (done ++ (k, d) ∷ c) ∷ bs) bs (length pre) (k, d) c v.0
              (drop-append pre bs _),
          size_step d size,
          ← append_assoc done here c,
        )
        (rest
          ∙ cc (
            append_assoc done here (sweep options t c),
            add_assoc size (counted options stale t d)
                (counted_all options stale t (c ++ flatten bs)),
          ))
  rotate_loop_lem (suc fuel) [] [] pre done size v w a enough = rw add-zero
  rotate_loop_lem fuel [] (c ∷ bs) pre done size v w a enough =
      let pre' = pre ++ (done ++ []) ∷ [] in
      let i : suc (length pre) ≡ length pre' =
        omega (arith, length-append pre ((done ++ []) ∷ [])) in
      let count = length-append c (flatten bs) in
      rw
        (
          cursor-cons addr_ops c bs,
          ← append_assoc pre ((done ++ []) ∷ []) (c ∷ bs),
          ← append_assoc pre ((done ++ []) ∷ []) (map (sweep options t) (c ∷ bs)),
        )
        (rotate_loop_lem fuel c bs pre' [] size (subst (λ n. IsChain addr_ops n c) i w.0)
          (subst (λ n. IsTable addr_ops (suc n) bs) i w.1) (Apart-nil c) (omega (arith, count)))

  rotate_all :
      (fuel : ℕ) (u : History)
      → IsTable addr_ops 0 u
      → length (flatten u) < fuel
      → rotate_loop options stale fuel t u (next_used u) 0
        ≡ some (map (sweep options t) u, counted_all options stale t (flatten u))
  unfolding rotate_loop counted_all flatten next_used
  rotate_all zero u w enough = absurd (omega arith)
  rotate_all (suc fuel) [] w enough = refl
  rotate_all (suc fuel) (c ∷ bs) w enough =
      let count = length-append c (flatten bs) in
      rw (cursor-cons addr_ops c bs) (
        rotate_loop_lem (suc fuel) c bs [] [] 0 w.0 w.1 (Apart-nil c) (omega (arith, count))
        ∙ rw zero-add)

  -- The sweep of a valid table ends. It has put the verdict on every record in its place, and
  -- returns the number of rounds that read a set `approval` at their end.
  pub history_rotate_lem :
      (history : History)
      → IsValid addr_ops history
      → history_rotate options stale t history
        ≡ some (map (sweep options t) history, counted_all options stale t (flatten history))
  unfolding history_rotate next_item
  history_rotate_lem history v = rotate_all _ history v.placed (omega arith)
