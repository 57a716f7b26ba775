-- ===== src/History/Bytes.antt =====
-- The bytes in the records of the history of iftop.c, over a sweep.
use iftop_dotqoo.Prelude.{
  Bool, Option-cases, [], arith, flatten, inl, inr, map, none, some, ℕ, ◌+◌, ◌∷◌, ◌≡◌,
}
use iftop_dotqoo.Options.{Options}
use iftop_dotqoo.Hash.{Chain}
use iftop_dotqoo.Hash.Table.{IsValid}
use iftop_dotqoo.Hash.Sum.{chain_sum, table_sum}
use iftop_dotqoo.AddrHash.{AddrPair, addr_ops}
use iftop_dotqoo.History.{History, HistoryType, history_rotate}
use iftop_dotqoo.History.Verdict.{counted_all, kept, sweep, verdict}
use iftop_dotqoo.History.Rotate.{history_rotate_lem}

abbrev pub bytes_of : HistoryType → ℕ
bytes_of d = d.total_sent + d.total_recv

module _ (options : Options) (t : ℕ) where
  -- The bytes of a record that the sweep deletes.
  unfoldable pub deleted_bytes : HistoryType → ℕ
  deleted_bytes d = elim (verdict options t d) [ none ↦ bytes_of d | some d' ↦ 0 ]

  verdict-bytes : (d d' : HistoryType) → verdict options t d ≡ some d' → bytes_of d' ≡ bytes_of d
  unfolding verdict
  verdict-bytes d d' e = ground arith

  gone-bytes :
      (k : AddrPair) (d : HistoryType) (c : Chain AddrPair HistoryType)
      → verdict options t d ≡ none
      → (sweep options t ((k, d) ∷ c) ≡ sweep options t c) × (deleted_bytes d ≡ bytes_of d)
  unfolding sweep kept deleted_bytes
  gone-bytes k d c e = (rw (sweep, kept, e), rw (deleted_bytes, e))

  left-bytes :
      (k : AddrPair) (d d' : HistoryType) (c : Chain AddrPair HistoryType)
      → verdict options t d ≡ some d'
      → (sweep options t ((k, d) ∷ c) ≡ (k, d') ∷ sweep options t c) × (deleted_bytes d ≡ 0)
  unfolding sweep kept deleted_bytes
  left-bytes k d d' c e = (rw (sweep, kept, e), rw (deleted_bytes, e))

  sweep-bytes :
      (c : Chain AddrPair HistoryType)
      → chain_sum bytes_of (sweep options t c) + chain_sum deleted_bytes c ≡ chain_sum bytes_of c
  unfolding chain_sum
  sweep-bytes [] = unfold sweep in omega arith
  sweep-bytes ((k, d) ∷ c) = elim (Option-cases (verdict options t d)) [
    | inl gone ↦
        let (swept, all_of_it) = gone-bytes k d c gone in
        rw swept (omega (arith, sweep-bytes c, all_of_it))
    | inr (d', left) ↦
        let (swept, none_of_it) = left-bytes k d d' c left in
        rw swept (omega (arith, sweep-bytes c, none_of_it, verdict-bytes d d' left))
  ]

  map-sweep-bytes :
      (history : History)
      → table_sum bytes_of (map (sweep options t) history) + table_sum deleted_bytes history
        ≡ table_sum bytes_of history
  unfolding table_sum
  map-sweep-bytes [] = omega arith
  map-sweep-bytes (c ∷ history) = omega (arith, sweep-bytes c, map-sweep-bytes history)

  -- A sweep of a valid table ends, and the bytes in the records that are left are those of all
  -- records before it, less those of the records that it deletes.
  pub history_rotate-bytes :
      (stale : HistoryType → Bool) (history : History)
      → IsValid addr_ops history
      → (swept : History) × (size : ℕ) × (history_rotate options stale t history
          ≡ some (swept, size))
        × (table_sum bytes_of swept + table_sum deleted_bytes history ≡ table_sum bytes_of history)
  history_rotate-bytes stale history v = (
    map (sweep options t) history,
    counted_all options stale t (flatten history),
    history_rotate_lem options stale t history v,
    map-sweep-bytes history,
  )
