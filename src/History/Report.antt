-- ===== src/History/Report.antt =====
-- What a sweep by `history_rotate` means: which connections are left and what the returned size is.
use iftop_dotqoo.Prelude.{
  Bool, Option-cases, [], append_assoc, arith, false, flatten, get_or, if◌then◌else◌, inl, inr,
  length-map, map, none, refl, some, suc, zero, ℕ, ◌++◌, ◌+◌, ◌∙◌, ◌∷◌, ◌≡◌,
}
use iftop_dotqoo.Hash.{Chain, find, hash_find}
use iftop_dotqoo.Hash.Chain.{Fresh, IsChain, find-other}
use iftop_dotqoo.Hash.Table.{IsTable, IsValid, get_or-IsChain}
use iftop_dotqoo.AddrHash.{AddrPair, addr_ops, addr_ops-IsLawful, hash}
use iftop_dotqoo.Options.{Options}
use iftop_dotqoo.History.{History, HistoryType, history_rotate}
use iftop_dotqoo.History.Verdict.{counted, counted_all, kept, sweep, verdict}
use iftop_dotqoo.History.Rotate.{history_rotate_lem}
use mathlib.Core.Option

abbrev Nodes : Type 0
Nodes = Chain AddrPair HistoryType

-- The number of connections that are reported.
unfoldable pub approved : Nodes → ℕ
approved [] = 0
approved ((key, d) ∷ c) = (if d.approval then 1 else 0) + approved c

pub approved-append : (c e : Nodes) → approved (c ++ e) ≡ approved c + approved e
unfolding approved
approved-append [] e = omega arith
approved-append (p ∷ c) e = omega (arith, approved-append c e)

module _ (options : Options) (t : ℕ) where
  -- A node under each of the two outcomes of its verdict.
  sweep_deleted :
      (k : AddrPair) (d : HistoryType) (c : Nodes)
      → verdict options t d ≡ none
      → sweep options t ((k, d) ∷ c) ≡ sweep options t c
  unfolding sweep kept
  sweep_deleted k d c e = ground arith

  sweep_kept :
      (k : AddrPair) (d d' : HistoryType) (c : Nodes)
      → verdict options t d ≡ some d'
      → sweep options t ((k, d) ∷ c) ≡ (k, d') ∷ sweep options t c
  unfolding sweep kept
  sweep_kept k d d' c e = ground arith

  sweep-append : (c e : Nodes) → sweep options t (c ++ e) ≡ sweep options t c ++ sweep options t e
  unfolding sweep
  sweep-append [] e = refl
  sweep-append ((k, d) ∷ c) e =
      rw (sweep-append c e, append_assoc (kept options t k d) (sweep options t c))

  pub sweep-flatten :
      (bs : History) → sweep options t (flatten bs) ≡ flatten (map (sweep options t) bs)
  unfolding flatten sweep
  sweep-flatten [] = refl
  sweep-flatten (c ∷ bs) = rw (sweep-append c (flatten bs), sweep-flatten bs)

  sweep-Fresh :
      (k : AddrPair) (c : Nodes) → Fresh addr_ops k c → Fresh addr_ops k (sweep options t c)
  unfolding sweep
  sweep-Fresh k [] f = tt
  sweep-Fresh k ((j, d) ∷ c) f = elim (Option-cases (verdict options t d)) [
    | inl gone ↦ rw (sweep_deleted j d c gone) (sweep-Fresh k c f.1)
    | inr (d', left) ↦ rw (sweep_kept j d d' c left) (f.0, sweep-Fresh k c f.1)
  ]

  sweep-IsChain :
      (i : ℕ) (c : Nodes) → IsChain addr_ops i c → IsChain addr_ops i (sweep options t c)
  unfolding sweep
  sweep-IsChain i [] v = tt
  sweep-IsChain i ((j, d) ∷ c) v = elim (Option-cases (verdict options t d)) [
    | inl gone ↦ rw (sweep_deleted j d c gone) (sweep-IsChain i c v.2)
    | inr (d', left) ↦
        rw (sweep_kept j d d' c left) (v.0, sweep-Fresh j c v.1, sweep-IsChain i c v.2)
  ]

  sweep-IsTable :
      (i : ℕ) (bs : History) → IsTable addr_ops i bs → IsTable addr_ops i (map (sweep options t) bs)
  sweep-IsTable i [] v = tt
  sweep-IsTable i (c ∷ bs) v = (sweep-IsChain i c v.0, sweep-IsTable (suc i) bs v.1)

  pub sweep-IsValid :
      (history : History)
      → IsValid addr_ops history
      → IsValid addr_ops (map (sweep options t) history)
  sweep-IsValid history v = record {
    width = length-map history (sweep options t) ∙ v.width;
    placed = sweep-IsTable 0 history v.placed;
  }

  find-sweep :
      (k : AddrPair) (i : ℕ) (c : Nodes)
      → IsChain addr_ops i c
      → find addr_ops k (sweep options t c) ≡ Option.bind (find addr_ops k c) (verdict options t)
  unfolding sweep find Option.bind
  find-sweep k i [] v = refl
  find-sweep k i ((j, d) ∷ c) v = elim (Option-cases (verdict options t d)) [
    | inl gone ↦
        rw (sweep_deleted j d c gone)
          (ground (arith, find-sweep k i c v.2, find-other addr_ops addr_ops-IsLawful j k c v.1))
    | inr (d', left) ↦ rw (sweep_kept j d d' c left) (ground (arith, find-sweep k i c v.2))
  ]

  get_or-map :
      (j : ℕ) (history : History)
      → get_or (map (sweep options t) history) j [] ≡ sweep options t (get_or history j [])
  unfolding sweep
  get_or-map j [] = refl
  get_or-map zero (c ∷ bs) = refl
  get_or-map (suc j) (c ∷ bs) = get_or-map j bs

  hash_find-sweep :
      (history : History) (k : AddrPair)
      → IsValid addr_ops history
      → hash_find addr_ops (map (sweep options t) history) k
        ≡ Option.bind (hash_find addr_ops history k) (verdict options t)
  unfolding hash_find
  hash_find-sweep history k v =
      rw (get_or-map (hash k) history)
        (find-sweep k (hash k) _ (get_or-IsChain addr_ops history (hash k) v))

  deleted_unapproved : (d : HistoryType) → verdict options t d ≡ none → d.approval ≡ false
  unfolding verdict
  deleted_unapproved d e = ground arith

  -- The rounds that read a set `approval` in memory that they had freed.
  unfoldable pub misread : (HistoryType → Bool) → Nodes → ℕ
  misread stale [] = 0
  misread stale ((k, d) ∷ c) =
      elim (verdict options t d) [ none ↦ if stale d then 1 else 0 | some d' ↦ 0 ] + misread stale c

  counted-approved :
      (stale : HistoryType → Bool) (c : Nodes)
      → counted_all options stale t c ≡ approved (sweep options t c) + misread stale c
  unfolding counted_all counted sweep kept approved misread
  counted-approved stale [] = refl
  counted-approved stale ((k, d) ∷ c) = ground (arith, counted-approved stale c)

  misread-zero :
      (stale : HistoryType → Bool) (c : Nodes)
      → ((d : HistoryType) → stale d ≡ d.approval)
      → misread stale c ≡ 0
  unfolding misread
  misread-zero stale [] kind = refl
  misread-zero stale ((k, d) ∷ c) kind = elim (Option-cases (verdict options t d)) [
    | inl gone ↦
        rw (gone, kind d, deleted_unapproved d gone) (omega (arith, misread-zero stale c kind))
    | inr (d', left) ↦ rw left (omega (arith, misread-zero stale c kind))
  ]

-- A sweep of a valid table ends and leaves a valid table. A connection is found after it exactly as
-- its verdict says: deleted, marked, or as it was. The returned size is the number of approved
-- connections that are left, and of the freed records whose `approval` was read as set.
pub history_rotate_report :
    (options : Options) (stale : HistoryType → Bool) (t : ℕ) (history : History)
    → IsValid addr_ops history
    → (swept : History) × (size : ℕ) × (history_rotate options stale t history ≡ some (swept, size))
      × IsValid addr_ops swept
      × ((k : AddrPair)
          → hash_find addr_ops swept k
            ≡ Option.bind (hash_find addr_ops history k) (verdict options t))
      × (size ≡ approved (flatten swept) + misread options t stale (flatten history))
history_rotate_report options stale t history v = (
  map (sweep options t) history,
  counted_all options stale t (flatten history),
  history_rotate_lem options stale t history v,
  sweep-IsValid options t history v,
  λ k. hash_find-sweep options t history k v,
  rw (← sweep-flatten options t history) (counted-approved options t stale (flatten history)),
)

-- Where memory keeps its contents when it is freed, a sweep of a valid table ends and leaves a
-- valid table, and the size is the number of approved connections that are left.
pub history_rotate_size :
    (options : Options) (stale : HistoryType → Bool) (t : ℕ) (history : History)
    → IsValid addr_ops history
    → ((d : HistoryType) → stale d ≡ d.approval)
    → (swept : History) × (history_rotate options stale t history
        ≡ some (swept, approved (flatten swept)))
      × IsValid addr_ops swept
history_rotate_size options stale t history v kind =
    let count = counted-approved options t stale (flatten history) in
    let none_misread = misread-zero options t stale (flatten history) kind in
    let size : counted_all options stale t (flatten history)
        ≡ approved (flatten (map (sweep options t) history)) =
      rw (← sweep-flatten options t history) (omega (arith, count, none_misread)) in
    (
      map (sweep options t) history,
      rw (← size) (history_rotate_lem options stale t history v),
      sweep-IsValid options t history v,
    )
