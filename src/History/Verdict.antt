-- ===== src/History/Verdict.antt =====
-- What `history_rotate` does to one connection, told without the table.
use iftop_dotqoo.Prelude.{
  Bool, Option, [], if◌then◌else◌, none, some, true, ℕ, ◌++◌, ◌+◌, ◌||◌, ◌∷◌,
}
use iftop_dotqoo.Hash.{Chain}
use iftop_dotqoo.AddrHash.{AddrPair}
use iftop_dotqoo.Options.{Options}
use iftop_dotqoo.History.{
  HistoryType, earns_approval, is_low_traffic_connection, is_short_connection,
}

module _ (options : Options) where
  -- The record that the sweep at time `t` leaves, or `none` where it deletes the connection.
  unfoldable pub verdict : ℕ → HistoryType → Option HistoryType
  verdict t d =
      if d.approval
      then some d
      else if is_short_connection options d t || is_low_traffic_connection options d t
      then none
      else if earns_approval options d
      then some (record d { approval = true })
      else some d

  -- The nodes that are left of one.
  unfoldable pub kept : ℕ → AddrPair → HistoryType → Chain AddrPair HistoryType
  kept t key d = elim (verdict t d) [ none ↦ [] | some d' ↦ (key, d') ∷ [] ]

  unfoldable pub sweep : ℕ → Chain AddrPair HistoryType → Chain AddrPair HistoryType
  sweep t [] = []
  sweep t ((key, d) ∷ c) = kept t key d ++ sweep t c

  -- What the sweep adds to `size` for one record.
  unfoldable pub counted : (HistoryType → Bool) → ℕ → HistoryType → ℕ
  counted stale t d = elim (verdict t d) [
    | none ↦ if stale d then 1 else 0
    | some d' ↦ if d'.approval then 1 else 0
  ]

  unfoldable pub counted_all : (HistoryType → Bool) → ℕ → Chain AddrPair HistoryType → ℕ
  counted_all stale t [] = 0
  counted_all stale t ((key, d) ∷ c) = counted stale t d + counted_all stale t c
