-- ===== src/Options.antt =====
-- The options of options.h that the capture, the sweep of the history and the reporting read.
-- A C `int` used as a flag is a Bool, other `int` and `long` options are integers, and a time is
-- the number of seconds that `time` returns.
pub mod NetFilter
pub mod Args
pub mod Make
use iftop_dotqoo.Prelude.{Bool, List, ℕ}
use iftop_dotqoo.Prelude.Int.{ℤ}

pub record Options : Type 0 where
  pub promiscuous_but_choosy : Bool
  pub netfilter : Bool
  pub netfilternet : ℕ
  pub netfiltermask : ℕ
  pub history_delete_interval : ℤ
  pub threshold : ℤ
  pub duration : ℤ
  pub block_protocols : List ℤ
  pub send_interval : ℤ
  pub send_last : ℕ
