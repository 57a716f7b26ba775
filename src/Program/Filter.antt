-- ===== src/Program/Filter.antt =====
-- iftop.c: `set_filter_code`.
use iftop_dotqoo.Prelude.{arith, length-append, some, ◌++◌, ◌≡◌}
use iftop_dotqoo.Run.{ok}
use iftop_dotqoo.Text.{Text, codes}
use iftop_dotqoo.Mqtt.Topic.{strcpy}
use iftop_dotqoo.Program.{filter_text}

-- The text of a filter fits the space that is allocated for it, with the zero at its end.
pub filter_text_lem :
    (filter : Text)
    → filter_text (some filter) ≡ ok (codes "(" ++ (filter ++ codes ") and (ip or ip6)"))
unfolding filter_text strcpy
filter_text_lem filter = ground (arith, length-append filter (codes ") and (ip or ip6)"))
