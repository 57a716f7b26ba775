-- ===== src/Tests/Typing.antt =====
-- A line that is edited.
use iftop_dotqoo.Prelude.{Bool, List, [], leb, refl, some, ℕ, ◌&&◌, ◌==◌, ◌||◌, ◌∷◌, ◌≡◌}
use iftop_dotqoo.Text.{codes}
use iftop_dotqoo.Edline.{
  Key, accepts, char, delete, edit, edline, enter, first_line, kill_word, left,
}
use iftop_dotqoo.Edline.Cursor.{IsLine, edit-IsLine, first_line-IsLine}
use iftop_dotqoo.Edline.Zipper.{compose, turn}
use iftop_dotqoo.Edline.Refine.{edline-compose, outcome}

abbrev isprint : ℕ → Bool
isprint c = leb 32 c && leb c 126

abbrev isspace : ℕ → Bool
isspace c = c == b' ' || leb 9 c && leb c 13

-- "not udp" loses its last word and the space, and becomes "not tcp".
abbrev keys : List Key
keys =
    kill_word
    ∷ char b' '
    ∷ char b't'
    ∷ char b'x'
    ∷ left
    ∷ delete
    ∷ char b'c'
    ∷ char b'p'
    ∷ enter
    ∷ []

edline_run : edline isprint isspace (some (codes "not udp")) keys ≡ accepts (codes "not tcp")
unfolding edline
edline_run = refl

edline-compose_example :
    outcome (edline isprint isspace (some (codes "not udp")) keys)
    ≡ compose isprint isspace keys (turn [] (codes "not udp")) []
edline-compose_example = edline-compose isprint isspace (some (codes "not udp")) keys

edit-IsLine_example : IsLine (edit isprint isspace kill_word (first_line (some (codes "not udp"))))
edit-IsLine_example =
    edit-IsLine isprint isspace kill_word (first_line (some (codes "not udp")))
      (first_line-IsLine (some (codes "not udp")))
