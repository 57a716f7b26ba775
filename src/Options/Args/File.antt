-- ===== src/Options/Args/File.antt =====
-- The arguments from the file options_args.txt, and `options_read_args` of options.c as a whole.
use iftop_dotqoo.Prelude.{
  Bool, List, Option, [], false, if◌then◌else◌, length, ltb, none, not, some, suc, zero, ℕ, ◌++◌,
  ◌==◌, ◌||◌, ◌∷◌,
}
use iftop_dotqoo.Run.{Run, fault, ok, ◌>>=◌, buffer_overflow, uninitialised_read}
use iftop_dotqoo.Text.{Text, strtok, take_while}
use iftop_dotqoo.Options.Args.{Args, Opt, Outcome, preset, read_opts, strtok}

abbrev is_comment : Text → Bool
is_comment [] = false
is_comment (c ∷ s) = c == b'#' || c == b'\n'

-- The loop over what `fgets` returns; `args` has 255 bytes, and holds nothing before its first line.
unfoldable pub join_lines : Option Text → List Text → Run (Option Text)
join_lines args [] = ok args
join_lines args (buff ∷ lines) =
    let line = take_while (λ c. not (c == b'\n')) buff in
    let args' : Text = elim args [ none ↦ line ++ b' ' ∷ [] | some s ↦ s ++ line ++ b' ' ∷ [] ] in
    let skip = join_lines args lines in
    let rest = join_lines (some args') lines in
    if is_comment buff then skip else if ltb (length args') 255 then rest else fault buffer_overflow

-- `fargv` has room for that many words, each in a block of 64 bytes.
unfoldable pub copy_args : ℕ → List Text → Run (List Text)
copy_args room [] = ok []
copy_args zero (arg ∷ args) = fault buffer_overflow
copy_args (suc room) (arg ∷ args) =
    let rest = copy_args room args in
    if ltb (length arg) 64 then (rest >>= λ l. ok (arg ∷ l)) else fault buffer_overflow

-- `none` is a file that cannot be opened, and then no arguments are read.
unfoldable pub read_args_from_file : Option (List Text) → Run (Option (List Text))
unfolding join_lines copy_args strtok
read_args_from_file none = ok none
read_args_from_file (some lines) = join_lines none lines >>= λ args. elim args [
  | none ↦ fault uninitialised_read
  | some s ↦ copy_args 31 (strtok b' ' s) >>= λ l. ok (some l)
]

unfoldable pub options_read_args :
    (List Text → List Opt × Bool) → Option (List Text) → List Text → Args → Run Outcome
unfolding read_args_from_file read_opts
options_read_args getopt file argv s = read_args_from_file file >>= λ fargv.
    let (opts, others) = getopt (elim fargv [ none ↦ argv | some args ↦ args ]) in
    read_opts opts others (preset s)
