-- ===== src/Printout.antt =====
-- ui_common.c: the line of a connection, and the print of the whole history. `inet_ntop` is the
-- library's. A string is what stands in front of its first zero.
pub mod Line
pub mod Listing
use iftop_dotqoo.Prelude.{
  Bool, List, Option, [], flatten, get_or, if◌then◌else◌, leb, length, ltb, none, replicate, some,
  suc, take, true, zero, ℕ, ◌%◌, ◌&&◌, ◌*◌, ◌++◌, ◌+◌, ◌-◌, ◌==◌, ◌^◌, ◌||◌, ◌∷◌,
}
use iftop_dotqoo.Text.{Text, codes}
use iftop_dotqoo.Text.Decimal.{print_decimal}
use iftop_dotqoo.Hash.{Chain, Table, hash_find, next_item}
use iftop_dotqoo.AddrHash.{AddrPair, addr_ops}
use iftop_dotqoo.ServHash.{IpService, serv_ops}
use iftop_dotqoo.History.{History, HistoryType, total_bytes}
use iftop_dotqoo.Capture.{resolution}
use Prim.Native.String.{String}
use mathlib.Core.Option

abbrev pub hostname_length : ℕ
hostname_length = 256

-- `%-*s`
unfoldable pub pad_right : ℕ → Text → Text
pad_right width s = s ++ replicate (width - length s) b' '

-- `sprintf(line + left, …)`: behind the end of the string, the write is not seen.
unfoldable pub write_from : ℕ → Text → Text → Text
write_from left line text = if leb left (length line) then take left line ++ text else line

abbrev pub all_zero : List ℕ → Bool
all_zero [] = true
all_zero (b ∷ bs) = (b == 0) && all_zero bs

-- `IN6_IS_ADDR_UNSPECIFIED` reads 16 bytes from a 4-byte address on: `behind` are the last 12.
unfoldable pub host_text : (ℕ → Text) → ℕ → List ℕ → Bool → Text
host_text inet_ntop addr behind unspecified_as_star =
    if ((addr == 0) && all_zero behind) && unspecified_as_star then codes " * " else inet_ntop addr

-- What the lines read of the options and of the service table.
pub record Services : Type 0 where
  pub portresolution : Bool
  pub service_hash : Table IpService String

unfoldable pub service_text : Services → ℕ → ℕ → Text
unfolding print_decimal
service_text services port protocol =
    let number = take (hostname_length - 1) (codes ":" ++ print_decimal port) in
    let skey : IpService = record { port = port; protocol = protocol } in
    let named : Text = elim (hash_find serv_ops services.service_hash skey) [
      | none ↦ number
      | some s_name ↦ take (hostname_length - 1) (codes ":" ++ codes s_name)
    ] in
    if port == 0 then [] else if services.portresolution then named else number

-- The two texts in one line of width `width`. `left > (L - strlen(service))` is a comparison of
-- unsigned numbers of 64 bits, and a negative width stands for its absolute value.
unfoldable pub place : ℕ → Bool → Text → Text → Text
unfolding pad_right write_from
place width whole hostname service =
    let line =
      if whole
      then pad_right width hostname
      else codes "[" ++ (take (width - 2) hostname ++ codes "]") in
    let left = if whole then length hostname else length hostname + 2 in
    let room = (width + 2 ^ 64 - length service) % 2 ^ 64 in
    let left' = if ltb room left then width - length service else left in
    write_from left' line (pad_right ((width - left') + (left' - width)) service)

-- `inet` is `af == AF_INET`.
unfoldable pub sprint_host : (ℕ → Text) → Services → Bool → ℕ → List ℕ → ℕ → ℕ → ℕ → Bool → Text
unfolding host_text service_text place
sprint_host inet_ntop services inet addr behind port protocol width unspecified_as_star =
    place width ((port == 0 || inet) || ltb width 2)
      (host_text inet_ntop addr behind unspecified_as_star) (service_text services port protocol)

abbrev pub history_divs : List ℕ
history_divs = 1 ∷ 5 ∷ 20 ∷ []

unfoldable pub history_length : ℕ → ℕ → ℕ
history_length history_len d =
    if ltb history_len (get_or history_divs d 0)
    then history_len * resolution
    else get_or history_divs d 0 * resolution

-- What `print_all_history` reads: the bytes behind the two addresses of a key in memory, too.
pub record Printer : Type 0 where
  pub inet_ntop : ℕ → Text
  pub services : Services
  pub aggregate_src : Bool
  pub aggregate_dest : Bool
  pub behind_src : AddrPair → List ℕ
  pub behind_dst : AddrPair → List ℕ

module _ (pr : Printer) where
  unfoldable pub history_line : AddrPair × HistoryType → Text
  unfolding sprint_host total_bytes
  history_line (key, stat) =
      let host1 =
        sprint_host pr.inet_ntop pr.services true key.src (pr.behind_src key) key.src_port
          key.protocol 40 pr.aggregate_src in
      let host2 =
        sprint_host pr.inet_ntop pr.services true key.dst (pr.behind_dst key) key.dst_port
          key.protocol 40 pr.aggregate_dest in
      host1
      ++ (codes " <->  "
          ++ (host2
              ++ (codes " "
                  ++ (print_decimal key.protocol
                      ++ (codes " " ++ (print_decimal (total_bytes stat) ++ codes "\n"))))))

  unfoldable pub last_lines : ℕ → List Text
  last_lines counter =
      (codes "counter = " ++ (print_decimal counter ++ codes "\n"))
      ∷ (replicate 57 b'-' ++ codes "\n")
      ∷ []

  -- The loop from the node on that `hash_next_item` has given; `none` is the end of the fuel.
  unfoldable pub print_loop : ℕ → History → Chain AddrPair HistoryType → ℕ → Option (List Text)
  unfolding history_line last_lines
  print_loop zero history n counter = none
  print_loop (suc fuel) history [] counter = some (last_lines counter)
  print_loop (suc fuel) history (p ∷ c) counter =
      Option.map (λ lines. history_line p ∷ lines)
        (print_loop fuel history (next_item addr_ops history (p ∷ c)) (counter + 1))

  -- The fuel is one round for each record and one for the end of the loop.
  unfoldable pub print_all_history : History → Option (List Text)
  unfolding print_loop
  print_all_history history =
      print_loop (suc (length (flatten history))) history (next_item addr_ops history []) 0
