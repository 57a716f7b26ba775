-- ===== src/Tests/Lookups.antt =====
-- Names looked up by the system.
use iftop_dotqoo.Prelude.{
  List, Option, [], arith, if◌then◌else◌, length, ltb, map, none, refl, replicate, some, take, true,
  ℕ, ◌*◌, ◌<◌, ◌^◌, ◌∷◌, ◌≡◌, ◌≢◌, ◌≤◌,
}
use iftop_dotqoo.Prelude.Int.{pos}
use iftop_dotqoo.Text.{atoi, codes, strtok}
use iftop_dotqoo.Resolver.{AddrStorage, Name, af_inet}
use iftop_dotqoo.Resolver.Lookup.{
  HostAnswer, erange, host, name_of, resolve_gethostbyaddr_r, reverse_name,
}
use iftop_dotqoo.Resolver.Lookup.Growth.{resolve_gethostbyaddr_r-enough}
use iftop_dotqoo.Resolver.Lookup.Reverse.{strtok-reverse_name}
use iftop_dotqoo.Resolver.Lookup.Fork.{Forking, resolve_forking, resolve_forking-none}

-- 8.8.4.4
abbrev asked : AddrStorage
asked = record { af = af_inet; len = 4; word0 = 67373064; word1 = 0; word2 = 0; word3 = 0 }

-- The answer takes 3000 bytes.
abbrev long_answer : AddrStorage → ℕ → HostAnswer
long_answer addr room = if ltb room 3000 then erange else host (codes "dns")

long_answer_fits : (room : ℕ) → 3000 ≤ room → long_answer asked room ≢ erange
long_answer_fits room h e = ground arith

resolve_gethostbyaddr_r-enough_example :
    (k : ℕ) × (resolve_gethostbyaddr_r long_answer 3 asked
      ≡ some (name_of (long_answer asked (1024 * 2 ^ k))))
    × (long_answer asked (1024 * 2 ^ k) ≢ erange)
resolve_gethostbyaddr_r-enough_example =
    resolve_gethostbyaddr_r-enough long_answer asked 2 3000 refl long_answer_fits (omega arith)

strtok-reverse_name_example :
    (map atoi (take 4 (strtok b'.' (reverse_name asked))) ≡ pos 4 ∷ pos 4 ∷ pos 8 ∷ pos 8 ∷ [])
    × (length (reverse_name asked) < 35)
strtok-reverse_name_example = strtok-reverse_name asked

abbrev idle_thread : Forking
idle_thread = record { workerinfo = none; killed = [] }

abbrev knows : List ℕ → Option Name
knows a = some (codes "dns")

abbrev bytes : List ℕ
bytes = 8 ∷ 8 ∷ 4 ∷ 4 ∷ replicate 12 0

resolve_forking-none_example : (resolve_forking knows true (pos 77) bytes idle_thread).1 ≡ none
resolve_forking-none_example = resolve_forking-none knows true (pos 77) bytes idle_thread
