-- ===== src/Tests/Tables.antt =====
-- The hash tables on two connections and two services.
use iftop_dotqoo.Prelude.{List, Option, [], arith, flatten, length, none, some, ℕ, ◌∷◌, ◌≡◌}
use iftop_dotqoo.Hash.{hash_find, hash_initialise, next_item}
use iftop_dotqoo.Hash.Refine.{
  Call, delete, delete_all, give, look, run_hash, run_hash-run_map, run_map,
}
use iftop_dotqoo.History.{HistoryType}
use iftop_dotqoo.Hash.Walk.{walk, walk-flatten}
use iftop_dotqoo.AddrHash.{AddrPair, addr_ops, addr_ops-IsLawful}
use iftop_dotqoo.ServHash.{Servent, serv_hash_create, serv_hash_initialise, serv_ops}
use iftop_dotqoo.ServHash.Names.{last_name, serv_hash_initialise_lem}
use iftop_dotqoo.Prelude.Int.{negsuc, pos, ℤ}
use iftop_dotqoo.Tests.{brief, steady, two_items, two_items-IsValid, web}
use Prim.Native.String.{String}

walk-flatten_example :
    walk addr_ops (length (flatten two_items)) two_items (next_item addr_ops two_items [])
    ≡ flatten two_items
walk-flatten_example =
    walk-flatten addr_ops (length (flatten two_items)) two_items two_items-IsValid (omega arith)

-- DNS over TCP and over UDP, and the number of each protocol.
abbrev services : List Servent
services =
    record { s_name = "domain"; s_port = 13568; s_proto = "tcp" }
    ∷ record { s_name = "http"; s_port = 20480; s_proto = "tcp" }
    ∷ []

abbrev protocol_number : String → Option ℕ
protocol_number name = some 6

serv_hash_initialise_lem_example :
    hash_find serv_ops
      (serv_hash_initialise protocol_number serv_hash_create services)
      (record { port = 80; protocol = 6 })
    ≡ last_name protocol_number services (record { port = 80; protocol = 6 })
serv_hash_initialise_lem_example =
    serv_hash_initialise_lem protocol_number services (record { port = 80; protocol = 6 })

abbrev ports : List ℤ
ports = pos 137 ∷ pos 138 ∷ negsuc 0 ∷ []

abbrev netbios : ℕ
netbios = 138

abbrev calls : List (Call AddrPair HistoryType)
calls = give web steady ∷ look web ∷ give web brief ∷ delete web ∷ look web ∷ delete_all ∷ []

run_hash-run_map_example :
    run_hash addr_ops calls (hash_initialise addr_ops).0 ≡ run_map addr_ops calls (λ q. none)
run_hash-run_map_example = run_hash-run_map addr_ops addr_ops-IsLawful calls
