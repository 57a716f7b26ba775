-- ===== src/Tests/Names.antt =====
-- The resolver: a client that asks for a name twice, and a worker that looks it up between.
use iftop_dotqoo.Prelude.{Option, [], arith, none, refl, some, true, ◌%◌, ◌∷◌, ◌≡◌}
use iftop_dotqoo.NsHash.{In6Addr, ns_hash_compare, ns_ops}
use iftop_dotqoo.Hash.{hash_find}
use iftop_dotqoo.Hash.Lookup.{update}
use iftop_dotqoo.Resolver.{
  AddrStorage, Name, Resolver, af_inet, af_inet6, make_raddr, ns_key, resolve, resolver_initialise,
  stays_numerical, worker_loop, worker_store,
}
use iftop_dotqoo.Resolver.Pending.{
  Pending, answer, ask, do_call, put_name, resolves, run_answers, run_calls, stores, takes, wait_in,
}
use iftop_dotqoo.Resolver.Refine.{
  Refines, do_call_lem, resolver_initialise-Refines, run_calls-run_answers,
}
use iftop_dotqoo.Resolver.Drain.{learn, pending, worker_loop-learn}
use iftop_dotqoo.Resolver.Half.{resolve-same_half}

-- 8.8.8.8 as IPv4, and two hosts of one IPv6 network.
abbrev quad8 : In6Addr
quad8 = record { word0 = 134744072; word1 = 0; word2 = 0; word3 = 0 }

abbrev host_a : In6Addr
host_a = record { word0 = 288; word1 = 7; word2 = 0; word3 = 1 }

abbrev host_b : In6Addr
host_b = record { word0 = 288; word1 = 7; word2 = 0; word3 = 2 }

-- The number of an address and its name, of one character each.
abbrev number : AddrStorage → Name
number addr = addr.word0 % 10 ∷ []

abbrev look_up : AddrStorage → Option Name
look_up addr = some (100 ∷ addr.word3 ∷ [])

abbrev nobody : Pending
nobody = record { queue = []; names = λ k. none }

run_calls-run_answers_example :
    run_calls number resolver_initialise (
      resolves true af_inet quad8 256
      ∷ takes
      ∷ stores (make_raddr af_inet quad8) (some (100 ∷ 0 ∷ []))
      ∷ resolves true af_inet quad8 256
      ∷ [])
    ≡ run_answers number nobody (
        resolves true af_inet quad8 256
        ∷ takes
        ∷ stores (make_raddr af_inet quad8) (some (100 ∷ 0 ∷ []))
        ∷ resolves true af_inet quad8 256
        ∷ [])
run_calls-run_answers_example =
    run_calls-run_answers number
      (resolves true af_inet quad8 256
        ∷ takes
        ∷ stores (make_raddr af_inet quad8) (some (100 ∷ 0 ∷ []))
        ∷ resolves true af_inet quad8 256
        ∷ [])
      resolver_initialise nobody resolver_initialise-Refines

-- The resolver once a client has asked for 8.8.8.8.
abbrev asked : Resolver
asked = (do_call number resolver_initialise (resolves true af_inet quad8 256)).0

abbrev asked_names : In6Addr → Option Name
asked_names q = update ns_ops (λ k. none) (ns_key (make_raddr af_inet quad8)) (some (2 ∷ [])) q

asked-Refines : Refines asked (pending (make_raddr af_inet quad8 ∷ []) asked_names)
unfolding answer ask wait_in put_name stays_numerical make_raddr
asked-Refines =
    (do_call_lem number (resolves true af_inet quad8 256) resolver_initialise nobody
      resolver_initialise-Refines).1

worker_loop-learn_example :
    (r' : Resolver) × (worker_loop look_up 2 asked ≡ some r')
    × Refines r' (pending [] (learn look_up (make_raddr af_inet quad8 ∷ []) asked_names))
worker_loop-learn_example =
    worker_loop-learn look_up (make_raddr af_inet quad8 ∷ []) 2 asked asked_names asked-Refines
      (omega arith)

-- A resolver that knows the first of the two hosts.
abbrev knows_a : Resolver
knows_a = worker_store (make_raddr af_inet6 host_a) (some (97 ∷ 49 ∷ [])) resolver_initialise

knows_a-found :
    hash_find ns_ops knows_a.ns_hash (ns_key (make_raddr af_inet6 host_a)) ≡ some (97 ∷ 49 ∷ [])
unfolding answer put_name make_raddr ns_hash_compare worker_store do_call
knows_a-found =
    (do_call_lem number (stores (make_raddr af_inet6 host_a) (some (97 ∷ 49 ∷ [])))
        resolver_initialise nobody resolver_initialise-Refines).1.names
      (ns_key (make_raddr af_inet6 host_a))

resolve-same_half_example :
    resolve number true af_inet6 host_b 256 knows_a ≡ (knows_a, some (97 ∷ 49 ∷ []))
resolve-same_half_example =
    resolve-same_half number host_a host_b 256 knows_a (97 ∷ 49 ∷ []) refl refl (omega arith)
      knows_a-found
