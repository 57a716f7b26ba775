-- ===== src/Resolver/Pending.antt =====
-- What the resolver of resolver.c promises: a bounded queue of addresses, and a map of names.
use iftop_dotqoo.Prelude.{
  Bool, List, Option, [], if◌then◌else◌, length, ltb, none, some, take, ℕ, ◌++◌, ◌-◌, ◌==◌, ◌∷◌,
}
use iftop_dotqoo.Hash.Lookup.{update}
use iftop_dotqoo.NsHash.{In6Addr, ns_ops}
use iftop_dotqoo.Resolver.{
  AddrStorage, Name, Resolver, make_raddr, ns_key, resolve, stays_numerical, worker_store,
  worker_take,
}

-- The calls of a client and of the worker, and what they see.
pub data Call : Type 0 where
  resolves : Bool → ℕ → In6Addr → ℕ → Call
  takes : Call
  stores : AddrStorage → Option Name → Call

pub data Reply : Type 0 where
  named : Option Name → Reply
  taken : Option AddrStorage → Reply
  stored : Reply

-- The abstract resolver: at most 19 addresses wait, and each key has at most one name.
pub record Pending : Type 0 where
  pub queue : List AddrStorage
  pub names : In6Addr → Option Name

unfoldable pub put_name : In6Addr → Name → Pending → Pending
put_name k hostname p = record p { names = λ q. update ns_ops p.names k (some hostname) q }

unfoldable pub wait_in : AddrStorage → Pending → Pending
wait_in raddr p =
    if length p.queue == 19
    then p
    else if stays_numerical raddr
    then p
    else record p { queue = p.queue ++ raddr ∷ [] }

unfoldable pub take_next : Pending → List AddrStorage → Pending × Reply
take_next p [] = (p, taken none)
take_next p (addr ∷ queue) = (record p { queue = queue }, taken (some addr))

module _ (inet_ntop : AddrStorage → Name) where
  unfoldable pub do_call : Resolver → Call → Resolver × Reply
  do_call r (resolves dns af addr buflen) =
      let (r', result) = resolve inet_ntop dns af addr buflen r in (r', named result)
  do_call r takes = elim (worker_take r) [
    | none ↦ (r, taken none)
    | some (addr, r') ↦ (r', taken (some addr))
  ]
  do_call r (stores addr hostname) = (worker_store addr hostname r, stored)

  -- An address that is asked for the first time gets its numerical name, and waits to be looked up.
  unfoldable pub ask : Bool → ℕ → In6Addr → ℕ → Pending → Pending × Reply
  unfolding put_name wait_in
  ask dns af addr buflen p =
      let raddr = make_raddr af addr in
      let reply = λ (hostname : Name).
        named (if ltb 1 buflen then some (take (buflen - 1) hostname) else none) in
      if dns
      then elim (p.names (ns_key raddr)) [
        | some hostname ↦ (p, reply hostname)
        | none ↦
            (wait_in raddr (put_name (ns_key raddr) (inet_ntop raddr) p), reply (inet_ntop raddr))
      ]
      else (p, named none)

  unfoldable pub answer : Pending → Call → Pending × Reply
  unfolding ask take_next
  answer p (resolves dns af addr buflen) = ask dns af addr buflen p
  answer p takes = take_next p p.queue
  answer p (stores addr none) = (p, stored)
  answer p (stores addr (some hostname)) = (put_name (ns_key addr) hostname p, stored)

  unfoldable pub run_calls : Resolver → List Call → List Reply
  run_calls r [] = []
  run_calls r (c ∷ calls) = let (r', reply) = do_call r c in reply ∷ run_calls r' calls

  unfoldable pub run_answers : Pending → List Call → List Reply
  run_answers p [] = []
  run_answers p (c ∷ calls) = let (p', reply) = answer p c in reply ∷ run_answers p' calls
