-- ===== src/Resolver/Refine.antt =====
-- The resolver of resolver.c behaves as a bounded queue of addresses and a map of names.
use iftop_dotqoo.Prelude.{
  List, Option, Option-cases, [], ap, arith, false, if◌then◌else◌, inl, inr, length,
  length-replicate, none, refl, some, subst, sym, true, ◌++◌, ◌==◌, ◌∙◌, ◌∷◌, ◌≡◌,
}
use iftop_dotqoo.Hash.{Table, hash_find, hash_insert}
use iftop_dotqoo.Hash.Chain.{compare_self}
use iftop_dotqoo.Hash.Table.{IsValid}
use iftop_dotqoo.Hash.Lookup.{
  hash_delete_lem, hash_initialise_lem, hash_insert_lem, update, update-none,
}
use iftop_dotqoo.NsHash.{In6Addr, ns_hash_compare, ns_hash_create, ns_ops, ns_ops-IsLawful}
use iftop_dotqoo.Resolver.{
  AddrStorage, Name, Resolver, enqueue, forget, make_raddr, no_addr, ns_key, resolve,
  resolver_initialise, stays_numerical, worker_store,
}
use iftop_dotqoo.Resolver.Ring.{
  InBounds, enqueue-InBounds, ns_hash-enqueue, waiting, waiting-enqueue, window, worker_take-cases,
}
use iftop_dotqoo.Resolver.Pending.{
  Call, Pending, answer, ask, do_call, put_name, resolves, run_answers, run_calls, stores,
  take_next, taken, takes, wait_in,
}

-- The abstract resolver that a concrete one stands for.
pub record Refines (r : Resolver) (p : Pending) : Type 0 where
  pub bounds : InBounds r
  pub table : IsValid ns_ops r.ns_hash
  pub queue : waiting r ≡ p.queue
  pub names : (k : In6Addr) → hash_find ns_ops r.ns_hash k ≡ p.names k

-- A key that is deleted, if it was there, is not there.
forget_lem :
    (addr : AddrStorage) (t : Table In6Addr Name)
    → IsValid ns_ops t
    → IsValid ns_ops (forget addr t)
      × ((q : In6Addr)
          → hash_find ns_ops (forget addr t) q
            ≡ update ns_ops (hash_find ns_ops t) (ns_key addr) none q)
unfolding forget
forget_lem addr t v =
    let (w, gone, _) = hash_delete_lem ns_ops ns_ops-IsLawful t (ns_key addr) v in
    elim (Option-cases (hash_find ns_ops t (ns_key addr))) [
      | inl absent ↦
          rw (forget, absent) (v, λ q. update-none ns_ops ns_ops-IsLawful t (ns_key addr) q absent)
      | inr (old, found) ↦ rw (forget, found) (w, gone)
    ]

update_twice :
    (m n : In6Addr → Option Name) (k q : In6Addr) (hostname : Name)
    → m q ≡ n q
    → (if ns_hash_compare k q then some hostname else update ns_ops m k none q)
      ≡ update ns_ops n k (some hostname) q
update_twice m n k q hostname e = ground arith

pub store_lem :
    (addr : AddrStorage) (hostname : Name) (r : Resolver) (p : Pending)
    → Refines r p
    → Refines (worker_store addr (some hostname) r) (put_name (ns_key addr) hostname p)
unfolding worker_store put_name waiting
store_lem addr hostname r p v =
    let (w, gone) = forget_lem addr r.ns_hash v.table in
    let k = ns_key addr in
    let absent : hash_find ns_ops (forget addr r.ns_hash) k ≡ none =
      gone k ∙ rw (compare_self ns_ops ns_ops-IsLawful k) in
    let (x, found) =
      hash_insert_lem ns_ops ns_ops-IsLawful (forget addr r.ns_hash) k hostname w absent in
    record {
      bounds = record {
        size = v.bounds.size;
        head_in = v.bounds.head_in;
        tail_in = v.bounds.tail_in;
      };
      table = x;
      queue = v.queue;
      names = λ q.
          found q
          ∙ rw (gone q)
              (update_twice (hash_find ns_ops r.ns_hash) p.names k q hostname (v.names q));
    }

-- A new name under a key that has none.
put_lem :
    (k : In6Addr) (hostname : Name) (r : Resolver) (p : Pending)
    → Refines r p
    → hash_find ns_ops r.ns_hash k ≡ none
    → Refines
        (record r { ns_hash = (hash_insert ns_ops r.ns_hash k hostname).0 })
        (put_name k hostname p)
unfolding put_name waiting
put_lem k hostname r p v absent =
    let (x, found) = hash_insert_lem ns_ops ns_ops-IsLawful r.ns_hash k hostname v.table absent in
    record {
      bounds = record {
        size = v.bounds.size;
        head_in = v.bounds.head_in;
        tail_in = v.bounds.tail_in;
      };
      table = x;
      queue = v.queue;
      names = λ q. found q ∙ ap (λ o. if ns_hash_compare k q then some hostname else o) (v.names q);
    }

names-wait_in : (raddr : AddrStorage) (p : Pending) → (wait_in raddr p).names ≡ p.names
unfolding wait_in
names-wait_in raddr p = ground arith

queue-wait_in :
    (raddr : AddrStorage) (p : Pending)
    → (wait_in raddr p).queue ≡ (
        if length p.queue == 19
        then p.queue
        else if stays_numerical raddr
        then p.queue
        else p.queue ++ raddr ∷ [])
unfolding wait_in
queue-wait_in raddr p = ground arith

enqueue_lem :
    (raddr : AddrStorage) (r : Resolver) (p : Pending)
    → Refines r p
    → Refines (enqueue raddr r) (wait_in raddr p)
enqueue_lem raddr r p v = record {
  bounds = enqueue-InBounds raddr r v.bounds;
  table = rw (ns_hash-enqueue raddr r) v.table;
  queue = rw (waiting-enqueue raddr r v.bounds, queue-wait_in raddr p, v.queue);
  names = λ k. rw (ns_hash-enqueue raddr r, names-wait_in raddr p) (v.names k);
}

module _ (inet_ntop : AddrStorage → Name) where
  -- Each call returns what the abstract resolver returns, and leaves a resolver that stands for it.
  pub do_call_lem :
      (c : Call) (r : Resolver) (p : Pending)
      → Refines r p
      → ((do_call inet_ntop r c).1 ≡ (answer inet_ntop p c).1)
        × Refines (do_call inet_ntop r c).0 (answer inet_ntop p c).0
  unfolding do_call answer ask resolve take_next
  do_call_lem (resolves false af addr buflen) r p v = (refl, v)
  do_call_lem (resolves true af addr buflen) r p v =
      let k = ns_key (make_raddr af addr) in
      elim (Option-cases (hash_find ns_ops r.ns_hash k)) [
        | inl absent ↦
            let new : p.names k ≡ none = sym (v.names k) ∙ absent in
            rw (do_call, answer, resolve, ask, absent, new)
              (refl, enqueue_lem _ _ _ (put_lem k (inet_ntop (make_raddr af addr)) r p v absent))
        | inr (hostname, found) ↦
            let old : p.names k ≡ some hostname = sym (v.names k) ∙ found in
            rw (do_call, answer, resolve, ask, found, old) (refl, v)
      ]
  do_call_lem takes r p v = elim (worker_take-cases r v.bounds) [
    | inl (idle, nobody) ↦
        let queue : p.queue ≡ [] = sym v.queue ∙ nobody in
        rw (do_call, idle)
          (subst (λ l. (taken none ≡ (take_next p l).1) × Refines r (take_next p l).0) (sym queue)
            (refl, v))
    | inr (addr, r', takes', first, bounds, same) ↦
        let queue : p.queue ≡ addr ∷ waiting r' = sym v.queue ∙ first in
        rw (do_call, takes')
          (subst (λ l. (taken (some addr) ≡ (take_next p l).1) × Refines r' (take_next p l).0)
            (sym queue)
            (
              refl,
              record {
                bounds = bounds;
                table = rw same v.table;
                queue = refl;
                names = λ k. rw same (v.names k);
              },
            ))
  ]
  do_call_lem (stores addr none) r p v = (refl, unfold worker_store in v)
  do_call_lem (stores addr (some hostname)) r p v = (refl, store_lem addr hostname r p v)

  -- No sequence of calls by clients and workers tells a valid resolver from the bounded queue and
  -- the map of names that it stands for.
  pub run_calls-run_answers :
      (calls : List Call) (r : Resolver) (p : Pending)
      → Refines r p
      → run_calls inet_ntop r calls ≡ run_answers inet_ntop p calls
  unfolding run_calls run_answers
  run_calls-run_answers [] r p v = refl
  run_calls-run_answers (c ∷ calls) r p v =
      let (same, next) = do_call_lem c r p v in
      rw (same, run_calls-run_answers calls (do_call inet_ntop r c).0 (answer inet_ntop p c).0 next)

-- A new resolver stands for nobody waiting and no names.
pub resolver_initialise-Refines :
    Refines resolver_initialise (record { queue = []; names = λ k. none })
unfolding resolver_initialise ns_hash_create waiting window
resolver_initialise-Refines =
    let (valid, empty) = hash_initialise_lem {R = Name} ns_ops ns_ops-IsLawful in
    record {
      bounds = record {
        size = length-replicate 20 no_addr;
        head_in = omega arith;
        tail_in = omega arith;
      };
      table = valid;
      queue = refl;
      names = empty;
    }
