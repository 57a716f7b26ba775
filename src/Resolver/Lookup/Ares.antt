-- ===== src/Resolver/Lookup/Ares.antt =====
-- The look-up of a name with ares in resolver.c. The thread's channel is there, or not, or there
-- without having been initialised.
use iftop_dotqoo.Prelude.{
  ==_iff, All, Bool, List, Option, [], false, if◌then◌else◌, none, refl, some, true, ◌++◌, ◌==◌,
  ◌∷◌, ◌≡◌,
}
use iftop_dotqoo.Run.{Run, fault, ok, ◌>>=◌, out_of_fuel, uninitialised_read}
use iftop_dotqoo.Text.{Text}
use iftop_dotqoo.Resolver.{AddrStorage, Name, af_inet}
use iftop_dotqoo.Resolver.Lookup.{reverse_name}

pub data Channel : Type 0 where
  no_channel uninitialised initialised : Channel

-- What the call-back is told in one round of `ares_process`, if it is called.
pub data Round : Type 0 where
  silent failure : Round
  success : Name → Round

-- The loop that waits for the call-back; the fault is that it goes on behind the rounds of the list.
unfoldable pub ares_loop : List Round → Run (Option Name)
ares_loop [] = fault out_of_fuel
ares_loop (silent ∷ rounds) = ares_loop rounds
ares_loop (failure ∷ rounds) = ok none
ares_loop (success name ∷ rounds) = ok (some name)

-- `ares_init` tells whether it succeeds, `query` what happens after the query of a name.
unfoldable pub resolve_ares :
    Bool → (Text → List Round) → AddrStorage → Channel → Run (Channel × Option Name)
unfolding ares_loop reverse_name
resolve_ares ares_init query addr channel =
    let asked = ares_loop (query (reverse_name addr)) >>= λ name. ok (initialised, name) in
    if addr.af == af_inet
    then elim channel [
      | no_channel ↦ if ares_init then asked else ok (uninitialised, none)
      | uninitialised ↦ fault uninitialised_read
      | initialised ↦ asked
    ]
    else ok (channel, none)

ares_loop-success :
    (early late : List Round) (name : Name)
    → All (λ r. r ≡ silent) early
    → ares_loop (early ++ success name ∷ late) ≡ ok (some name)
unfolding ares_loop
ares_loop-success [] late name h = refl
ares_loop-success (r ∷ early) late name h = rw (h.0) (ares_loop-success early late name h.1)

-- Where the channel can be initialised, an IPv4 address has the name that the first call-back gives.
pub resolve_ares_lem :
    (query : Text → List Round) (addr : AddrStorage) (early late : List Round) (name : Name)
    → addr.af ≡ af_inet
    → query (reverse_name addr) ≡ early ++ success name ∷ late
    → All (λ r. r ≡ silent) early
    → resolve_ares true query addr no_channel ≡ ok (initialised, some name)
unfolding resolve_ares
resolve_ares_lem query addr early late name inet asked h =
    let v4 : (addr.af == af_inet) ≡ true = (==_iff addr.af af_inet).1 inet in
    rw (v4, asked, ares_loop-success early late name h)

-- After an initialisation that fails, the next look-up of the thread uses the channel all the same.
pub resolve_ares-resolve_ares :
    (ares_init : Bool) (query : Text → List Round) (addr other : AddrStorage)
    → addr.af ≡ af_inet
    → other.af ≡ af_inet
    → (resolve_ares false query addr no_channel >>= λ r. resolve_ares ares_init query other (r.0))
      ≡ fault uninitialised_read
unfolding resolve_ares
resolve_ares-resolve_ares ares_init query addr other inet inet' =
    let v4 : (addr.af == af_inet) ≡ true = (==_iff addr.af af_inet).1 inet in
    let v4' : (other.af == af_inet) ≡ true = (==_iff other.af af_inet).1 inet' in rw (v4, v4')
