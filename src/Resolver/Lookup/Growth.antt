-- ===== src/Resolver/Lookup/Growth.antt =====
-- The buffer of gethostbyaddr_r in resolver.c grows until it is large enough.
use iftop_dotqoo.Prelude.{
  Option, arith, inl, inr, none, refl, some, suc, true, zero, ℕ, ◌*◌, ◌^◌, ◌≡◌, ◌≢◌, ◌≤◌, ◌⊎◌,
}
use iftop_dotqoo.Resolver.{AddrStorage}
use iftop_dotqoo.Resolver.Lookup.{
  HostAnswer, enlarge, erange, failed, host, is_inet, name_of, resolve_gethostbyaddr_r,
  unless_erange,
}

HostAnswer-cases :
    (a : HostAnswer) (larger : Option HostAnswer)
    → (a ≡ erange) ⊎ ((unless_erange a larger ≡ some a) × (a ≢ erange))
HostAnswer-cases erange larger = inl refl
HostAnswer-cases failed larger = inr (refl, λ e. ground (arith, e))
HostAnswer-cases (host name) larger = inr (refl, λ e. ground (arith, e))

doubled : (size k : ℕ) → size * 2 ^ suc k ≡ size * 2 * 2 ^ k
doubled size k = grind arith

-- The first buffer that is large enough gives the answer.
enlarge-enough :
    (answer : ℕ → HostAnswer) (fuel size need : ℕ)
    → ((room : ℕ) → need ≤ room → answer room ≢ erange)
    → need ≤ size * 2 ^ fuel
    → (k : ℕ) × (enlarge answer (suc fuel) size ≡ some (answer (size * 2 ^ k)))
      × (answer (size * 2 ^ k) ≢ erange)
unfolding enlarge
enlarge-enough answer zero size need serves enough =
    let start : size * 2 ^ 0 ≡ size = omega arith in
    elim (HostAnswer-cases (answer size) none) [
      | inl small ↦ absurd (serves size (omega (arith, start)) small)
      | inr (ends, sound) ↦ (0, rw (start, ends), rw start sound)
    ]
enlarge-enough answer (suc fuel) size need serves enough =
    elim (HostAnswer-cases (answer size) (enlarge answer (suc fuel) (size * 2))) [
      | inl small ↦
          let (k, ends, sound) =
            enlarge-enough answer fuel (size * 2) need serves
              (omega (arith, doubled size fuel, enough)) in
          (suc k, rw (small, doubled size k) ends, rw (doubled size k) sound)
      | inr (ends, sound) ↦
          let start : size * 2 ^ 0 ≡ size = omega arith in (0, rw (start, ends), rw start sound)
    ]

-- For an address of IPv4 or IPv6, of which the answer fits every buffer from some size on: the loop
-- ends, after as many rounds as it takes to double 1024 up to that size and one more, with the name
-- of an answer that gethostbyaddr_r gave for the buffer of that moment.
pub resolve_gethostbyaddr_r-enough :
    (gethostbyaddr_r : AddrStorage → ℕ → HostAnswer) (addr : AddrStorage) (fuel need : ℕ)
    → is_inet addr ≡ true
    → ((room : ℕ) → need ≤ room → gethostbyaddr_r addr room ≢ erange)
    → need ≤ 1024 * 2 ^ fuel
    → (k : ℕ) × (resolve_gethostbyaddr_r gethostbyaddr_r (suc fuel) addr
        ≡ some (name_of (gethostbyaddr_r addr (1024 * 2 ^ k))))
      × (gethostbyaddr_r addr (1024 * 2 ^ k) ≢ erange)
unfolding resolve_gethostbyaddr_r
resolve_gethostbyaddr_r-enough gethostbyaddr_r addr fuel need inet serves enough =
    let (k, ends, sound) = enlarge-enough (gethostbyaddr_r addr) fuel 1024 need serves enough in
    (k, rw (inet, ends), sound)
