-- ===== src/Printout/Line.antt =====
-- The line of a host and its service in ui_common.c.
use iftop_dotqoo.Prelude.{
  Bool, Bool-cases, List, [], ap, append-nil, arith, false, if◌then◌else◌, inl, inr, leb, length,
  length-append, length-replicate, ltb, refl, replicate, suc, take, true, zero, ℕ, ◌%◌, ◌++◌, ◌+◌,
  ◌-◌, ◌<◌, ◌==◌, ◌^◌, ◌||◌, ◌∷◌, ◌≡◌, ◌≤◌, ◌⊎◌,
}
use iftop_dotqoo.Text.{Text}
use iftop_dotqoo.Printout.{
  Services, host_text, pad_right, place, service_text, sprint_host, write_from,
}

length-take : (n : ℕ) (s : Text) → n ≤ length s → length (take n s) ≡ n
length-take zero s h = ground arith
length-take (suc n) [] h = absurd (omega arith)
length-take (suc n) (c ∷ s) h = omega (arith, length-take n s (omega arith))

take-append : (n : ℕ) (s r : Text) → n ≤ length s → take n (s ++ r) ≡ take n s
take-append zero s r h = ground arith
take-append (suc n) [] r h = absurd (omega arith)
take-append (suc n) (c ∷ s) r h = ap (λ t. c ∷ t) (take-append n s r (omega arith))

take_all : (s : Text) → take (length s) s ≡ s
take_all [] = refl
take_all (c ∷ s) = ap (λ t. c ∷ t) (take_all s)

-- How much of the host's text is left of the service.
abbrev pub cut_of : ℕ → Text → Text → ℕ
cut_of width hostname service =
    if leb (length hostname + length service) width then length hostname else width - length service

place_cut :
    (width : ℕ) (hostname service : Text)
    → length hostname ≤ width
    → length service ≤ width
    → width < 2 ^ 64
    → place width true hostname service
      ≡ take (cut_of width hostname service) hostname
        ++ pad_right (width - cut_of width hostname service) service
unfolding place
place_cut width hostname service fits service_fits small =
    let room : (width + 2 ^ 64 - length service) % 2 ^ 64 ≡ width - length service = omega arith in
    let padded = length-append hostname (replicate (width - length hostname) b' ') in
    elim (Bool-cases (leb (length hostname + length service) width)) [
      | inl both ↦
          let uncut : ltb (width - length service) (length hostname) ≡ false = ground arith in
          let inside : leb (length hostname)
                (length (hostname ++ replicate (width - length hostname) b' '))
              ≡ true =
            ground (arith, padded) in
          let absolute : width - length hostname + (length hostname - width)
              ≡ width - length hostname =
            omega arith in
          rw (
            both,
            place,
            room,
            uncut,
            write_from,
            inside,
            absolute,
            take-append (length hostname) hostname (replicate (width - length hostname) b' ')
                (omega arith),
          )
      | inr long ↦
          let cut = width - length service in
          let shortened : ltb cut (length hostname) ≡ true = ground arith in
          let inside : leb cut (length (hostname ++ replicate (width - length hostname) b' '))
              ≡ true =
            ground (arith, padded) in
          let absolute : width - cut + (cut - width) ≡ width - cut = omega arith in
          rw (
            long,
            place,
            room,
            shortened,
            write_from,
            inside,
            absolute,
            take-append cut hostname (replicate (width - length hostname) b' ') (ground arith),
          )
    ]

length-pad_right : (n : ℕ) (s : Text) → length s ≤ n → length (pad_right n s) ≡ n
unfolding pad_right
length-pad_right n s h = omega (
  arith,
  length-append s (replicate (n - length s) b' '),
  length-replicate {A = ℕ} (n - length s) b' ',
)

-- The line of an IPv4 host, where neither text is longer than the line: it is exactly `width`
-- characters, the whole service stands in it, and in front of it as much of the host as there is
-- room for.
pub sprint_host_lem :
    (inet_ntop : ℕ → Text) (services : Services) (addr : ℕ) (behind : List ℕ)
    (port protocol width : ℕ) (star : Bool)
    → length (host_text inet_ntop addr behind star) ≤ width
    → length (service_text services port protocol) ≤ width
    → width < 2 ^ 64
    → (cut : ℕ) × (cut + length (service_text services port protocol) ≤ width)
      × (sprint_host inet_ntop services true addr behind port protocol width star
          ≡ take cut (host_text inet_ntop addr behind star)
            ++ pad_right (width - cut) (service_text services port protocol))
      × (length (sprint_host inet_ntop services true addr behind port protocol width star) ≡ width)
      × ((cut ≡ length (host_text inet_ntop addr behind star))
          ⊎ (cut + length (service_text services port protocol) ≡ width))
unfolding sprint_host
sprint_host_lem inet_ntop services addr behind port protocol width star fits service_fits small =
    let hostname = host_text inet_ntop addr behind star in
    let service = service_text services port protocol in
    let cut = cut_of width hostname service in
    let room : cut + length service ≤ width = ground arith in
    let short : cut ≤ length hostname = ground arith in
    let either : ((port == 0 || true) || ltb width 2) ≡ true = ground arith in
    let line = place_cut width hostname service fits service_fits small in
    let sized : length (take cut hostname ++ pad_right (width - cut) service) ≡ width = omega (
      arith,
      length-append (take cut hostname) (pad_right (width - cut) service),
      length-take cut hostname short,
      length-pad_right (width - cut) service (omega arith),
    ) in
    let all_of_it : (cut ≡ length hostname) ⊎ (cut + length service ≡ width) =
      elim (Bool-cases (leb (length hostname + length service) width)) [
        | inl both ↦ inl (ground arith)
        | inr long ↦ inr (ground arith)
      ] in
    (cut, room, rw either line, rw (either, line) sized, all_of_it)

-- A service text that is longer than the line is not cut, and neither is the host in front of it: the
-- test for that case compares unsigned numbers.
pub place_long :
    (width : ℕ) (hostname service : Text)
    → length hostname ≤ width
    → width < length service
    → length service < 2 ^ 63
    → place width true hostname service ≡ hostname ++ service
unfolding place pad_right
place_long width hostname service fits long small =
    let room : ltb ((width + 2 ^ 64 - length service) % 2 ^ 64) (length hostname) ≡ false =
      ground arith in
    let padded = length-append hostname (replicate (width - length hostname) b' ') in
    let inside : leb (length hostname)
          (length (hostname ++ replicate (width - length hostname) b' '))
        ≡ true =
      ground (arith, padded) in
    let full : width - length hostname + (length hostname - width) - length service ≡ 0 =
      omega arith in
    rw (
      place,
      room,
      write_from,
      inside,
      full,
      take-append (length hostname) hostname (replicate (width - length hostname) b' ')
          (omega arith),
      take_all hostname,
      append-nil,
    )
