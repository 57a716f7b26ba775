-- ===== src/PortList.antt =====
-- The lists of ports and protocols that a packet is dropped for: `in_port_list` of iftop_api.c and
-- the loop over `options.block_protocols` in `handle_ip_packet` of iftop.c. Both end at -1.
use iftop_dotqoo.Prelude.{
  Bool, Bool-cases, List, [], arith, drop, false, if◌then◌else◌, inl, inr, refl, sym, true, ℕ, ◌==◌,
  ◌↔◌, ◌∷◌, ◌≡◌, ◌≢◌, ◌⊎◌,
}
use iftop_dotqoo.Prelude.Int.{eq_ℤ, negsuc, pos, ℤ}

abbrev pub end_mark : ℤ
end_mark = negsuc 0

port_loop : List ℤ → ℕ → Bool
port_loop [] port = false
port_loop (x ∷ list) port =
    if eq_ℤ x (pos port) then true else if eq_ℤ x end_mark then false else port_loop list port

-- `list` holds the `list_len` entries of the array.
unfoldable pub in_port_list : List ℤ → ℕ → Bool
unfolding port_loop
in_port_list list port = if port == 0 then false else port_loop list port

block_loop : List ℤ → ℕ → Bool
block_loop [] ip_p = false
block_loop (x ∷ list) ip_p =
    if eq_ℤ x end_mark then false else if eq_ℤ (pos ip_p) x then true else block_loop list ip_p

-- Whether the loop comes to an end mark or to the protocol before it leaves the array.
ends_inside : List ℤ → ℕ → Bool
ends_inside [] ip_p = false
ends_inside (x ∷ list) ip_p =
    if eq_ℤ x end_mark then true else if eq_ℤ (pos ip_p) x then true else ends_inside list ip_p

-- The loop reads only entries of the array, where it starts at `i`.
unfoldable pub stays_inside : ℕ → List ℤ → ℕ → Bool
unfolding ends_inside
stays_inside i block_protocols ip_p = ends_inside (drop i block_protocols) ip_p

-- The result of the loop where it stays inside the array. It starts at `i`, which the C function
-- never sets.
unfoldable pub is_blocked : ℕ → List ℤ → ℕ → Bool
unfolding block_loop
is_blocked i block_protocols ip_p = block_loop (drop i block_protocols) ip_p

-- The entries in front of the end mark.
unfoldable pub before_end : List ℤ → List ℤ
before_end [] = []
before_end (x ∷ list) = if eq_ℤ x end_mark then [] else x ∷ before_end list

eq_ℤ_iff : (a b : ℤ) → (eq_ℤ a b ≡ true) ↔ (a ≡ b)
eq_ℤ_iff (pos a) (pos b) = ground arith
eq_ℤ_iff (pos a) (negsuc b) = ground arith
eq_ℤ_iff (negsuc a) (pos b) = ground arith
eq_ℤ_iff (negsuc a) (negsuc b) = ground arith

-- Membership as a choice of a place.
abbrev pub OneOf : ℤ → List ℤ → Type 0
OneOf x [] = ⊥
OneOf x (y ∷ ys) = (x ≡ y) ⊎ OneOf x ys

ends_inside_marked : (list : List ℤ) (ip_p : ℕ) → OneOf end_mark list → ends_inside list ip_p ≡ true
unfolding ends_inside
ends_inside_marked [] ip_p missing = elim missing [ ]
ends_inside_marked (x ∷ list) ip_p (inl here) = ground (arith, eq_ℤ_iff x end_mark)
ends_inside_marked (x ∷ list) ip_p (inr there) = ground (arith, ends_inside_marked list ip_p there)

ends_inside_unmarked :
    (list : List ℤ) (ip_p : ℕ)
    → ¬ OneOf end_mark list
    → ¬ OneOf (pos ip_p) list
    → ends_inside list ip_p ≡ false
unfolding ends_inside
ends_inside_unmarked [] ip_p no_end no_match = refl
ends_inside_unmarked (x ∷ list) ip_p no_end no_match =
    let rest = ends_inside_unmarked list ip_p (λ h. no_end (inr h)) (λ h. no_match (inr h)) in
    elim (Bool-cases (eq_ℤ x end_mark)) [
      | inl marked ↦ absurd (no_end (inl (sym ((eq_ℤ_iff x end_mark).0 marked))))
      | inr other ↦ elim (Bool-cases (eq_ℤ (pos ip_p) x)) [
        | inl found ↦ absurd (no_match (inl ((eq_ℤ_iff (pos ip_p) x).0 found)))
        | inr apart ↦ rw (other, apart) rest
      ]
    ]

-- With neither an end mark nor the protocol there, it leaves the array.
pub stays_inside_unmarked :
    (i : ℕ) (list : List ℤ) (ip_p : ℕ)
    → ¬ OneOf end_mark (drop i list)
    → ¬ OneOf (pos ip_p) (drop i list)
    → stays_inside i list ip_p ≡ false
unfolding stays_inside
stays_inside_unmarked i list ip_p no_end no_match =
    ends_inside_unmarked (drop i list) ip_p no_end no_match

-- With an end mark at the place where it starts, or behind it, the loop stays inside the array.
pub stays_inside_marked :
    (i : ℕ) (list : List ℤ) (ip_p : ℕ)
    → OneOf end_mark (drop i list)
    → stays_inside i list ip_p ≡ true
unfolding stays_inside
stays_inside_marked i list ip_p marked = ends_inside_marked (drop i list) ip_p marked

port_loop_iff :
    (list : List ℤ) (port : ℕ) → (port_loop list port ≡ true) ↔ OneOf (pos port) (before_end list)
unfolding port_loop before_end
port_loop_iff [] port = ground arith
port_loop_iff (x ∷ list) port =
    ground (arith, eq_ℤ_iff x (pos port), eq_ℤ_iff x end_mark, port_loop_iff list port)

block_loop_iff :
    (list : List ℤ) (ip_p : ℕ) → (block_loop list ip_p ≡ true) ↔ OneOf (pos ip_p) (before_end list)
unfolding block_loop before_end
block_loop_iff [] ip_p = ground arith
block_loop_iff (x ∷ list) ip_p =
    ground (arith, eq_ℤ_iff x end_mark, eq_ℤ_iff (pos ip_p) x, block_loop_iff list ip_p)

-- A port is in the list exactly when it is not 0 and stands in front of the end mark.
pub in_port_list_iff :
    (list : List ℤ) (port : ℕ)
    → (in_port_list list port ≡ true) ↔ ((port ≢ 0) × OneOf (pos port) (before_end list))
unfolding in_port_list
in_port_list_iff list port = ground (arith, port_loop_iff list port)

-- A protocol is blocked exactly when it stands in front of the end mark, at the place where the
-- loop starts or behind it.
pub is_blocked_iff :
    (i : ℕ) (list : List ℤ) (ip_p : ℕ)
    → (is_blocked i list ip_p ≡ true) ↔ OneOf (pos ip_p) (before_end (drop i list))
unfolding is_blocked
is_blocked_iff i list ip_p = block_loop_iff (drop i list) ip_p
