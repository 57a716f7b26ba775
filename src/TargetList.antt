-- ===== src/TargetList.antt =====
-- read_target_ip.c: the list of addresses that a file names. A pointer to a node is the chain from
-- that node on; a node that has been freed is `none`. `inet_aton` is the library's, and `junk` what
-- `malloc` leaves in a node where it fails. What `fgets` returns, up to 31 characters at a time, is
-- a list.
use iftop_dotqoo.Prelude.{
  List, Option, [], arith, if◌then◌else◌, length, length-map, map, none, refl, replicate, some, suc,
  zero, ℕ, ◌+◌, ◌==◌, ◌∷◌, ◌≡◌,
}
use iftop_dotqoo.Run.{Run, fault, ok, ◌>>=◌, use_after_free}
use iftop_dotqoo.Text.{Text}
use mathlib.Core.List.{reverse, reverse_aux}

-- The variable `head`.
abbrev pub AddrList : Type 0
AddrList = List (Option ℕ)

module _ (inet_aton : Text → Option ℕ) (junk : ℕ) where
  abbrev pub address_of : Text → ℕ
  address_of addr = elim (inet_aton addr) [ none ↦ junk | some a ↦ a ]

  unfoldable pub insert : Text → AddrList → AddrList
  insert addr head = some (address_of addr) ∷ head

  unfoldable pub fgets_loop : List Text → AddrList → AddrList
  unfolding insert
  fgets_loop [] head = head
  fgets_loop (buff ∷ reads) head = fgets_loop reads (insert buff head)

  -- `none` is a file that cannot be opened; the result is the C function's.
  unfoldable pub read_ip_from_file : Option (List Text) → AddrList → AddrList × ℕ
  unfolding fgets_loop
  read_ip_from_file none head = (head, 1)
  read_ip_from_file (some reads) head = (fgets_loop reads head, 0)

-- The numbers that are printed.
unfoldable pub print_list : AddrList → Run (List ℕ)
print_list [] = ok []
print_list (none ∷ next) = fault use_after_free
print_list (some a ∷ next) = print_list next >>= λ printed. ok (a ∷ printed)

-- The pointer to the next node is read before the node is freed. `head` keeps its value.
unfoldable pub free_addr_list : AddrList → Run AddrList
free_addr_list [] = ok []
free_addr_list (none ∷ next) = fault use_after_free
free_addr_list (some a ∷ next) = free_addr_list next >>= λ freed. ok (none ∷ freed)

print_list-live : (l : List ℕ) → print_list (map (λ a. some a) l) ≡ ok l
unfolding print_list
print_list-live [] = refl
print_list-live (a ∷ l) = rw (print_list-live l)

free_addr_list-live :
    (l : List ℕ) → free_addr_list (map (λ a. some a) l) ≡ ok (replicate (length l) none)
unfolding free_addr_list
free_addr_list-live [] = refl
free_addr_list-live (a ∷ l) = rw (free_addr_list-live l)

-- What is left of a freed list is freed memory.
freed_list :
    (n : ℕ)
    → (print_list (replicate n none) ≡ (if n == 0 then ok [] else fault use_after_free))
      × (free_addr_list (replicate n none) ≡ (if n == 0 then ok [] else fault use_after_free))
unfolding print_list free_addr_list
freed_list zero = (refl, refl)
freed_list (suc n) = (ground arith, ground arith)

length-reverse_aux : (xs ys : List ℕ) → length (reverse_aux xs ys) ≡ length xs + length ys
length-reverse_aux [] ys = omega arith
length-reverse_aux (x ∷ xs) ys = omega (arith, length-reverse_aux xs (x ∷ ys))

module _ (inet_aton : Text → Option ℕ) (junk : ℕ) where
  fgets_loop_lem :
      (reads : List Text) (l : List ℕ)
      → fgets_loop inet_aton junk reads (map (λ a. some a) l)
        ≡ map (λ a. some a) (reverse_aux (map (address_of inet_aton junk) reads) l)
  unfolding fgets_loop insert
  fgets_loop_lem [] l = refl
  fgets_loop_lem (buff ∷ reads) l = fgets_loop_lem reads (address_of inet_aton junk buff ∷ l)

  -- A file of addresses, read from the start of the program: the list is printed in the reverse of
  -- the order in which they were read. It is freed without a fault, but `head` goes on pointing to
  -- it: unless the file was empty, a print or another free after that reads freed memory.
  pub read_ip_from_file-free_addr_list :
      (reads : List Text)
      → (print_list (read_ip_from_file inet_aton junk (some reads) []).0
          ≡ ok (reverse (map (address_of inet_aton junk) reads)))
        × (head : AddrList) × (free_addr_list (read_ip_from_file inet_aton junk (some reads) []).0
            ≡ ok head)
        × (print_list head ≡ (if length reads == 0 then ok [] else fault use_after_free))
        × (free_addr_list head ≡ (if length reads == 0 then ok [] else fault use_after_free))
  unfolding read_ip_from_file
  read_ip_from_file-free_addr_list reads =
      let l = reverse (map (address_of inet_aton junk) reads) in
      let read : fgets_loop inet_aton junk reads [] ≡ map (λ a. some a) l =
        fgets_loop_lem reads [] in
      let size : length l ≡ length reads = omega (
        arith,
        length-reverse_aux (map (address_of inet_aton junk) reads) [],
        length-map reads (address_of inet_aton junk),
      ) in
      let (prints, frees) = freed_list (length l) in
      (
        rw read (print_list-live l),
        replicate (length l) none,
        rw read (free_addr_list-live l),
        rw (← size) prints,
        rw (← size) frees,
      )
