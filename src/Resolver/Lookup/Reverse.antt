-- ===== src/Resolver/Lookup/Reverse.antt =====
-- The reverse name of an IPv4 address in resolver.c.
use iftop_dotqoo.Prelude.{
  ==_iff, All, List, [], ap, arith, false, leb, length, length-append, map, refl, take, true, ℕ,
  ◌&&◌, ◌++◌, ◌+◌, ◌<◌, ◌==◌, ◌∙◌, ◌∷◌, ◌≡◌, ◌≤◌,
}
use iftop_dotqoo.Prelude.Int.{pos}
use iftop_dotqoo.Bits.{passes, passes_lem}
use iftop_dotqoo.Text.{All-map, Text, add_word, atoi, codes, cut_word, is_digit, strtok}
use iftop_dotqoo.Text.Decimal.{atoi-print_decimal, print_decimal, print_decimal-All}
use iftop_dotqoo.Resolver.{AddrStorage}
use iftop_dotqoo.Resolver.Lookup.{dotted, octet, reverse_name}

cut_word-append :
    (d : ℕ) (w s : Text) → All (λ c. (c == d) ≡ false) w → cut_word d (w ++ d ∷ s) ≡ (w, strtok d s)
unfolding cut_word strtok
cut_word-append d [] s h = rw ((==_iff d d).1 refl)
cut_word-append d (c ∷ w) s h = rw (h.0, cut_word-append d w s h.1)

byte_length :
    passes (λ n. leb 1 (length (print_decimal n)) && leb (length (print_decimal n)) 3) 256 ≡ true
unfolding passes print_decimal
byte_length = refl

byte_length_lem :
    (n : ℕ) → n < 256 → (1 ≤ length (print_decimal n)) × (length (print_decimal n) ≤ 3)
byte_length_lem n h =
    let row =
      passes_lem (λ n. leb 1 (length (print_decimal n)) && leb (length (print_decimal n)) 3) 256 n
        byte_length h in
    (ground (arith, row), ground (arith, row))

add_word_lem : (w : Text) (words : List Text) → 1 ≤ length w → add_word w words ≡ w ∷ words
add_word_lem [] words h = absurd (omega arith)
add_word_lem (c ∷ w) words h = refl

octet_small : (i : ℕ) (addr : AddrStorage) → octet i addr < 256
octet_small i addr = omega arith

-- A number in front of a dot is the first word.
strtok-print_decimal :
    (n : ℕ) (s : Text) → n < 256 → strtok b'.' (dotted n s) ≡ print_decimal n ∷ strtok b'.' s
unfolding strtok
strtok-print_decimal n s h =
    let plain =
      All-map is_digit (λ c. c == b'.') true false (print_decimal n)
        (λ c digit. ground (arith, digit)) (print_decimal-All n) in
    rw (cut_word-append b'.' (print_decimal n) s plain)
      (add_word_lem (print_decimal n) (strtok b'.' s) (byte_length_lem n h).0)

module _ (a b c d : ℕ) (ha : a < 256) (hb : b < 256) (hc : c < 256) (hd : d < 256) where
  abbrev quad : Text → Text
  quad s = dotted a (dotted b (dotted c (dotted d s)))

  strtok-quad :
      (s : Text)
      → strtok b'.' (quad s)
        ≡ print_decimal a ∷ print_decimal b ∷ print_decimal c ∷ print_decimal d ∷ strtok b'.' s
  strtok-quad s =
      strtok-print_decimal a (dotted b (dotted c (dotted d s))) ha
      ∙ ap (λ l. print_decimal a ∷ l) (strtok-print_decimal b (dotted c (dotted d s)) hb)
      ∙ ap (λ l. print_decimal a ∷ print_decimal b ∷ l) (strtok-print_decimal c (dotted d s) hc)
      ∙ ap (λ l. print_decimal a ∷ print_decimal b ∷ print_decimal c ∷ l)
          (strtok-print_decimal d s hd)

  numbers-quad :
      (s : Text) → map atoi (take 4 (strtok b'.' (quad s))) ≡ pos a ∷ pos b ∷ pos c ∷ pos d ∷ []
  numbers-quad s =
      ap (λ l. map atoi (take 4 l)) (strtok-quad s)
      ∙ rw (
        atoi-print_decimal a (omega arith),
        atoi-print_decimal b (omega arith),
        atoi-print_decimal c (omega arith),
        atoi-print_decimal d (omega arith),
      )

  length-quad : (s : Text) → length (quad s) ≤ 16 + length s
  length-quad s = omega (
    arith,
    byte_length_lem a ha,
    byte_length_lem b hb,
    byte_length_lem c hc,
    byte_length_lem d hd,
    length-append (print_decimal a) (b'.' ∷ dotted b (dotted c (dotted d s))),
    length-append (print_decimal b) (b'.' ∷ dotted c (dotted d s)),
    length-append (print_decimal c) (b'.' ∷ dotted d s),
    length-append (print_decimal d) (b'.' ∷ s),
  )

-- The reverse name, taken apart at its dots, has the octets of the address, the last one first; and it
-- fits the 35 bytes that it is printed to, with its zero.
pub strtok-reverse_name :
    (addr : AddrStorage)
    → (map atoi (take 4 (strtok b'.' (reverse_name addr)))
        ≡ pos (octet 3 addr) ∷ pos (octet 2 addr) ∷ pos (octet 1 addr) ∷ pos (octet 0 addr) ∷ [])
      × (length (reverse_name addr) < 35)
unfolding reverse_name
strtok-reverse_name addr = (
  numbers-quad (octet 3 addr) (octet 2 addr) (octet 1 addr) (octet 0 addr) (octet_small 3 addr)
      (octet_small 2 addr) (octet_small 1 addr) (octet_small 0 addr) (codes "in-addr.arpa."),
  omega (
    arith,
    length-quad (octet 3 addr) (octet 2 addr) (octet 1 addr) (octet 0 addr) (octet_small 3 addr)
        (octet_small 2 addr) (octet_small 1 addr) (octet_small 0 addr) (codes "in-addr.arpa."),
  ),
)
