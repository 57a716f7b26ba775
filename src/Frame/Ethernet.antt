-- ===== src/Frame/Ethernet.antt =====
-- Ethernet frames of iftop.c: what a VLAN tag changes, and which datagrams a frame carries.
use iftop_dotqoo.Prelude.{
  List, [], ap, arith, drop, false, get_or, length, refl, suc, take, zero, ℕ, ◌++◌, ◌+◌, ◌==◌, ◌∷◌,
  ◌≡◌, ◌≢◌, ◌≤◌,
}
use iftop_dotqoo.Packet.{Interface, net16}
use iftop_dotqoo.Frame.{eth_dir, eth_payload, ethertype_8021q, handle_eth_packet, hw_addr_at}

-- Reads of a list that is put together, behind its first part and inside it.
get_or-behind :
    (xs ys : List ℕ) (j k : ℕ) → j ≡ length xs + k → get_or (xs ++ ys) j 0 ≡ get_or ys k 0
get_or-behind [] ys j k e = let same : j ≡ k = omega arith in ap (λ n. get_or ys n 0) same
get_or-behind (x ∷ xs) ys zero k e = absurd (omega arith)
get_or-behind (x ∷ xs) ys (suc j) k e = get_or-behind xs ys j k (omega arith)

drop-behind : (xs ys : List ℕ) (j k : ℕ) → j ≡ length xs + k → drop j (xs ++ ys) ≡ drop k ys
drop-behind [] ys j k e = let same : j ≡ k = omega arith in ap (λ n. drop n ys) same
drop-behind (x ∷ xs) ys zero k e = absurd (omega arith)
drop-behind (x ∷ xs) ys (suc j) k e = drop-behind xs ys j k (omega arith)

take-inside : (xs ys : List ℕ) (n : ℕ) → n ≤ length xs → take n (xs ++ ys) ≡ take n xs
take-inside xs ys zero h = refl
take-inside [] ys (suc n) h = absurd (omega arith)
take-inside (x ∷ xs) ys (suc n) h = ap (λ zs. x ∷ zs) (take-inside xs ys n (omega arith))

hw_addr_at-inside :
    (xs ys : List ℕ) (i : ℕ) → i + 6 ≤ length xs → hw_addr_at (xs ++ ys) i ≡ hw_addr_at xs i
unfolding hw_addr_at
hw_addr_at-inside xs ys zero h = take-inside xs ys 6 h
hw_addr_at-inside [] ys (suc i) h = absurd (omega arith)
hw_addr_at-inside (x ∷ xs) ys (suc i) h =
    unfold hw_addr_at in hw_addr_at-inside xs ys i (omega arith)

net16-behind : (xs ys : List ℕ) (j k : ℕ) → j ≡ length xs + k → net16 (xs ++ ys) j ≡ net16 ys k
unfolding net16
net16-behind xs ys j k e =
    rw (get_or-behind xs ys j k e, get_or-behind xs ys (j + 1) (k + 1) (omega arith))

module _ (iface : Interface) (macs : List ℕ) (both : length macs ≡ 12) where
  -- The direction is that of the two addresses.
  eth_dir-macs : (rest : List ℕ) → eth_dir iface (macs ++ rest) ≡ eth_dir iface macs
  unfolding eth_dir
  eth_dir-macs rest =
      rw (hw_addr_at-inside macs rest 6 (omega arith), hw_addr_at-inside macs rest 0 (omega arith))

  eth_payload-plain :
      (rest : List ℕ)
      → net16 rest 0 ≢ ethertype_8021q
      → eth_payload (macs ++ rest) ≡ (net16 rest 0, drop 2 rest)
  unfolding eth_payload
  eth_payload-plain rest plain =
      let other : (net16 rest 0 == ethertype_8021q) ≡ false = ground arith in
      rw
        (net16-behind macs rest 12 0 (omega arith), drop-behind macs rest 14 2 (omega arith), other)

  eth_payload-tagged :
      (t₁ t₂ : ℕ) (rest : List ℕ)
      → eth_payload (macs ++ 0x81 ∷ 0x00 ∷ t₁ ∷ t₂ ∷ rest) ≡ (net16 rest 0, drop 2 rest)
  unfolding eth_payload
  eth_payload-tagged t₁ t₂ rest =
      let tagged = 0x81 ∷ 0x00 ∷ t₁ ∷ t₂ ∷ rest in
      rw (net16-behind macs tagged 12 0 (omega arith), drop-behind macs tagged 14 2 (omega arith))
        (unfold net16 in refl)

  -- A frame is its two addresses, 12 bytes, and what follows them. A VLAN tag behind the addresses
  -- does not change what the handler of Ethernet frames makes of a frame that has no tag itself:
  -- the same datagram, with the same direction, or no datagram in both cases.
  pub handle_eth_packet-vlan :
      (t₁ t₂ : ℕ) (rest : List ℕ)
      → net16 rest 0 ≢ ethertype_8021q
      → handle_eth_packet iface (macs ++ 0x81 ∷ 0x00 ∷ t₁ ∷ t₂ ∷ rest)
        ≡ handle_eth_packet iface (macs ++ rest)
  unfolding handle_eth_packet
  handle_eth_packet-vlan t₁ t₂ rest plain = rw (
    eth_payload-tagged t₁ t₂ rest,
    eth_payload-plain rest plain,
    eth_dir-macs (0x81 ∷ 0x00 ∷ t₁ ∷ t₂ ∷ rest),
    eth_dir-macs rest,
  )
