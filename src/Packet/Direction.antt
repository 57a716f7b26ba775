-- ===== src/Packet/Direction.antt =====
-- The two directions of a conversation meet in one record of the history.
use iftop_dotqoo.Prelude.{
  Bool, List, Option-cases, arith, false, inl, inr, none, not, some, true, ℕ, ◌≡◌,
}
use iftop_dotqoo.AddrHash.{AddrPair}
use iftop_dotqoo.Options.{Options}
use iftop_dotqoo.Packet.{
  HwDir, Interface, assign_addr_pair, classify, classify_by_net, in_filter_net, ip_dst, ip_p,
  ip_src, key_of, settle, th_dport, th_sport,
}

-- `q` goes the other way: the addresses and the ports of `p` are exchanged.
pub record IsReply (p q : List ℕ) : Type 0 where
  pub src : ip_src q ≡ ip_dst p
  pub dst : ip_dst q ≡ ip_src p
  pub sport : th_sport q ≡ th_dport p
  pub dport : th_dport q ≡ th_sport p
  pub protocol : ip_p q ≡ ip_p p

assign_addr_pair-reply :
    (p q : List ℕ) (flip : Bool)
    → IsReply p q
    → assign_addr_pair q (not flip) ≡ assign_addr_pair p flip
unfolding assign_addr_pair
assign_addr_pair-reply p q true r = ground arith
assign_addr_pair-reply p q false r = ground arith

classify_by_net-reply :
    (options : Options) (p q : List ℕ) (flip outgoing : Bool)
    → IsReply p q
    → classify_by_net options p ≡ some (flip, outgoing)
    → classify_by_net options q ≡ some (not flip, not outgoing)
unfolding classify_by_net
classify_by_net-reply options p q flip outgoing r e = ground arith

module _ (iface : Interface) where
  settle-reply :
      (p q : List ℕ) (flip outgoing : Bool) (key : AddrPair) (o : Bool)
      → IsReply p q
      → settle iface p (flip, outgoing) ≡ some (key, o)
      → settle iface q (not flip, not outgoing) ≡ some (key, not o)
  unfolding settle
  settle-reply p q flip outgoing key o r e =
      rw (assign_addr_pair-reply p q flip r, r.protocol) (ground arith)

  key_of-net :
      (options : Options) (packet : List ℕ) (d : HwDir)
      → options.netfilter ≡ true
      → key_of options iface packet d
        ≡ elim (classify_by_net options packet) [ none ↦ none | some c ↦ settle iface packet c ]
  unfolding key_of classify
  key_of-net options packet d on = ground arith

  -- With the net filter on, a packet that is accounted and its reply, which then goes the other
  -- way, are accounted under one key, whatever the link layer says of either.
  pub key_of-reply :
      (options : Options) (p q : List ℕ) (d d' : HwDir) (key : AddrPair) (outgoing : Bool)
      → options.netfilter ≡ true
      → IsReply p q
      → key_of options iface p d ≡ some (key, outgoing)
      → key_of options iface q d' ≡ some (key, not outgoing)
  key_of-reply options p q d d' key outgoing on r e =
      let net = key_of-net options p d on in
      elim (Option-cases (classify_by_net options p)) [
        | inl dropped ↦ absurd (ground (arith, net))
        | inr ((flip, o), c) ↦
            rw (key_of-net options q d' on, classify_by_net-reply options p q flip o r c)
              (settle-reply p q flip o key outgoing r (ground (arith, net)))
      ]

-- With the net filter on, nothing within the net, and nothing outside of it, is accounted.
pub key_of-inside :
    (options : Options) (iface : Interface) (packet : List ℕ) (d : HwDir)
    → options.netfilter ≡ true
    → in_filter_net options (ip_src packet) ≡ in_filter_net options (ip_dst packet)
    → key_of options iface packet d ≡ none
unfolding key_of classify classify_by_net
key_of-inside options iface packet d on same = ground arith
