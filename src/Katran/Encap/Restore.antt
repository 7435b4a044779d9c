-- ===== src/Katran/Encap/Restore.antt =====
-- What each encapsulation puts in front of a packet, and that decapsulation takes it off again.
use dram_pvt_mk.Base.{
  ℕ, ◌+◌, ◌≤◌, ◌≡◌, refl, arith, inl, inr, List, Bool, true, false, Option, none, some,
  Option-cases, Bool-cases, length, ltb, ltb-false→≤, if◌then◌else◌,
}
use dram_pvt_mk.Base.Adjust.{AdjustHead, ShrinkHead}
use dram_pvt_mk.Base.Table.{or_return}
use dram_pvt_mk.Base.Outer.{Outer}
use dram_pvt_mk.Base.Bytes.{Packet}
use dram_pvt_mk.Katran.{
  PacketDescription, RealDefinition, BalancerKernel, BalancerMaps, be_eth_p_ip, be_eth_p_ipv6,
}
use dram_pvt_mk.Katran.Encap.{
  Moved, new_eth, encap_v4, encap_v6, gue_encap_v4, gue_encap_v6, decap_v4, decap_v6, gue_decap_v4,
  gue_decap_v6,
}
use dram_pvt_mk.Katran.Encap.Decap.{Restored, decap-Restored}
use dram_pvt_mk.Katran.Encap.Laws.{
  new_eth-Outer, create_v4_hdr-Outer, create_v6_hdr-Outer, create_udp_hdr-Outer,
}

-- Room for the headers was made, and the packet was filled.
abbrev grown : Option Packet → Moved → ℕ → (Packet → Packet) → Moved
grown o failed least fill = or_return o failed λ q.
    if ltb (length q) least
    then record { packet = q; moved = false }
    else record { packet = fill q; moved = true }

grown-moved :
    (o : Option Packet) (failed : Moved) (least : ℕ) (fill : Packet → Packet)
    → failed.moved ≡ false
    → (grown o failed least fill).moved ≡ true
    → (q : Packet) × (o ≡ some q)
      × (least ≤ length q)
      × ((grown o failed least fill).packet ≡ fill q)
grown-moved none failed least fill f h = absurd (ground arith)
grown-moved (some q) failed least fill f h = elim (Bool-cases (ltb (length q) least)) [
  | inl short ↦ absurd (ground (arith, h, short))
  | inr long ↦ (q, refl, ltb-false→≤ (length q) least long, rw long refl)
]

module _ (k : BalancerKernel) (adjusts : AdjustHead k.grow_head) (m : BalancerMaps) (p : Packet)
    (mac : List ℕ) (mac_size : length mac ≡ 6) (is_ipv6 : Bool) (d : PacketDescription)
    (real : RealDefinition) (size : ℕ) where
  outer :
      (n proto : ℕ) (q : Packet)
      → 14 ≤ n
      → n + 14 ≤ length q
      → k.grow_head p n ≡ some q
      → Outer n p (new_eth q mac n proto) mac
  outer n proto q long h e =
      new_eth-Outer n p q mac proto long (omega (arith, adjusts.grows p q n e))
        (adjusts.grows p q n e) (λ i. adjusts.keeps p q n i e) mac_size

  pub encap_v4-Outer :
      (encap_v4 k p mac d real size).moved ≡ true
      → Outer 20 p (encap_v4 k p mac d real size).packet mac
  unfolding encap_v4
  encap_v4-Outer h =
      let (q, e, long, r) = grown-moved (k.grow_head p 20) _ 34 _ refl h in
      rw r (
        create_v4_hdr-Outer 20 p _ mac _ _ _ _ _ (omega arith)
          (outer 20 be_eth_p_ip q (omega arith) long e))

  pub encap_v6-Outer :
      (encap_v6 k p mac is_ipv6 d real size).moved ≡ true
      → Outer 40 p (encap_v6 k p mac is_ipv6 d real size).packet mac
  unfolding encap_v6
  encap_v6-Outer h =
      let (q, e, long, r) = grown-moved (k.grow_head p 40) _ 54 _ refl h in
      rw r (
        create_v6_hdr-Outer 40 p _ mac _ _ _ _ _ (omega arith)
          (outer 40 be_eth_p_ipv6 q (omega arith) long e))

  pub gue_encap_v4-Outer :
      (gue_encap_v4 k m p mac d real size).moved ≡ true
      → Outer 28 p (gue_encap_v4 k m p mac d real size).packet mac
  unfolding gue_encap_v4
  gue_encap_v4-Outer h = elim (Option-cases (m.pckt_srcs 0)) [
    | inl e ↦ absurd (ground (arith, h, e))
    | inr (src, s) ↦ rw s (
        let (q, e, long, r) = grown-moved (k.grow_head p 28) _ 42 _ refl (rw s at h) in
        rw r (
          create_v4_hdr-Outer 28 p _ mac _ _ _ _ _ (omega arith) (
            create_udp_hdr-Outer 28 p _ mac 34 _ _ _ _ (omega arith) (omega arith)
              (outer 28 be_eth_p_ip q (omega arith) long e))))
  ]

  pub gue_encap_v6-Outer :
      (gue_encap_v6 k m p mac is_ipv6 d real size).moved ≡ true
      → Outer 48 p (gue_encap_v6 k m p mac is_ipv6 d real size).packet mac
  unfolding gue_encap_v6
  gue_encap_v6-Outer h = elim (Option-cases (m.pckt_srcs 1)) [
    | inl e ↦ absurd (ground (arith, h, e))
    | inr (src, s) ↦ rw s (
        let (q, e, long, r) = grown-moved (k.grow_head p 48) _ 62 _ refl (rw s at h) in
        rw r (
          create_v6_hdr-Outer 48 p _ mac _ _ _ _ _ (omega arith) (
            create_udp_hdr-Outer 48 p _ mac 54 _ _ _ _ (omega arith) (omega arith)
              (outer 48 be_eth_p_ipv6 q (omega arith) long e))))
  ]

-- The four encapsulations; the IPv6 ones carry whether the decapsulation is told of an inner IPv4
-- packet.
pub data Tunnel : Type 0 where
  ipip_v4 : Tunnel
  ipip_v6 : Bool → Tunnel
  gue_v4 : Tunnel
  gue_v6 : Bool → Tunnel

module _ (k : BalancerKernel) (m : BalancerMaps) (p : Packet) (mac : List ℕ) (is_ipv6 : Bool)
    (d : PacketDescription) (real : RealDefinition) (size : ℕ) where
  abbrev pub encap_by : Tunnel → Moved
  encap_by ipip_v4 = encap_v4 k p mac d real size
  encap_by (ipip_v6 inner_v4) = encap_v6 k p mac is_ipv6 d real size
  encap_by gue_v4 = gue_encap_v4 k m p mac d real size
  encap_by (gue_v6 inner_v4) = gue_encap_v6 k m p mac is_ipv6 d real size

abbrev pub decap_by : BalancerKernel → Tunnel → Packet → Moved
decap_by k ipip_v4 r = decap_v4 k r
decap_by k (ipip_v6 inner_v4) r = decap_v6 k r inner_v4
decap_by k gue_v4 r = gue_decap_v4 k r
decap_by k (gue_v6 inner_v4) r = gue_decap_v6 k r inner_v4

abbrev pub inner_proto : Tunnel → ℕ
inner_proto ipip_v4 = be_eth_p_ip
inner_proto (ipip_v6 inner_v4) = if inner_v4 then be_eth_p_ip else be_eth_p_ipv6
inner_proto gue_v4 = be_eth_p_ip
inner_proto (gue_v6 inner_v4) = if inner_v4 then be_eth_p_ip else be_eth_p_ipv6

module _ (k : BalancerKernel) (adjusts : AdjustHead k.grow_head)
    (shrinks : ShrinkHead k.shrink_head) (m : BalancerMaps) (p : Packet) (mac : List ℕ)
    (is_ipv6 : Bool) (d : PacketDescription) (real : RealDefinition) (size : ℕ)
    (mac_size : length mac ≡ 6) (wide : 14 ≤ length p) where
  -- Each of the four decapsulations takes off what the matching encapsulation put in front of a packet
  -- of 14 bytes or more: when both succeed, the packet has its old length and its old bytes from the
  -- IP header on, with an Ethernet header from its old destination to the router's address and with
  -- the type that the decapsulation sets.
  pub decap_by-encap_by :
      (t : Tunnel)
      → let sent = encap_by k m p mac is_ipv6 d real size t in
        sent.moved ≡ true
        → (decap_by k t sent.packet).moved ≡ true
        → Restored p (decap_by k t sent.packet).packet mac (inner_proto t)
  decap_by-encap_by ipip_v4 h g =
      decap-Restored k shrinks 20 p _ mac _ (omega arith) wide
        (encap_v4-Outer k adjusts m p mac mac_size is_ipv6 d real size h) g
  decap_by-encap_by (ipip_v6 v) h g =
      decap-Restored k shrinks 40 p _ mac _ (omega arith) wide
        (encap_v6-Outer k adjusts m p mac mac_size is_ipv6 d real size h) g
  decap_by-encap_by gue_v4 h g =
      decap-Restored k shrinks 28 p _ mac _ (omega arith) wide
        (gue_encap_v4-Outer k adjusts m p mac mac_size is_ipv6 d real size h) g
  decap_by-encap_by (gue_v6 v) h g =
      decap-Restored k shrinks 48 p _ mac _ (omega arith) wide
        (gue_encap_v6-Outer k adjusts m p mac mac_size is_ipv6 d real size h) g
