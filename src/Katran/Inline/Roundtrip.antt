-- ===== src/Katran/Inline/Roundtrip.antt =====
-- The four encapsulations, and inline decapsulation behind them.
use dram_pvt_mk.Base.{
  ℕ, ◌+◌, ◌≤◌, ◌==◌, ◌≡◌, arith, List, Bool, true, false, not, if◌then◌else◌, Option, some, length,
  bit_and, ltb, ltb-eq-false,
}
use dram_pvt_mk.Base.Adjust.{AdjustHead, ShrinkHead}
use dram_pvt_mk.Base.Outer.{Outer}
use dram_pvt_mk.Base.Bytes.{Packet, byte_at, Returns}
use dram_pvt_mk.Katran.{PacketDescription, RealDefinition, BalancerKernel, BalancerMaps}
use dram_pvt_mk.Katran.Encap.{ipproto_ipip, ipproto_ipv6}
use dram_pvt_mk.Katran.Encap.Restore.{
  Tunnel, ipip_v4, ipip_v6, gue_v4, gue_v6, encap_by, inner_proto, encap_v4-Outer, encap_v6-Outer,
  gue_encap_v4-Outer, gue_encap_v6-Outer,
}
use dram_pvt_mk.Katran.Inline.{
  Inlined, process_encaped_ipip_pckt, process_encaped_gue_pckt, guev1_ipv6_mask,
}
use dram_pvt_mk.Katran.Inline.Laws.{Succeeds, Hopped, inline_decap-Hopped}

-- Whether the inner packet is IPv6.
abbrev pub inner_v6 : Tunnel → Bool
inner_v6 ipip_v4 = false
inner_v6 (ipip_v6 inner_v4) = not inner_v4
inner_v6 gue_v4 = false
inner_v6 (gue_v6 inner_v4) = not inner_v4

-- What process_packet calls for a packet of this form.
abbrev pub process_by : BalancerKernel → Tunnel → Packet → Bool → Option Inlined
process_by k ipip_v4 r passes = process_encaped_ipip_pckt k r false ipproto_ipip passes
process_by k (ipip_v6 inner_v4) r passes =
    process_encaped_ipip_pckt k r true (if inner_v4 then ipproto_ipip else ipproto_ipv6) passes
process_by k gue_v4 r passes = some (process_encaped_gue_pckt k r false passes)
process_by k (gue_v6 inner_v4) r passes = some (process_encaped_gue_pckt k r true passes)

-- The first byte of the packet, behind its Ethernet header, tells the version as UDP needs it.
abbrev pub TellsVersion : Tunnel → Packet → Type 0
TellsVersion ipip_v4 p = Unit {0}
TellsVersion (ipip_v6 inner_v4) p = Unit {0}
TellsVersion gue_v4 p = Unit {0}
TellsVersion (gue_v6 inner_v4) p = (bit_and (byte_at p 14) guev1_ipv6_mask == 0) ≡ inner_v4

module _ (k : BalancerKernel) (adjusts : AdjustHead k.grow_head)
    (shrinks : ShrinkHead k.shrink_head) (succeeds : Succeeds k.shrink_head) (m : BalancerMaps)
    (p : Packet) (mac : List ℕ) (is_ipv6 : Bool) (d : PacketDescription) (real : RealDefinition)
    (size : ℕ) (mac_size : length mac ≡ 6) (wide : 15 ≤ length p) (passes : Bool) where
  bound-false : (n c : ℕ) (r : Packet) → c ≤ 15 → Outer n p r mac → ltb (length r) (n + c) ≡ false
  bound-false n c r h o = ltb-eq-false (length r) (n + c) (omega (arith, o.size))

  -- A packet of 15 bytes or more that one of the four encapsulations put behind outer headers comes
  -- out of the matching inline decapsulation with its old length and its old bytes from the IP header
  -- on, but for what one hop changes: the time to live and, for IPv4, the checksum are those that
  -- decrement_ttl gives the packet itself, and the verdict is its own where it has one, else the packet
  -- is passed to the kernel or goes to the load balancer again. For GUE over IPv6 the inner packet's
  -- first byte has to tell its version. This needs that `bpf_xdp_adjust_head` takes off a head that
  -- leaves room for an Ethernet header.
  pub process_by-encap_by :
      (t : Tunnel)
      → let sent = encap_by k m p mac is_ipv6 d real size t in
        sent.moved ≡ true
        → TellsVersion t p
        → Returns
            (Hopped p mac (inner_proto t) (inner_v6 t) passes)
            (process_by k t sent.packet passes)
  unfolding process_encaped_ipip_pckt
  process_by-encap_by ipip_v4 h v =
      let o = encap_v4-Outer k adjusts m p mac mac_size is_ipv6 d real size h in
      rw (bound-false 20 14 _ (omega arith) o) (
        inline_decap-Hopped k 20 p _ mac _ false passes shrinks succeeds (omega arith) (omega arith)
          o)
  process_by-encap_by (ipip_v6 true) h v =
      let o = encap_v6-Outer k adjusts m p mac mac_size is_ipv6 d real size h in
      rw (bound-false 40 14 _ (omega arith) o) (
        inline_decap-Hopped k 40 p _ mac _ false passes shrinks succeeds (omega arith) (omega arith)
          o)
  process_by-encap_by (ipip_v6 false) h v =
      let o = encap_v6-Outer k adjusts m p mac mac_size is_ipv6 d real size h in
      rw (bound-false 40 14 _ (omega arith) o) (
        inline_decap-Hopped k 40 p _ mac _ true passes shrinks succeeds (omega arith) (omega arith)
          o)
  process_by-encap_by gue_v4 h v =
      let o = gue_encap_v4-Outer k adjusts m p mac mac_size is_ipv6 d real size h in
      unfold process_encaped_gue_pckt in
      rw (bound-false 28 14 _ (omega arith) o) (
        inline_decap-Hopped k 28 p _ mac _ false passes shrinks succeeds (omega arith) (omega arith)
          o)
  process_by-encap_by (gue_v6 true) h v =
      let o = gue_encap_v6-Outer k adjusts m p mac mac_size is_ipv6 d real size h in
      unfold process_encaped_gue_pckt in
      rw (bound-false 48 15 _ (omega arith) o, o.inner 14 (omega arith), v)
        (inline_decap-Hopped k 48 p _ mac _ false passes shrinks succeeds (omega arith)
          (omega arith) o)
  process_by-encap_by (gue_v6 false) h v =
      let o = gue_encap_v6-Outer k adjusts m p mac mac_size is_ipv6 d real size h in
      unfold process_encaped_gue_pckt in
      rw (bound-false 48 15 _ (omega arith) o, o.inner 14 (omega arith), v)
        (inline_decap-Hopped k 48 p _ mac _ true passes shrinks succeeds (omega arith) (omega arith)
          o)
