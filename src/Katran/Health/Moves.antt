-- ===== src/Katran/Health/Moves.antt =====
-- What the encapsulations of the health checker put in front of a packet.
use dram_pvt_mk.Base.{
  ℕ, ◌+◌, ◌≤◌, ◌==◌, ◌≡◌, ◌⊎◌, ◌∙◌, refl, inl, inr, arith, List, Bool, true, false, some, length,
  bit_or, u16, ltb, ltb-false→≤, Bool-cases, Option-cases, if◌then◌else◌,
}
use dram_pvt_mk.Base.Table.{Table}
use dram_pvt_mk.Base.Bytes.{Packet, byte_at, write, length-write, byte_at-write_above, le_bytes}
use dram_pvt_mk.Checksum.Header.{write_header}
use dram_pvt_mk.Katran.{RealDefinition, be_eth_p_ipv6}
use dram_pvt_mk.Katran.Encap.{
  Moved, create_v4_hdr, create_v6_hdr, create_udp_hdr, gue_dport, ipproto_ipip, ipproto_ipv6,
}
use dram_pvt_mk.Katran.Health.Fields.{create_v4_hdr-Header4}
use dram_pvt_mk.Katran.Health.Headers.{Headers, v6_packet-Header6, v6_gue-Header6, v4_gue-Header4}
use dram_pvt_mk.Katran.Health.{
  SkBuff, AdjustRoom, v6_daddr, in_room, payload_len, gue_sport, hc_encap_ipip, hc_encap_gue,
  hc_encap,
}

-- `n` bytes stand behind the Ethernet header, in front of what was there.
pub record Inserted (n : ℕ) (p r : Packet) : Type 0 where
  pub size : length r ≡ n + length p
  pub inner : (i : ℕ) → 14 ≤ i → byte_at r (n + i) ≡ byte_at p i

-- `bpf_skb_adjust_room` with BPF_ADJ_ROOM_MAC, where it succeeds.
pub record MakesRoom (adjust_room : AdjustRoom) : Type 0 where
  pub inserts : (p q : Packet) (n : ℕ) → adjust_room p n ≡ some q → Inserted n p q

pub Inserted-write :
    (n : ℕ) (p r : Packet) (off : ℕ) (bs : List ℕ)
    → off + length bs ≤ n + 14
    → Inserted n p r
    → Inserted n p (write r off bs)
Inserted-write n p r off bs high o = record {
  size = length-write r off bs ∙ o.size;
  inner = λ i h. byte_at-write_above r off bs (n + i) (omega arith) ∙ o.inner i h;
}

create_v4_hdr-Inserted :
    (n : ℕ) (p r : Packet) (tos saddr daddr pkt_bytes proto : ℕ)
    → 20 ≤ n
    → Inserted n p r
    → Inserted n p (create_v4_hdr r 14 tos saddr daddr pkt_bytes proto)
unfolding create_v4_hdr write_header
create_v4_hdr-Inserted n p r tos saddr daddr pkt_bytes proto h o =
    Inserted-write n p _ 24 _ (omega arith)
      (Inserted-write n p _ 20 _ (omega arith) (Inserted-write n p r 14 _ (omega arith) o))

-- How many bytes of headers go in front.
abbrev pub room_of : Bool → RealDefinition → ℕ
room_of gue real =
    if real.flags == v6_daddr then (if gue then 48 else 40) else (if gue then 28 else 20)

-- Nothing is sent, or the packet behind `n` bytes more, which are as `H` says.
abbrev pub Moves : ℕ → Packet → (Packet → Type 0) → Moved → Type 0
Moves n p H r = (r.moved ≡ false) ⊎ ((r.moved ≡ true) × Inserted n p r.packet × H r.packet)

module _ (adjust_room : AdjustRoom) (room : MakesRoom adjust_room) where
  in_room-Moves :
      (p : Packet) (n : ℕ) (fill : Packet → Packet) (H : Packet → Type 0)
      → ((q : Packet) → 14 + n ≤ length q → Inserted n p q → Inserted n p (fill q) × H (fill q))
      → Moves n p H (in_room adjust_room p n fill)
  unfolding in_room
  in_room-Moves p n fill H filled = elim (Option-cases (adjust_room p n)) [
    | inl failed ↦ rw failed (inl refl)
    | inr (q, e) ↦ rw e (elim (Bool-cases (ltb (length q) (14 + n))) [
      | inl short ↦ rw short (inl refl)
      | inr long ↦
          let f = filled q (ltb-false→≤ (length q) (14 + n) long) (room.inserts p q n e) in
          rw long (inr (refl, f.0, f.1))
    ])
  ]

  module _ (srcs : Table RealDefinition) (skb : SkBuff) (real : RealDefinition)
      (is_ipv6 : Bool) where
    -- The room and the run in a case of the flags.
    settle :
        (gue : Bool) (n : ℕ) (o : Moved)
        → room_of gue real ≡ n
        → hc_encap gue adjust_room srcs skb real is_ipv6 ≡ o
        → Moves n skb.packet (Headers gue srcs skb real is_ipv6) o
        → Moves
            (room_of gue real)
            skb.packet
            (Headers gue srcs skb real is_ipv6)
            (hc_encap gue adjust_room srcs skb real is_ipv6)
    settle gue n o a b h = rw (a, b) h

    pub hc_encap-Moves :
        (gue : Bool)
        → Moves
            (room_of gue real)
            skb.packet
            (Headers gue srcs skb real is_ipv6)
            (hc_encap gue adjust_room srcs skb real is_ipv6)
    hc_encap-Moves true = elim (Bool-cases (real.flags == v6_daddr)) [
      | inl v6 ↦ elim (Option-cases (srcs 1)) [
        | inl e ↦
            settle true 48 (record { packet = skb.packet; moved = false }) (rw v6 refl)
              (unfold hc_encap hc_encap_gue in rw (v6, e) refl) (inl refl)
        | inr (src, e) ↦
            settle true 48
              (in_room adjust_room skb.packet 48 λ q.
                create_v6_hdr
                  (create_udp_hdr (write q 12 (le_bytes 2 be_eth_p_ipv6)) 54
                    (gue_sport (bit_or real.dst.w0 real.dst.w3)) gue_dport
                    (u16 (payload_len skb + 8)) 0)
                  14 0 src.dst real.dst (u16 (payload_len skb + 8)) 17)
              (rw v6 refl) (unfold hc_encap hc_encap_gue in rw (v6, e) refl)
              (in_room-Moves skb.packet 48 _ (Headers true srcs skb real is_ipv6) λ q long o. (
                unfold create_v6_hdr create_udp_hdr in
                    Inserted-write 48 _ _ 14 _ (omega arith) (
                      Inserted-write 48 _ _ 54 _ (omega arith)
                        (Inserted-write 48 _ q 12 _ (omega arith) o)),
                rw v6 (src, (e, v6_gue-Header6 q src.dst real.dst _ _ long)),
              ))
      ]
      | inr v4 ↦ elim (Option-cases (srcs 0)) [
        | inl e ↦
            settle true 28 (record { packet = skb.packet; moved = false }) (rw v4 refl)
              (unfold hc_encap hc_encap_gue in rw (v4, e) refl) (inl refl)
        | inr (src, e) ↦
            settle true 28
              (in_room adjust_room skb.packet 28 λ q.
                create_v4_hdr
                  (create_udp_hdr q 34 (gue_sport real.dst.w0) gue_dport (u16 (payload_len skb + 8))
                    0)
                  14 0 src.dst.w0 real.dst.w0 (u16 (payload_len skb + 8)) 17)
              (rw v4 refl) (unfold hc_encap hc_encap_gue in rw (v4, e) refl)
              (in_room-Moves skb.packet 28 _ (Headers true srcs skb real is_ipv6) λ q long o. (
                unfold create_udp_hdr in
                    create_v4_hdr-Inserted 28 _ _ _ _ _ _ _ (omega arith)
                      (Inserted-write 28 _ q 34 _ (omega arith) o),
                rw v4 (src, (e, v4_gue-Header4 q src.dst real.dst _ _ long)),
              ))
      ]
    ]
    hc_encap-Moves false = elim (Bool-cases (real.flags == v6_daddr)) [
      | inl v6 ↦ elim (Option-cases (srcs 1)) [
        | inl e ↦
            settle false 40 (record { packet = skb.packet; moved = false }) (rw v6 refl)
              (unfold hc_encap hc_encap_ipip in rw (v6, e) refl) (inl refl)
        | inr (src, e) ↦
            settle false 40
              (in_room adjust_room skb.packet 40 λ q.
                create_v6_hdr (write q 12 (le_bytes 2 be_eth_p_ipv6)) 14 0 src.dst real.dst
                  (payload_len skb) (if is_ipv6 then ipproto_ipv6 else ipproto_ipip))
              (rw v6 refl) (unfold hc_encap hc_encap_ipip in rw (v6, e) refl)
              (in_room-Moves skb.packet 40 _ (Headers false srcs skb real is_ipv6) λ q long o. (
                unfold create_v6_hdr in
                    Inserted-write 40 _ _ 14 _ (omega arith)
                      (Inserted-write 40 _ q 12 _ (omega arith) o),
                rw v6 (src, (e, v6_packet-Header6 q src.dst real.dst _ 0 _ long)),
              ))
      ]
      | inr v4 ↦ elim (Option-cases (srcs 0)) [
        | inl e ↦
            settle false 20 (record { packet = skb.packet; moved = false }) (rw v4 refl)
              (unfold hc_encap hc_encap_ipip in rw (v4, e) refl) (inl refl)
        | inr (src, e) ↦
            settle false 20
              (in_room adjust_room skb.packet 20
                λ q. create_v4_hdr q 14 0 src.dst.w0 real.dst.w0 (payload_len skb) ipproto_ipip)
              (rw v4 refl) (unfold hc_encap hc_encap_ipip in rw (v4, e) refl)
              (in_room-Moves skb.packet 20 _ (Headers false srcs skb real is_ipv6) λ q long o. (
                create_v4_hdr-Inserted 20 _ q _ _ _ _ _ (omega arith) o,
                rw v4 (src, (e, create_v4_hdr-Header4 q _ _ _ _ long)),
              ))
      ]
    ]
