-- ===== src/Katran/Health/Laws.antt =====
-- What the health checker sends, and how it counts packets.
use dram_pvt_mk.Base.{
  ℕ, ◌+◌, ◌≤◌, ◌<◌, ◌==◌, ◌≡◌, ◌⊎◌, ◌∙◌, refl, inl, inr, arith, List, Bool, none, some, length, ltb,
  ltb→lt, ltb-false→≤, ◌≢◌, swap16, Bool-cases, Option-cases, ==_iff, u64, get_or,
}
use dram_pvt_mk.Base.Bytes.{
  byte_at, half_at, write, length-write, byte_at-write, byte_at-write_start, byte_at-write_above,
}
use dram_pvt_mk.Katran.{RealDefinition, be_eth_p_ipv6}
use dram_pvt_mk.Katran.Health.Headers.{Headers, Headers-same}
use dram_pvt_mk.Katran.Health.{
  HcStats, HcMaps, SkBuff, tc_act_shot, redirect, HcRun, AdjustRoom, hc_encap, skip_packet,
  drop_packet, send_check, check_real, healthchecker, hc_max_packet_size, hc_main_intf_position,
  hc_src_mac_pos, hc_dst_mac_pos,
}
use dram_pvt_mk.Katran.Health.Moves.{Inserted, MakesRoom, Inserted-write, room_of, hc_encap-Moves}

-- A mark that no real is stored for.
abbrev pub IsUnmarked : HcMaps → SkBuff → Type 0
IsUnmarked m skb = (skb.mark ≡ 0) ⊎ (m.hc_reals_map skb.mark ≡ none)

-- One packet more is counted as dropped, and as too big where it was.
abbrev pub IsDropped : SkBuff → HcStats → HcRun → Type 0
IsDropped skb s r =
    (r.action ≡ tc_act_shot)
    × (((skb.len ≤ hc_max_packet_size)
          × (r.stats ≡ some (record s { pckts_dropped = u64 (s.pckts_dropped + 1) })))
        ⊎ ((hc_max_packet_size < skb.len)
            × (r.stats
                ≡ some (record s {
                  pckts_dropped = u64 (s.pckts_dropped + 1);
                  pckts_too_big = u64 (s.pckts_too_big + 1);
                }))))

-- The packet goes out behind the headers to the real, with the addresses that are stored.
pub record IsSent (gue : Bool) (m : HcMaps) (skb : SkBuff) (s : HcStats) (r : HcRun)
    (real : RealDefinition) (ifindex : ℕ) (esrc edst : List ℕ) : Type 0 where
  pub found : m.hc_reals_map skb.mark ≡ some real
  pub interface : m.hc_ctrl_map hc_main_intf_position ≡ some ifindex
  pub source_mac : m.hc_pckt_macs hc_src_mac_pos ≡ some esrc
  pub dest_mac : m.hc_pckt_macs hc_dst_mac_pos ≡ some edst
  pub small : skb.len ≤ hc_max_packet_size
  pub action : r.action ≡ redirect ifindex
  pub stats : r.stats ≡ some (record s { pckts_processed = u64 (s.pckts_processed + 1) })
  pub mark : r.skb.mark ≡ 0
  pub marked : skb.mark ≢ 0
  pub headers :
      Headers gue m.hc_pckt_srcs_map skb real (half_at skb.packet 12 == swap16 0x86DD) r.skb.packet
  pub behind : Inserted (room_of gue real) skb.packet r.skb.packet
  pub dest : (i : ℕ) → i < 6 → byte_at r.skb.packet i ≡ get_or edst i 0
  pub source : (i : ℕ) → i < 6 → byte_at r.skb.packet (6 + i) ≡ get_or esrc i 0

abbrev pub HcOutcome : Bool → HcMaps → SkBuff → HcStats → HcRun → Type 0
HcOutcome gue m skb s r =
    (IsUnmarked m skb × (r ≡ skip_packet skb s))
    ⊎ (((real : RealDefinition) × (m.hc_reals_map skb.mark ≡ some real) × (skb.mark ≢ 0))
        × IsDropped skb s r)
    ⊎ ((real : RealDefinition) × (ifindex : ℕ) × (esrc : List ℕ) × (edst : List ℕ) × IsSent gue m
          skb s r real ifindex esrc edst)

module _ (gue : Bool) (adjust_room : AdjustRoom) (room : MakesRoom adjust_room) (m : HcMaps)
    (macs : (k : ℕ) (mac : List ℕ) → m.hc_pckt_macs k ≡ some mac → length mac ≡ 6) (s : HcStats)
    (skb : SkBuff) where
  module _ (real : RealDefinition) (found : m.hc_reals_map skb.mark ≡ some real)
      (marked : skb.mark ≢ 0) where
    send_check-HcOutcome :
        (ifindex : ℕ) (esrc edst : List ℕ)
        → m.hc_ctrl_map hc_main_intf_position ≡ some ifindex
        → m.hc_pckt_macs hc_src_mac_pos ≡ some esrc
        → m.hc_pckt_macs hc_dst_mac_pos ≡ some edst
        → skb.len ≤ hc_max_packet_size
        → HcOutcome gue m skb s (send_check gue adjust_room m skb s real ifindex esrc edst)
    unfolding send_check
    send_check-HcOutcome ifindex esrc edst i_found src_found dst_found small =
        let is_ipv6 = half_at skb.packet 12 == be_eth_p_ipv6 in
        let unmarked = record skb { mark = 0 } in
        let r = hc_encap gue adjust_room m.hc_pckt_srcs_map unmarked real is_ipv6 in
        let a = write r.packet 6 esrc in
        let src_size = macs hc_src_mac_pos esrc src_found in
        let dst_size = macs hc_dst_mac_pos edst dst_found in
        elim (hc_encap-Moves adjust_room room m.hc_pckt_srcs_map unmarked real is_ipv6 gue) [
          | inl failed ↦ rw failed (inr (inl ((real, found, marked), (refl, inl (small, refl)))))
          | inr (moved, inserted, headers) ↦
              rw moved (elim (Bool-cases (ltb (length r.packet) 14)) [
                | inl short ↦
                    rw short (inr (inl ((real, found, marked), (refl, inl (small, refl)))))
                | inr long ↦
                    let wide = ltb-false→≤ (length r.packet) 14 long in
                    rw long (
                      inr (
                        inr (
                          real,
                          ifindex,
                          esrc,
                          edst,
                          record {
                            found = found;
                            interface = i_found;
                            source_mac = src_found;
                            dest_mac = dst_found;
                            small = small;
                            action = refl;
                            stats = refl;
                            mark = refl;
                            marked = marked;
                            headers =
                                Headers-same gue m.hc_pckt_srcs_map skb real is_ipv6 r.packet _
                                  (λ i h.
                                    byte_at-write_above a 0 edst i (omega arith)
                                    ∙ byte_at-write_above r.packet 6 esrc i (omega arith))
                                  headers;
                            behind =
                                Inserted-write _ _ a 0 edst (omega arith)
                                  (Inserted-write _ _ r.packet 6 esrc (omega arith) inserted);
                            dest = λ i h.
                                byte_at-write_start a edst i (omega arith)
                                  (omega (arith, length-write r.packet 6 esrc));
                            source = λ i h.
                                byte_at-write_above a 0 edst (6 + i) (omega arith)
                                ∙ byte_at-write r.packet 6 esrc i (omega arith) (omega arith);
                          },
                        )))
              ])
        ]

    check_real-HcOutcome :
        skb.len ≤ hc_max_packet_size
        → HcOutcome gue m skb s (check_real gue adjust_room m skb s real)
    unfolding check_real
    check_real-HcOutcome small = elim (Option-cases (m.hc_ctrl_map hc_main_intf_position)) [
      | inl e ↦ rw e (inr (inl ((real, found, marked), (refl, inl (small, refl)))))
      | inr (ifindex, i) ↦ rw i (elim (Option-cases (m.hc_pckt_macs hc_src_mac_pos)) [
        | inl e ↦ rw e (inr (inl ((real, found, marked), (refl, inl (small, refl)))))
        | inr (esrc, a) ↦ rw a (elim (Option-cases (m.hc_pckt_macs hc_dst_mac_pos)) [
          | inl e ↦ rw e (inr (inl ((real, found, marked), (refl, inl (small, refl)))))
          | inr (edst, b) ↦ rw b (elim (Bool-cases (ltb (length skb.packet) 14)) [
            | inl short ↦ rw short (inr (inl ((real, found, marked), (refl, inl (small, refl)))))
            | inr long ↦ rw long (send_check-HcOutcome ifindex esrc edst i a b small)
          ])
        ])
      ])
    ]

  -- Every packet is counted, and in one way. A packet whose mark is 0 or is that of no real is
  -- skipped, unchanged. Of the others, each is dropped or sent; one that is longer than 1474 bytes is
  -- dropped and counted as too big, and no other is. A packet that is sent stands behind the
  -- headers that the build and the real call for, an IPv4 or IPv6 header from the stored source to
  -- the real with its lengths, hop limit and protocol, and with GUE a UDP header to port 6080; the
  -- identification, the checksum and the UDP source port are left open. It has the stored hardware
  -- addresses, without its
  -- mark, and goes to the stored interface. This needs that the counters are found, that stored hardware
  -- addresses have six bytes, and that `bpf_skb_adjust_room` makes room behind the Ethernet header
  -- when it succeeds.
  pub healthchecker-HcOutcome : HcOutcome gue m skb s (healthchecker gue adjust_room m (some s) skb)
  unfolding healthchecker
  healthchecker-HcOutcome = elim (Bool-cases (skb.mark == 0)) [
    | inl zero ↦ rw zero (inl (inl ((==_iff skb.mark 0).0 zero), refl))
    | inr marked ↦
        let is_marked : skb.mark ≢ 0 = λ e. ground (arith, e, marked) in
        elim (Option-cases (m.hc_reals_map skb.mark)) [
          | inl none_found ↦
              let e : healthchecker gue adjust_room m (some s) skb ≡ skip_packet skb s =
                rw (marked, none_found) refl in
              rw e (inl (inr none_found, refl))
          | inr (real, found) ↦ elim (Bool-cases (ltb hc_max_packet_size skb.len)) [
            | inl big ↦
                let counted = record s { pckts_too_big = u64 (s.pckts_too_big + 1) } in
                let e : healthchecker gue adjust_room m (some s) skb ≡ drop_packet skb counted =
                  rw (marked, found, big) refl in
                rw e (
                  inr (
                    inl (
                      (real, found, is_marked),
                      (refl, inr (ltb→lt hc_max_packet_size skb.len big, refl)),
                    )))
            | inr fits ↦
                let e : healthchecker gue adjust_room m (some s) skb
                    ≡ check_real gue adjust_room m skb s real =
                  rw (marked, found, fits) refl in
                rw e (
                  check_real-HcOutcome real found is_marked
                    (ltb-false→≤ hc_max_packet_size skb.len fits))
          ]
        ]
  ]
