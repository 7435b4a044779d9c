-- ===== src/Katran/Health.antt =====
-- The health checking of examples/katran: healthchecking_kern.c with healthchecking_helpers.h,
-- healthchecking_structs.h, healthchecking_consts.h and healthchecking_maps.h.
pub mod Fields
pub mod Headers
pub mod Laws
pub mod Moves
use dram_pvt_mk.Base.{
  ℕ, ◌+◌, ◌-◌, ◌/◌, ◌%◌, ◌^◌, List, Bool, true, false, ◌==◌, ltb, if◌then◌else◌, Option, none, some,
  length, bit_xor, bit_or, u16, u64,
}
use dram_pvt_mk.Base.Table.{Table, or_return}
use dram_pvt_mk.Base.Bytes.{Packet, half_at, write, le_bytes}
use dram_pvt_mk.Katran.{RealDefinition, be_eth_p_ipv6}
use dram_pvt_mk.Katran.Encap.{
  Moved, create_v4_hdr, create_v6_hdr, create_udp_hdr, gue_dport, ipproto_ipip, ipproto_ipv6,
}

abbrev pub hc_main_intf_position : ℕ
hc_main_intf_position = 3

abbrev pub hc_max_packet_size : ℕ
hc_max_packet_size = 1474

abbrev pub v6_daddr : ℕ
v6_daddr = 1

abbrev pub hc_src_mac_pos : ℕ
hc_src_mac_pos = 0

abbrev pub hc_dst_mac_pos : ℕ
hc_dst_mac_pos = 1

pub record HcStats : Type 0 where
  pub pckts_processed : ℕ
  pub pckts_dropped : ℕ
  pub pckts_skipped : ℕ
  pub pckts_too_big : ℕ

-- `hc_stats_map`, which alone is written, is an argument of its own.
pub record HcMaps : Type 0 where
  pub hc_ctrl_map : Table ℕ
  pub hc_reals_map : Table RealDefinition
  pub hc_pckt_srcs_map : Table RealDefinition
  pub hc_pckt_macs : Table (List ℕ)

-- The parts of `__sk_buff` that the program uses; `len` also counts what is not in `packet`.
pub record SkBuff : Type 0 where
  pub packet : Packet
  pub len : ℕ
  pub mark : ℕ

-- `redirect` is what `bpf_redirect(ifindex, REDIRECT_EGRESS)` returns.
pub data Action : Type 0 where
  tc_act_unspec : Action
  tc_act_shot : Action
  redirect : ℕ → Action

pub record HcRun : Type 0 where
  pub skb : SkBuff
  pub stats : Option HcStats
  pub action : Action

-- `bpf_skb_adjust_room(skb, n, BPF_ADJ_ROOM_MAC, flags)`, `none` where it fails.
abbrev pub AdjustRoom : Type 0
AdjustRoom = Packet → ℕ → Option Packet

-- `skb->len - sizeof(struct ethhdr)`, cut to 16 bits.
abbrev pub payload_len : SkBuff → ℕ
payload_len skb = u16 (skb.len + 2 ^ 16 - 14)

-- Room of `n` bytes behind the Ethernet header, and the headers that `fill` writes there.
unfoldable pub in_room : AdjustRoom → Packet → ℕ → (Packet → Packet) → Moved
in_room adjust_room p n fill =
    or_return (adjust_room p n) (record { packet = p; moved = false })
      λ q.
        if ltb (length q) (14 + n)
        then record { packet = q; moved = false }
        else record { packet = fill q; moved = true }

unfoldable pub hc_encap_ipip :
    AdjustRoom → Table RealDefinition → SkBuff → RealDefinition → Bool → Moved
hc_encap_ipip adjust_room srcs skb real is_ipv6 =
    let p = skb.packet in
    if real.flags == v6_daddr
    then (or_return (srcs 1) (record { packet = p; moved = false })
        λ src. in_room adjust_room p 40 λ q.
          create_v6_hdr (write q 12 (le_bytes 2 be_eth_p_ipv6)) 14 0 src.dst real.dst
            (payload_len skb) (if is_ipv6 then ipproto_ipv6 else ipproto_ipip))
    else or_return (srcs 0) (record { packet = p; moved = false })
        λ src.
          in_room adjust_room p 20
            λ q. create_v4_hdr q 14 0 src.dst.w0 real.dst.w0 (payload_len skb) ipproto_ipip

unfoldable pub gue_sport : ℕ → ℕ
gue_sport seed = bit_xor seed (seed / 2 ^ 16) % 2 ^ 16

unfoldable pub hc_encap_gue : AdjustRoom → Table RealDefinition → SkBuff → RealDefinition → Moved
hc_encap_gue adjust_room srcs skb real =
    let p = skb.packet in
    let pkt_len = u16 (payload_len skb + 8) in
    if real.flags == v6_daddr
    then (or_return (srcs 1) (record { packet = p; moved = false })
        λ src.
          let sport = gue_sport (bit_or real.dst.w0 real.dst.w3) in
          in_room adjust_room p 48 λ q.
            create_v6_hdr
              (create_udp_hdr (write q 12 (le_bytes 2 be_eth_p_ipv6)) 54 sport gue_dport pkt_len 0)
              14 0 src.dst real.dst pkt_len 17)
    else or_return (srcs 0) (record { packet = p; moved = false })
        λ src.
          let sport = gue_sport real.dst.w0 in
          in_room adjust_room p 28 λ q.
            create_v4_hdr (create_udp_hdr q 34 sport gue_dport pkt_len 0) 14 0 src.dst.w0
              real.dst.w0 pkt_len 17

-- `HC_ENCAP`: one of the two, by a flag of the build.
unfoldable pub hc_encap :
    Bool → AdjustRoom → Table RealDefinition → SkBuff → RealDefinition → Bool → Moved
hc_encap gue adjust_room srcs skb real is_ipv6 =
    if gue
    then hc_encap_gue adjust_room srcs skb real
    else hc_encap_ipip adjust_room srcs skb real is_ipv6

abbrev pub skip_packet : SkBuff → HcStats → HcRun
skip_packet skb s = record {
  skb = skb;
  stats = some (record s { pckts_skipped = u64 (s.pckts_skipped + 1) });
  action = tc_act_unspec;
}

abbrev pub drop_packet : SkBuff → HcStats → HcRun
drop_packet skb s = record {
  skb = skb;
  stats = some (record s { pckts_dropped = u64 (s.pckts_dropped + 1) });
  action = tc_act_shot;
}

-- The lines from `skb->mark = 0` on.
unfoldable pub send_check :
    Bool → AdjustRoom → HcMaps → SkBuff → HcStats → RealDefinition → ℕ → List ℕ → List ℕ → HcRun
send_check gue adjust_room m skb s real ifindex esrc edst =
    let is_ipv6 = half_at skb.packet 12 == be_eth_p_ipv6 in
    let unmarked = record skb { mark = 0 } in
    let r = hc_encap gue adjust_room m.hc_pckt_srcs_map unmarked real is_ipv6 in
    let out = record unmarked { packet = r.packet } in
    if r.moved
    then (if ltb (length r.packet) 14 then drop_packet out s else record {
      skb = record out { packet = write (write r.packet 6 esrc) 0 edst };
      stats = some (record s { pckts_processed = u64 (s.pckts_processed + 1) });
      action = redirect ifindex;
    })
    else drop_packet out s

-- The lines from the lookup of the main interface on.
unfoldable pub check_real : Bool → AdjustRoom → HcMaps → SkBuff → HcStats → RealDefinition → HcRun
check_real gue adjust_room m skb s real =
    or_return (m.hc_ctrl_map hc_main_intf_position) (drop_packet skb s) λ ifindex.
      or_return (m.hc_pckt_macs hc_src_mac_pos) (drop_packet skb s) λ esrc.
        or_return (m.hc_pckt_macs hc_dst_mac_pos) (drop_packet skb s) λ edst.
          if ltb (length skb.packet) 14
          then drop_packet skb s
          else send_check gue adjust_room m skb s real ifindex esrc edst

unfoldable pub healthchecker : Bool → AdjustRoom → HcMaps → Option HcStats → SkBuff → HcRun
healthchecker gue adjust_room m stats skb =
    or_return stats (record { skb = skb; stats = none; action = tc_act_unspec })
      λ s.
        if skb.mark == 0
        then skip_packet skb s
        else or_return (m.hc_reals_map skb.mark) (skip_packet skb s) λ real.
          if ltb hc_max_packet_size skb.len
          then drop_packet skb (record s { pckts_too_big = u64 (s.pckts_too_big + 1) })
          else check_real gue adjust_room m skb s real
