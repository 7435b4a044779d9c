-- ===== src/Katran/Encap.antt =====
-- pckt_encap.h and encap_helpers.h of examples/katran: the outer headers around a packet for a
-- real, and their removal; decrement_ttl of balancer_helpers.h.
pub mod Laws
pub mod Decap
pub mod Restore
pub mod Header
use dram_pvt_mk.Base.{
  ℕ, ◌+◌, ◌*◌, ◌/◌, ◌%◌, ◌^◌, List, [], ◌∷◌, ◌++◌, Bool, true, false, ◌==◌, ltb, if◌then◌else◌,
  Option, none, some, length, swap16, bit_xor, u16, u32,
}
use dram_pvt_mk.Base.Table.{or_return}
use dram_pvt_mk.Base.Bytes.{Packet, byte_at, half_at, bytes_from, write, le_bytes}
use dram_pvt_mk.Base.Xdp.{xdp_drop}
use dram_pvt_mk.Checksum.Header.{write_header}
use dram_pvt_mk.Katran.{
  Address, PacketDescription, RealDefinition, BalancerKernel, BalancerMaps, default_ttl,
  be_eth_p_ip, be_eth_p_ipv6, ipip_v4_prefix,
}
use dram_pvt_mk.Katran.Csum.{ipv4_csum_inline}

abbrev pub ipproto_ipip : ℕ
ipproto_ipip = 4

abbrev pub ipproto_ipv6 : ℕ
ipproto_ipv6 = 41

abbrev pub gue_dport : ℕ
gue_dport = 6080

abbrev pub address_bytes : Address → List ℕ
address_bytes a = le_bytes 4 a.w0 ++ (le_bytes 4 a.w1 ++ (le_bytes 4 a.w2 ++ le_bytes 4 a.w3))

unfoldable pub create_v4_hdr : Packet → ℕ → ℕ → ℕ → ℕ → ℕ → ℕ → Packet
unfolding write_header
create_v4_hdr p iph tos saddr daddr pkt_bytes proto =
    let b = write_header p iph tos (swap16 (u16 (pkt_bytes + 20))) default_ttl proto saddr daddr in
    write b (iph + 10) (le_bytes 2 (ipv4_csum_inline b iph))

unfoldable pub create_v6_hdr : Packet → ℕ → ℕ → Address → Address → ℕ → ℕ → Packet
create_v6_hdr p ip6h tc saddr daddr payload_len proto = write p ip6h (
    (0x60 + tc / 16 % 16)
    ∷ (tc % 16 * 16)
    ∷ 0
    ∷ 0
    ∷ (le_bytes 2 (swap16 (u16 payload_len))
        ++ (proto ∷ default_ttl ∷ (address_bytes saddr ++ address_bytes daddr))))

unfoldable pub create_udp_hdr : Packet → ℕ → ℕ → ℕ → ℕ → ℕ → Packet
create_udp_hdr p udph sport dport len csum = write p udph (
    le_bytes 2 sport
    ++ (le_bytes 2 (swap16 dport) ++ (le_bytes 2 (swap16 (u16 len)) ++ le_bytes 2 csum)))

-- The packet, and whether the function returns true.
pub record Moved : Type 0 where
  pub packet : Packet
  pub moved : Bool

-- The new Ethernet header, with the old one at `old_eth`.
abbrev pub new_eth : Packet → List ℕ → ℕ → ℕ → Packet
new_eth p mac old_eth proto =
    let a = write p 0 mac in write (write a 6 (bytes_from a old_eth 6)) 12 (le_bytes 2 proto)

-- The upper half is kept, the lower one becomes the prefix.
abbrev pub outer_source : ℕ → ℕ → ℕ
outer_source sport src =
    bit_xor (u32 (swap16 sport * 2 ^ 16)) src / 2 ^ 16 * 2 ^ 16 + ipip_v4_prefix

unfoldable pub encap_v4 :
    BalancerKernel → Packet → List ℕ → PacketDescription → RealDefinition → ℕ → Moved
encap_v4 k p mac d real pkt_bytes =
    or_return (k.grow_head p 20) (record { packet = p; moved = false })
      λ q. if ltb (length q) 34 then record { packet = q; moved = false } else record {
        packet =
            create_v4_hdr (new_eth q mac 20 be_eth_p_ip) 14 d.tos
              (outer_source d.flow.sport d.flow.src.w0) real.dst.w0 pkt_bytes ipproto_ipip;
        moved = true;
      }

-- `IPIP_V6_PREFIX1` to `IPIP_V6_PREFIX3` are 1, 0 and 0.
unfoldable pub encap_v6 :
    BalancerKernel → Packet → List ℕ → Bool → PacketDescription → RealDefinition → ℕ → Moved
encap_v6 k p mac is_ipv6 d real pkt_bytes =
    let src = d.flow.src in
    let suffix = bit_xor (if is_ipv6 then src.w3 else src.w0) d.flow.sport in
    let source : Address = record { w0 = 1; w1 = 0; w2 = 0; w3 = suffix } in
    or_return (k.grow_head p 40) (record { packet = p; moved = false })
      λ q. if ltb (length q) 54 then record { packet = q; moved = false } else record {
        packet =
            create_v6_hdr (new_eth q mac 40 be_eth_p_ipv6) 14 d.tos source real.dst
              (if is_ipv6 then u16 (pkt_bytes + 40) else pkt_bytes)
              (if is_ipv6 then ipproto_ipv6 else ipproto_ipip);
        moved = true;
      }

unfoldable pub gue_encap_v4 :
    BalancerKernel → BalancerMaps → Packet → List ℕ → PacketDescription → RealDefinition → ℕ → Moved
gue_encap_v4 k m p mac d real pkt_bytes =
    let sport = bit_xor (swap16 d.flow.sport) (d.flow.src.w0 / 2 ^ 16 % 2 ^ 16) in
    or_return (m.pckt_srcs 0) (record { packet = p; moved = false })
      λ src.
        or_return (k.grow_head p 28) (record { packet = p; moved = false })
          λ q. if ltb (length q) 42 then record { packet = q; moved = false } else record {
            packet =
                create_v4_hdr
                  (create_udp_hdr (new_eth q mac 28 be_eth_p_ip) 34 sport gue_dport (pkt_bytes + 8)
                    0)
                  14 d.tos src.dst.w0 real.dst.w0 (pkt_bytes + 8) 17;
            moved = true;
          }

unfoldable pub gue_encap_v6 :
    BalancerKernel
    → BalancerMaps
    → Packet
    → List ℕ
    → Bool
    → PacketDescription
    → RealDefinition
    → ℕ
    → Moved
gue_encap_v6 k m p mac is_ipv6 d real pkt_bytes =
    let s = d.flow.src in
    let sport = bit_xor (if is_ipv6 then s.w3 % 2 ^ 16 else s.w0 / 2 ^ 16 % 2 ^ 16) d.flow.sport in
    let size = pkt_bytes + (if is_ipv6 then 48 else 8) in
    or_return (m.pckt_srcs 1) (record { packet = p; moved = false })
      λ src.
        or_return (k.grow_head p 48) (record { packet = p; moved = false })
          λ q. if ltb (length q) 62 then record { packet = q; moved = false } else record {
            packet =
                create_v6_hdr
                  (create_udp_hdr (new_eth q mac 48 be_eth_p_ipv6) 54 sport gue_dport size 0) 14
                  d.tos src.dst real.dst size 17;
            moved = true;
          }

-- The Ethernet addresses are copied to the inner header, `n` bytes on, and the outer ones cut off.
unfoldable pub decap : BalancerKernel → Packet → ℕ → ℕ → Moved
decap k p n proto =
    let a = write p (n + 6) (bytes_from p 6 6) in
    let b = write (write a n (bytes_from a 0 6)) (n + 12) (le_bytes 2 proto) in
    or_return (k.shrink_head b n) (record { packet = b; moved = false })
      λ q. record { packet = q; moved = true }

abbrev pub decap_v4 : BalancerKernel → Packet → Moved
decap_v4 k p = decap k p 20 be_eth_p_ip

abbrev pub decap_v6 : BalancerKernel → Packet → Bool → Moved
decap_v6 k p inner_v4 = decap k p 40 (if inner_v4 then be_eth_p_ip else be_eth_p_ipv6)

abbrev pub gue_decap_v4 : BalancerKernel → Packet → Moved
gue_decap_v4 k p = decap k p 28 be_eth_p_ip

abbrev pub gue_decap_v6 : BalancerKernel → Packet → Bool → Moved
gue_decap_v6 k p inner_v4 = decap k p 48 (if inner_v4 then be_eth_p_ip else be_eth_p_ipv6)

-- The packet, and the verdict where there is one.
unfoldable pub decrement_ttl : Packet → ℕ → Bool → Packet × Option ℕ
decrement_ttl p offset is_ipv6 =
    if is_ipv6
    then (if ltb (length p) (offset + 40)
        then (p, some xdp_drop)
        else let hops = (byte_at p (offset + 7) + 255) % 256 in
          let q = write p (offset + 7) (hops ∷ []) in
          (q, if hops == 0 then some xdp_drop else none))
    else if ltb (length p) (offset + 20)
    then (p, some xdp_drop)
    else let ttl = (byte_at p (offset + 8) + 255) % 256 in
      let q = write p (offset + 8) (ttl ∷ []) in
      if ttl == 0
      then (q, some xdp_drop)
      else let csum = half_at q (offset + 10) + 1 in
        (write q (offset + 10) (le_bytes 2 (csum % 2 ^ 16 + csum / 2 ^ 16)), none)
