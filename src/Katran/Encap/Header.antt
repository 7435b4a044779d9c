-- ===== src/Katran/Encap/Header.antt =====
-- The outer IPv4 header: create_v4_hdr and encap_v4.
use dram_pvt_mk.Base.{
  ℕ, ◌+◌, ◌*◌, ◌%◌, ◌^◌, ◌≤◌, ◌<◌, ◌≡◌, refl, arith, List, true, some, length, ltb-eq-false, u16,
  swap16, IsBytes, All-take, All-drop,
}
use dram_pvt_mk.Base.Adjust.{AdjustHead}
use dram_pvt_mk.Base.Outer.{Outer}
use dram_pvt_mk.Base.Bytes.{Packet, word_at, write, le_bytes}
use dram_pvt_mk.Checksum.Laws.{plain_sum, IsBytes-write}
use dram_pvt_mk.Checksum.Header.{
  Header4, write_header, write_header-Header4, write_header-IsBytes, write_header-check,
  length-write_header,
}
use dram_pvt_mk.Katran.{PacketDescription, RealDefinition, BalancerKernel, default_ttl, be_eth_p_ip}
use dram_pvt_mk.Katran.Csum.{ipv4_csum_inline}
use dram_pvt_mk.Katran.Csum.Laws.{plain_sum-ipv4_csum_inline}
use dram_pvt_mk.Katran.Encap.{create_v4_hdr, new_eth, encap_v4, outer_source, ipproto_ipip}
use dram_pvt_mk.Katran.Encap.Laws.{new_eth-Outer, create_v4_hdr-Outer}

-- The fields of an IPv4 header at 14, and its words, which add up to zero in one's-complement
-- arithmetic.
pub record Created4 (r : Packet) (tos saddr daddr pkt_bytes proto : ℕ) : Type 0 where
  pub fields : Header4 r tos (swap16 (u16 (pkt_bytes + 20))) default_ttl proto saddr daddr
  pub sum : plain_sum r 10 14 % 65535 ≡ 0

pub create_v4_hdr-Created4 :
    (p : Packet) (tos saddr daddr pkt_bytes proto : ℕ)
    → 34 ≤ length p
    → IsBytes p
    → tos < 256
    → proto < 256
    → Created4 (create_v4_hdr p 14 tos saddr daddr pkt_bytes proto) tos saddr daddr pkt_bytes proto
unfolding create_v4_hdr
create_v4_hdr-Created4 p tos saddr daddr pkt_bytes proto room bytes small_tos small_proto =
    let tot_len = swap16 (u16 (pkt_bytes + 20)) in
    let b = write_header p 14 tos tot_len default_ttl proto saddr daddr in
    record {
      fields =
          write_header-Header4 p tos tot_len default_ttl proto saddr daddr room
            (ipv4_csum_inline b 14);
      sum =
          plain_sum-ipv4_csum_inline b 14
            (write_header-IsBytes p tos tot_len default_ttl proto saddr daddr room bytes small_tos
              (omega arith) small_proto)
            (omega (arith, length-write_header p tos tot_len default_ttl proto saddr daddr room))
            (write_header-check p tos tot_len default_ttl proto saddr daddr room);
    }

-- The tunnelled packet: `p` from its IP header on behind an IPv4 header from the balancer to the
-- real.
pub record Tunnelled (p r : Packet) (mac : List ℕ) (d : PacketDescription) (real : RealDefinition)
    (size : ℕ) : Type 0 where
  pub outer : Outer 20 p r mac
  pub header :
      Created4 r d.tos (outer_source d.flow.sport d.flow.src.w0) real.dst.w0 size ipproto_ipip

-- The packet that goes to an IPv4 real has its old bytes from the IP header on, behind an IPv4
-- header of 20 bytes: to the real's address, from 172.16.x.x, with the protocol of an inner IPv4
-- packet, the given length and 20 more, the client's type of service, a time to live of 64 and no
-- fragment; the header's words add up to zero in one's-complement arithmetic. The Ethernet header
-- goes from the old destination to the router. This needs a packet of 14 bytes or more, and that
-- `bpf_xdp_adjust_head` made room.
pub encap_v4-Tunnelled :
    (k : BalancerKernel) (p q : Packet) (mac : List ℕ) (d : PacketDescription)
    (real : RealDefinition) (size : ℕ)
    → AdjustHead k.grow_head
    → k.grow_head p 20 ≡ some q
    → 14 ≤ length p
    → IsBytes q
    → IsBytes mac
    → length mac ≡ 6
    → d.tos < 256
    → let sent = encap_v4 k p mac d real size in
      (sent.moved ≡ true)
      × Tunnelled p sent.packet mac d real size
      × (word_at sent.packet 26 % 2 ^ 16 ≡ 172 + 256 * 16)
unfolding encap_v4
encap_v4-Tunnelled k p q mac d real size adjusts grown wide bytes mac_bytes mac_size tos =
    let long = adjusts.grows p q 20 grown in
    let eth = new_eth q mac 20 be_eth_p_ip in
    let o =
      new_eth-Outer 20 p q mac be_eth_p_ip (omega arith) wide long
        (λ i. adjusts.keeps p q 20 i grown) mac_size in
    let w = IsBytes-write q 0 mac bytes mac_bytes in
    let old =
      All-take (λ (x : ℕ). x < 256) 6 _ (All-drop (λ (x : ℕ). x < 256) 20 (write q 0 mac) w) in
    let eth_bytes =
      IsBytes-write _ 12 (le_bytes 2 be_eth_p_ip) (IsBytes-write (write q 0 mac) 6 _ w old)
        (omega arith) in
    let h =
      create_v4_hdr-Created4 eth d.tos (outer_source d.flow.sport d.flow.src.w0) real.dst.w0 size
        ipproto_ipip (omega (arith, o.size)) eth_bytes tos (omega arith) in
    rw (grown, ltb-eq-false (length q) 34 (omega arith))
      (
        refl,
        record { outer = create_v4_hdr-Outer 20 p eth mac _ _ _ _ _ (omega arith) o; header = h },
        omega (arith, h.fields.source),
      )
