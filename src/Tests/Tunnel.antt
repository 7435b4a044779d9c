-- ===== src/Tests/Tunnel.antt =====
-- The tunnel on a UDP packet, on one that is cut off and on one without a tunnel.
use dram_pvt_mk.Base.{
  ℕ, ◌==◌, ◌≡◌, refl, arith, zero, suc, List, [], ◌∷◌, ◌++◌, none, some, some_inj, sym, inl, inr,
  Bool-cases, if◌then◌else◌,
}
use dram_pvt_mk.Base.Bytes.{Packet}
use dram_pvt_mk.Tunnel.{Vip, IptnlInfo, TunnelMap, xdp_tx_iptunnel, handle_ipv4, get_dport, vip_of}
use dram_pvt_mk.Tunnel.Sent.{IsTunnel}
use dram_pvt_mk.Tunnel.Laws.{Outcome, xdp_tx_iptunnel-Outcome}

abbrev zeros : ℕ → List ℕ
zeros zero = []
zeros (suc n) = 0 ∷ zeros n

abbrev tunnel : IptnlInfo
tunnel = record {
  saddr = 1;
  daddr = 2;
  family = 2;
  dmac = b'r' ∷ b'o' ∷ b'u' ∷ b't' ∷ b'e' ∷ b'r' ∷ [];
}

-- UDP packets to port 53, in network byte order, of any address go through the tunnel.
abbrev vip2tnl : TunnelMap
vip2tnl vip = if vip.dport == 13568 then some tunnel else none

vip2tnl-IsTunnel : (vip : Vip) (tnl : IptnlInfo) → vip2tnl vip ≡ some tnl → IsTunnel tnl
vip2tnl-IsTunnel vip tnl e = elim (Bool-cases (vip.dport == 13568)) [
  | inl dns ↦ let is : tunnel ≡ tnl = some_inj (rw dns at e) in rw (sym is) (omega arith, refl)
  | inr other ↦ absurd (ground (arith, e, other))
]

-- A UDP header of ports 0 and `port`, with no data.
abbrev udp_packet : ℕ → Packet
udp_packet port =
    zeros 12 ++ (8 ∷ 0 ∷ 0x45 ∷ 0 ∷ 0 ∷ 28 ∷ (zeros 5 ++ (17 ∷ (zeros 13 ++ (port ∷ zeros 4)))))

sent_to_53 : (xdp_tx_iptunnel vip2tnl (udp_packet 53)).verdict ≡ 3
unfolding xdp_tx_iptunnel handle_ipv4 get_dport vip_of
sent_to_53 = refl

passed_to_54 : (xdp_tx_iptunnel vip2tnl (udp_packet 54)).verdict ≡ 2
unfolding xdp_tx_iptunnel handle_ipv4 get_dport vip_of
passed_to_54 = refl

dropped_when_cut : (xdp_tx_iptunnel vip2tnl (zeros 12 ++ (8 ∷ zeros 20))).verdict ≡ 1
unfolding xdp_tx_iptunnel handle_ipv4 get_dport vip_of
dropped_when_cut = refl

xdp_tx_iptunnel-Outcome_example :
    Outcome vip2tnl (udp_packet 53) (xdp_tx_iptunnel vip2tnl (udp_packet 53))
xdp_tx_iptunnel-Outcome_example =
    xdp_tx_iptunnel-Outcome vip2tnl (udp_packet 53) (omega arith) vip2tnl-IsTunnel
