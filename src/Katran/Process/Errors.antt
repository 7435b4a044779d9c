-- ===== src/Katran/Process/Errors.antt =====
-- ICMP messages reach the real of the connection that they are about.
use dram_pvt_mk.Base.{
  ℕ, ◌+◌, ◌%◌, ◌≤◌, ◌≡◌, ◌⊎◌, ◌∙◌, refl, arith, inl, inr, false, ◌==◌, ltb-eq-false, Option-cases,
  Bool-cases, some_inj, if◌then◌else◌, Option, none, some, length, bit_and, ==_iff,
}
use dram_pvt_mk.Base.Table.{or_return}
use dram_pvt_mk.Base.Bytes.{Packet, ◌>>=◌, byte_at, half_at, word_at}
use dram_pvt_mk.Base.Xdp.{ipproto_tcp, ipproto_udp}
use dram_pvt_mk.Katran.{
  FlowKey, PacketDescription, BuildFlags, BalancerKernel, BalancerMaps, pckt_fragmented, no_address,
}
use dram_pvt_mk.Katran.Parse.{parse_tcp, parse_udp}
use dram_pvt_mk.Katran.Icmp.{parse_icmp}
use dram_pvt_mk.Katran.Process.{process_l3_headers, no_pckt, pkt_bytes, balance, process_packet}

-- The flow by which an IPv4 packet is balanced, as `process_packet` reads it.
unfoldable flow_of : Packet → Option FlowKey
flow_of p =
    let l3 = process_l3_headers p 14 false no_pckt in
    let proto = l3.pckt.flow.proto in
    or_return l3.action
      (if proto == ipproto_tcp
        then (parse_tcp p false l3.pckt >>= λ d. some d.flow)
        else if proto == ipproto_udp
        then (parse_udp p false l3.pckt >>= λ d. some d.flow)
        else none)
      λ _. none

-- An IPv4 header without options at `off`, of no fragment.
pub record IsWhole (p : Packet) (off : ℕ) : Type 0 where
  pub no_options : byte_at p off % 16 ≡ 5
  pub no_fragment : bit_and (half_at p (off + 6)) pckt_fragmented ≡ 0

-- A client's packet.
pub record IsClient (p : Packet) : Type 0 where
  pub size : 54 ≤ length p
  pub whole : IsWhole p 14
  pub carried : (byte_at p 23 ≡ ipproto_tcp) ⊎ (byte_at p 23 ≡ ipproto_udp)

-- `e` tells that an answer to `p` could not be delivered: the answer's headers stand in it at 42.
pub record IsErrorFor (p e : Packet) : Type 0 where
  pub size : 82 ≤ length e
  pub whole : IsWhole e 14
  pub icmp : byte_at e 23 ≡ 1
  pub unreachable : byte_at e 34 ≡ 3
  pub no_options : byte_at e 42 % 16 ≡ 5
  pub proto : byte_at e 51 ≡ byte_at p 23
  pub from_service : word_at e 54 ≡ word_at p 30
  pub to_client : word_at e 58 ≡ word_at p 26
  pub service_port : half_at e 62 ≡ half_at p 36
  pub client_port : half_at e 64 ≡ half_at p 34

-- The flow of a client's packet.
abbrev pub client_flow : Packet → FlowKey
client_flow p =
    let a = no_address in
    record {
      src = record a { w0 = word_at p 26 };
      dst = record a { w0 = word_at p 30 };
      sport = half_at p 34;
      dport = half_at p 36;
      proto = byte_at p 23;
    }

client-flow_of : (p : Packet) → IsClient p → flow_of p ≡ some (client_flow p)
unfolding flow_of process_l3_headers parse_tcp parse_udp
client-flow_of p c =
    let size = c.size in
    let l34 = ltb-eq-false (length p) (14 + 20) (omega arith) in
    let l42 = ltb-eq-false (length p) (34 + 8) (omega arith) in
    let l54 = ltb-eq-false (length p) (34 + 20) (omega arith) in
    let options = (==_iff (byte_at p 14 % 16) 5).1 c.whole.no_options in
    let frag = (==_iff (bit_and (half_at p 20) pckt_fragmented) 0).1 c.whole.no_fragment in
    elim c.carried [
      | inl tcp ↦ rw (l34, options, frag) (rw (tcp, l54) (ground arith))
      | inr udp ↦ rw (l34, options, frag) (rw (udp, l42) refl)
    ]

error-flow_of : (p e : Packet) → IsClient p → IsErrorFor p e → flow_of e ≡ some (client_flow p)
unfolding flow_of process_l3_headers parse_icmp parse_tcp parse_udp
error-flow_of p e c r =
    let size = r.size in
    let l34 = ltb-eq-false (length e) (14 + 20) (omega arith) in
    let l42 = ltb-eq-false (length e) (34 + 8) (omega arith) in
    let l62 = ltb-eq-false (length e) (34 + 28) (omega arith) in
    let l70 = ltb-eq-false (length e) (62 + 8) (omega arith) in
    let l82 = ltb-eq-false (length e) (62 + 20) (omega arith) in
    let options = (==_iff (byte_at e 14 % 16) 5).1 r.whole.no_options in
    let frag = (==_iff (bit_and (half_at e 20) pckt_fragmented) 0).1 r.whole.no_fragment in
    let inner = (==_iff (byte_at e 42 % 16) 5).1 r.no_options in
    elim c.carried [
      | inl tcp ↦
          let proto = r.proto ∙ tcp in
          rw (l34, options, frag, r.icmp, l42, r.unreachable, l62, inner, proto, l82, tcp)
            (ground (arith, r.from_service, r.to_client, r.service_port, r.client_port))
      | inr udp ↦
          let proto = r.proto ∙ udp in
          rw (l34, options, frag, r.icmp, l42, r.unreachable, l62, inner, proto, l70, udp)
            (ground (arith, r.from_service, r.to_client, r.service_port, r.client_port))
    ]

-- `process_packet` looks the packet's service and real up by this flow.
abbrev pub IsBalancedBy : BuildFlags → BalancerKernel → BalancerMaps → Packet → FlowKey → Type 0
IsBalancedBy b k m p flow =
    (d : PacketDescription) × (process_packet b k m p 14 false
      ≡ balance b k m p false d (pkt_bytes p 14 false))
    × (d.flow ≡ flow)

module _ (b : BuildFlags) (k : BalancerKernel) (m : BalancerMaps) (p : Packet)
    (flow : FlowKey) where
  parsed-IsBalancedBy :
      (o : Option PacketDescription)
      → (o >>= λ d. some d.flow) ≡ some flow
      → (d : PacketDescription) × (o ≡ some d) × (d.flow ≡ flow)
  parsed-IsBalancedBy none e = absurd (ground (arith, e))
  parsed-IsBalancedBy (some d) e = (d, refl, some_inj e)

  flow_of-IsBalancedBy : flow_of p ≡ some flow → IsBalancedBy b k m p flow
  unfolding flow_of process_packet
  flow_of-IsBalancedBy e =
      let l3 = process_l3_headers p 14 false no_pckt in
      let proto = l3.pckt.flow.proto in
      elim (Option-cases l3.action) [
        | inr (v, a) ↦ absurd (ground (arith, rw a at e))
        | inl a ↦ elim (Bool-cases (proto == ipproto_tcp)) [
          | inl tcp ↦
              let (d, run, same) =
                parsed-IsBalancedBy (parse_tcp p false l3.pckt) (rw (a, tcp) at e) in
              (d, rw (a, tcp, run) refl, same)
          | inr other ↦ elim (Bool-cases (proto == ipproto_udp)) [
            | inl udp ↦
                let (d, run, same) =
                  parsed-IsBalancedBy (parse_udp p false l3.pckt) (rw (a, other, udp) at e) in
                (d, rw (a, other, udp, run) refl, same)
            | inr more ↦ absurd (ground (arith, rw (a, other, more) at e))
          ]
        ]
      ]

-- An ICMP message that an answer to a client's TCP or UDP packet was undeliverable reaches the lookup
-- of the service and the real as that packet does: with maps unchanged and with the flow of the
-- client's packet, its addresses, its ports and its protocol, though the message carries the answer's
-- headers. What else the lookup depends on, the SYN flag and a QUIC identifier, is not compared.
-- This holds for IPv4 packets without options that are no fragments, and in which the transport
-- headers are whole.
pub process_packet-error :
    (b : BuildFlags) (k : BalancerKernel) (m : BalancerMaps) (p e : Packet)
    → IsClient p
    → IsErrorFor p e
    → IsBalancedBy b k m p (client_flow p) × IsBalancedBy b k m e (client_flow p)
process_packet-error b k m p e c r = (
  flow_of-IsBalancedBy b k m p (client_flow p) (client-flow_of p c),
  flow_of-IsBalancedBy b k m e (client_flow p) (error-flow_of p e c r),
)
