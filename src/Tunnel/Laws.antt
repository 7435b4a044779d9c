-- ===== src/Tunnel/Laws.antt =====
-- What the tunnel sends, drops and passes on.
use dram_pvt_mk.Base.{
  ℕ, ◌≤◌, ◌<◌, ◌==◌, ◌≡◌, ◌≢◌, ◌⊎◌, refl, inl, inr, arith, none, some, length, ltb, ltb-eq-false,
  ltb-false→≤, ltb→lt, Bool-cases, Option-cases, ==_iff, swap16, IsBytes,
}
use dram_pvt_mk.Base.Bytes.{Packet, byte_at, half_at, word_at}
use dram_pvt_mk.Base.Xdp.{xdp_drop, xdp_pass, xdp_tx}
use dram_pvt_mk.Tunnel.{
  Vip, IptnlInfo, TunnelMap, TunnelRun, af_inet, get_dport, vip_of, encapsulate, handle_ipv4,
  xdp_tx_iptunnel,
}
use dram_pvt_mk.Tunnel.Sent.{Encapsulated, IsTunnel, encapsulate-Encapsulated}

abbrev pub IsIpv4 : Packet → Type 0
IsIpv4 p = (14 ≤ length p) × (half_at p 12 ≡ 8)

-- A TCP or UDP header that does not fit.
abbrev pub IsCut : Packet → Type 0
IsCut p = ((byte_at p 23 ≡ 6) × (length p < 54)) ⊎ ((byte_at p 23 ≡ 17) × (length p < 42))

-- The destination port, in the order in which it stands in the packet; 0 for other protocols.
abbrev pub IsPort : Packet → ℕ → Type 0
IsPort p port =
    ((byte_at p 23 ≡ 6) × (54 ≤ length p) × (port ≡ half_at p 36))
    ⊎ ((byte_at p 23 ≡ 17) × (42 ≤ length p) × (port ≡ half_at p 36))
    ⊎ ((byte_at p 23 ≢ 6) × (byte_at p 23 ≢ 17) × (port ≡ 0))

get_dport-cases :
    (p : Packet)
    → ((get_dport p 34 (byte_at p 23) ≡ none) × IsCut p)
      ⊎ ((port : ℕ) × (get_dport p 34 (byte_at p 23) ≡ some port) × IsPort p port)
unfolding get_dport
get_dport-cases p = elim (Bool-cases (byte_at p 23 == 6)) [
  | inl tcp ↦
      let is = (==_iff (byte_at p 23) 6).0 tcp in
      elim (Bool-cases (ltb (length p) 54)) [
        | inl short ↦ inl (rw (tcp, short) refl, inl (is, ltb→lt (length p) 54 short))
        | inr long ↦
            inr (half_at p 36, rw (tcp, long) refl, inl (is, ltb-false→≤ (length p) 54 long, refl))
      ]
  | inr a ↦ elim (Bool-cases (byte_at p 23 == 17)) [
    | inl udp ↦
        let is = (==_iff (byte_at p 23) 17).0 udp in
        elim (Bool-cases (ltb (length p) 42)) [
          | inl short ↦ inl (rw (a, udp, short) refl, inr (is, ltb→lt (length p) 42 short))
          | inr long ↦ inr (
            half_at p 36,
            rw (a, udp, long) refl,
            inr (inl (is, ltb-false→≤ (length p) 42 long, refl)),
          )
        ]
    | inr b ↦ inr (
      0,
      rw (a, b) refl,
      inr (inr ((λ e. ground (arith, e, a)), (λ e. ground (arith, e, b)), refl)),
    )
  ]
]

-- What is looked up: the destination address, the port, AF_INET and the protocol.
abbrev pub key_for : Packet → ℕ → Vip
key_for p port = record { daddr = word_at p 30; dport = port; family = 2; protocol = byte_at p 23 }

-- The packet and the port that is looked up.
abbrev pub Port : Packet → ℕ → Type 0
Port p port = IsIpv4 p × (34 ≤ length p) × IsPort p port

-- The packet is cut off in the headers that are read.
abbrev pub IsShort : Packet → Type 0
IsShort p = (length p < 14) ⊎ (IsIpv4 p × ((length p < 34) ⊎ IsCut p))

-- The packet is no IPv4 packet, or it has no IPv4 tunnel.
abbrev pub IsForeign : TunnelMap → Packet → Type 0
IsForeign m p =
    ((14 ≤ length p) × (half_at p 12 ≢ 8))
    ⊎ ((port : ℕ) × Port p port
        × ((m (key_for p port) ≡ none)
            ⊎ ((tnl : IptnlInfo) × (m (key_for p port) ≡ some tnl) × (tnl.family ≢ 2))))

abbrev pub IsTunnelled : TunnelMap → Packet → IptnlInfo → Type 0
IsTunnelled m p tnl = (port : ℕ) × Port p port × (m (key_for p port) ≡ some tnl) × (tnl.family ≡ 2)

abbrev pub Outcome : TunnelMap → Packet → TunnelRun → Type 0
Outcome m p r =
    (IsShort p × (r.packet ≡ p) × (r.verdict ≡ xdp_drop))
    ⊎ (IsForeign m p × (r.packet ≡ p) × (r.verdict ≡ xdp_pass))
    ⊎ ((tnl : IptnlInfo) × IsTunnelled m p tnl × Encapsulated p r.packet tnl × (r.verdict ≡ xdp_tx))

module _ (m : TunnelMap) (p : Packet) (bytes : IsBytes p)
    (tunnels : (vip : Vip) (tnl : IptnlInfo) → m vip ≡ some tnl → IsTunnel tnl) where
  refused : TunnelRun
  refused = record { packet = p; verdict = xdp_drop }

  passed : TunnelRun
  passed = record { packet = p; verdict = xdp_pass }

  known-Outcome :
      (port : ℕ) (tnl : IptnlInfo)
      → Port p port
      → get_dport p 34 (byte_at p 23) ≡ some port
      → m (key_for p port) ≡ some tnl
      → Outcome m p (handle_ipv4 m p)
  unfolding passed vip_of
  known-Outcome port tnl at read found =
      let out = encapsulate p tnl (swap16 (half_at p 16)) in
      let small = ltb-eq-false (length p) 34 at.1 in
      elim (Bool-cases (tnl.family == af_inet)) [
        | inl inet ↦
            let e : handle_ipv4 m p ≡ record { packet = out; verdict = xdp_tx } =
              unfold handle_ipv4 in rw (small, read, found, inet) refl in
            rw e (
              inr (
                inr (
                  tnl,
                  (port, at, found, (==_iff tnl.family af_inet).0 inet),
                  encapsulate-Encapsulated p tnl at.1 bytes (tunnels (key_for p port) tnl found),
                  refl,
                )))
        | inr other ↦
            let e : handle_ipv4 m p ≡ passed =
              unfold handle_ipv4 in rw (small, read, found, other) refl in
            rw e (
              inr (
                inl (
                  inr (port, at, inr (tnl, found, λ same. ground (arith, same, other))),
                  refl,
                  refl,
                )))
      ]

  handle_ipv4-Outcome : IsIpv4 p → Outcome m p (handle_ipv4 m p)
  unfolding refused passed vip_of
  handle_ipv4-Outcome ip = elim (Bool-cases (ltb (length p) 34)) [
    | inl cut ↦
        let e : handle_ipv4 m p ≡ refused = unfold handle_ipv4 in rw cut refl in
        rw e (inl (inr (ip, inl (ltb→lt (length p) 34 cut)), refl, refl))
    | inr full ↦
        let long = ltb-false→≤ (length p) 34 full in
        elim (get_dport-cases p) [
          | inl (cut, why) ↦
              let e : handle_ipv4 m p ≡ refused = unfold handle_ipv4 in rw (full, cut) refl in
              rw e (inl (inr (ip, inr why), refl, refl))
          | inr (port, read, is) ↦ elim (Option-cases (m (key_for p port))) [
            | inl unknown ↦
                let e : handle_ipv4 m p ≡ passed =
                  unfold handle_ipv4 in rw (full, read, unknown) refl in
                rw e (inr (inl (inr (port, (ip, long, is), inl unknown), refl, refl)))
            | inr (tnl, found) ↦ known-Outcome port tnl (ip, long, is) read found
          ]
        ]
  ]

  -- Every packet is handled in one of three ways, and only as its bytes and the map say. It is
  -- dropped as it came when it ends within the headers that are read. It is passed on as it came
  -- when it is not IPv4, or when no IPv4 tunnel is stored for its destination, port and protocol.
  -- Else it is sent with its first 34 bytes replaced: an Ethernet header of IPv4 to the tunnel's hardware
  -- address and an IPv4 header from and to the tunnel's addresses, with a total length of 20 more
  -- than before, a time to live of 8 and the protocol of an inner IPv4 packet. As the packet does not
  -- grow, the tunnelled packet lacks its first 20 bytes, and the source address is what stands at byte
  -- 20. The words of the new header add up to zero in one's-complement arithmetic exactly when the
  -- single fold of the carries does not overflow 16 bits. This needs that the hardware addresses in
  -- the map have six bytes.
  pub xdp_tx_iptunnel-Outcome : Outcome m p (xdp_tx_iptunnel m p)
  unfolding xdp_tx_iptunnel
  xdp_tx_iptunnel-Outcome = elim (Bool-cases (ltb (length p) 14)) [
    | inl cut ↦ rw cut (inl (inl (ltb→lt (length p) 14 cut), refl, refl))
    | inr full ↦ elim (Bool-cases (half_at p 12 == 8)) [
      | inl ip ↦
          rw (full, ip)
            (handle_ipv4-Outcome (ltb-false→≤ (length p) 14 full, (==_iff (half_at p 12) 8).0 ip))
      | inr other ↦
          rw (full, other)
            (inr (
              inl (
                inl (ltb-false→≤ (length p) 14 full, λ same. ground (arith, same, other)),
                refl,
                refl,
              )))
    ]
  ]
