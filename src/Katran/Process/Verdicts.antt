-- ===== src/Katran/Process/Verdicts.antt =====
-- What the balancer does with a packet, whatever the packet and the maps are.
use dram_pvt_mk.Base.{
  ℕ, ◌+◌, ◌*◌, ◌%◌, ◌^◌, ◌≡◌, ◌⊎◌, if◌then◌else◌, refl, arith, inl, inr, Bool, true, false, ◌==◌,
  ltb, Option, none, some, length, Option-cases, Bool-cases,
}
use dram_pvt_mk.Base.Table.{or_return}
use dram_pvt_mk.Base.Bytes.{Packet, half_at, Returns, Returns-bind, ◌>>=◌}
use dram_pvt_mk.Base.Xdp.{xdp_drop, xdp_pass, ipproto_tcp, ipproto_udp}
use dram_pvt_mk.Hash.Jhash.{jhash}
use dram_pvt_mk.Hash.Jhash.Summary.{jhash_total}
use dram_pvt_mk.Katran.{
  PacketDescription, VipMeta, RealDefinition, BalancerMaps, BalancerKernel, BuildFlags,
  max_pckt_size, be_eth_p_ip, be_eth_p_ipv6,
}
use dram_pvt_mk.Katran.Parse.{parse_tcp, parse_udp}
use dram_pvt_mk.Katran.Icmp.{send_icmp4_too_big, send_icmp6_too_big, send_icmp_too_big}
use dram_pvt_mk.Katran.Encap.{address_bytes}
use dram_pvt_mk.Katran.Route.{get_packet_hash, get_packet_dst, hashed, Found}
use dram_pvt_mk.Katran.Process.Headers.{IsClosed, process_l3_headers-Sensible}
use dram_pvt_mk.Katran.Process.{
  BalancerRun, ends, deliver, keyed, known_real, too_big, find_vip, number_vip, quic_route,
  count_miss, find_real, transmit, balance, process_l3_headers, process_packet, balancer_ingress,
  lru_cntrs, no_pckt, pkt_bytes,
}

too_big-IsClosed :
    (b : BuildFlags) (k : BalancerKernel) (m : BalancerMaps) (p : Packet) (is_ipv6 : Bool)
    → IsClosed (too_big b k m p is_ipv6).verdict
unfolding too_big send_icmp_too_big send_icmp4_too_big send_icmp6_too_big
too_big-IsClosed b k m p is_ipv6 = grind (arith, inl, inr)

transmit-IsClosed :
    (b : BuildFlags) (k : BalancerKernel) (m : BalancerMaps) (p : Packet) (is_ipv6 : Bool)
    (d : PacketDescription) (real : RealDefinition) (vip_num size : ℕ)
    → IsClosed (transmit b k m p is_ipv6 d real vip_num size).verdict
unfolding transmit
transmit-IsClosed b k m p is_ipv6 d real vip_num size = grind (arith, inl, inr)

get_packet_hash_total :
    (d : PacketDescription) (is_ipv6 : Bool) → Returns (λ _. Unit) (get_packet_hash d is_ipv6)
unfolding get_packet_hash
get_packet_hash_total d true =
    Returns-bind (λ _. Unit) (jhash (address_bytes d.flow.src) 16 32) _ (λ _ _. tt)
      (jhash_total (address_bytes d.flow.src) 16 32 (omega arith))
get_packet_hash_total d false = tt

-- The packet is dropped, or the pointer to the real is not NULL.
abbrev IsSafe : Found → Type 0
IsSafe r = (r.dropped ≡ true) ⊎ ((real : RealDefinition) × (r.real ≡ some real))

get_packet_dst-IsSafe :
    (k : BalancerKernel) (m : BalancerMaps) (d : PacketDescription) (vip : VipMeta) (is_ipv6 : Bool)
    → Returns IsSafe (get_packet_dst k m d vip is_ipv6)
unfolding get_packet_dst
get_packet_dst-IsSafe k m d vip is_ipv6 =
    elim (Option-cases (get_packet_hash (hashed d vip) is_ipv6)) [
      | inl e ↦ absurd (rw e at (get_packet_hash_total (hashed d vip) is_ipv6))
      | inr (hash, e) ↦ rw e (elim (Option-cases (m.ch_rings (place hash))) [
        | inl f ↦ rw f (inl refl)
        | inr (key, f) ↦ rw f (elim (Option-cases (m.reals key)) [
          | inl g ↦ rw g (inl refl)
          | inr (real, g) ↦ rw g (inr (real, refl))
        ])
      ])
    ]
  where
    place : ℕ → ℕ
    place hash = (127 * vip.vip_num + hash % 127) % 2 ^ 32

find_real-IsSafe :
    (k : BalancerKernel) (m : BalancerMaps) (is_ipv6 : Bool) (d : PacketDescription) (vip : VipMeta)
    → Returns IsSafe (find_real k m is_ipv6 d vip)
unfolding find_real
find_real-IsSafe k m is_ipv6 d vip =
    let old = known_real k m (keyed d vip) vip in
    elim (Option-cases old.real) [
      | inr (x, e) ↦ rw e (inr (x, e))
      | inl e ↦ rw e (elim (Option-cases (count_miss old.maps old.pckt)) [
        | inl f ↦ rw f (inl refl)
        | inr (n, f) ↦ rw f (
            Returns-bind IsSafe (get_packet_dst k n old.pckt vip is_ipv6) _ (λ _ s. s)
              (get_packet_dst-IsSafe k n old.pckt vip is_ipv6))
      ])
    ]

-- The packet is dropped, or sent out, or passed to the kernel unchanged, with all maps unchanged.
abbrev pub Outcome : BalancerMaps → Packet → BalancerRun → Type 0
Outcome m p r = IsClosed r.verdict ⊎ ((r.verdict ≡ xdp_pass) × (r.packet ≡ p) × (r.maps ≡ m))

deliver-Outcome :
    (b : BuildFlags) (k : BalancerKernel) (n m : BalancerMaps) (p : Packet) (is_ipv6 : Bool)
    (d : PacketDescription) (vip : VipMeta) (size : ℕ)
    → Returns (Outcome m p) (deliver b k n p is_ipv6 d vip size)
unfolding deliver
deliver-Outcome b k n m p is_ipv6 d vip size =
    let q = quic_route n p is_ipv6 d vip in
    elim (Bool-cases q.dropped) [
      | inl dropped ↦ rw dropped (inl (inl refl))
      | inr going ↦ rw going (elim (Option-cases q.real) [
        | inr (real, e) ↦
            rw e (inl (transmit-IsClosed b k q.maps p is_ipv6 q.pckt real vip.vip_num size))
        | inl e ↦ rw e (
            Returns-bind (Outcome m p) (find_real k q.maps is_ipv6 q.pckt vip) _ (λ r s. sent r s)
              (find_real-IsSafe k q.maps is_ipv6 q.pckt vip))
      ])
    ]
  where
    sent :
        (r : Found)
        → IsSafe r
        → Returns (Outcome m p) (
            if r.dropped
            then some (ends r.maps p xdp_drop)
            else (r.real >>= λ real.
                some (transmit b k r.maps p is_ipv6 r.pckt real vip.vip_num size)))
    sent r s = elim (Bool-cases r.dropped) [
      | inl dropped ↦ rw dropped (inl (inl refl))
      | inr going ↦ elim s [
        | inl dropped ↦ absurd (ground (arith, going, dropped))
        | inr (real, e) ↦
            rw (going, e)
              (inl (transmit-IsClosed b k r.maps p is_ipv6 r.pckt real vip.vip_num size))
      ]
    ]

balance-Outcome :
    (b : BuildFlags) (k : BalancerKernel) (m : BalancerMaps) (p : Packet) (is_ipv6 : Bool)
    (d : PacketDescription) (size : ℕ)
    → Returns (Outcome m p) (balance b k m p is_ipv6 d size)
unfolding balance
balance-Outcome b k m p is_ipv6 d size = elim (Option-cases (find_vip m.vip_map d)) [
  | inl e ↦ rw e (inr (refl, refl, refl))
  | inr (s, e) ↦ rw e (elim (Bool-cases (ltb max_pckt_size (length p))) [
    | inl big ↦ rw big (inl (too_big-IsClosed b k (number_vip m s) p is_ipv6))
    | inr small ↦ rw small (elim (Option-cases ((number_vip m s).stats lru_cntrs)) [
      | inl f ↦ rw f (inl (inl refl))
      | inr (c, f) ↦ rw f (deliver-Outcome b k _ m p is_ipv6 s.pckt _ size)
    ])
  ])
]

process_packet-Outcome :
    (b : BuildFlags) (k : BalancerKernel) (m : BalancerMaps) (p : Packet) (off : ℕ) (is_ipv6 : Bool)
    → Returns (Outcome m p) (process_packet b k m p off is_ipv6)
unfolding process_packet
process_packet-Outcome b k m p off is_ipv6 =
    let r = process_l3_headers p off is_ipv6 no_pckt in
    let proto = r.pckt.flow.proto in
    elim (Option-cases r.action) [
      | inr (v, e) ↦ rw e (elim (rw e at (process_l3_headers-Sensible p off is_ipv6 no_pckt)) [
        | inl closed ↦ inl closed
        | inr (v2, same) ↦ inr (v2, same, refl)
      ])
      | inl e ↦ rw e (elim (Bool-cases (proto == ipproto_tcp)) [
        | inl tcp ↦ rw tcp (parsed (parse_tcp p is_ipv6 r.pckt))
        | inr other ↦ rw other (elim (Bool-cases (proto == ipproto_udp)) [
          | inl udp ↦ rw udp (parsed (parse_udp p is_ipv6 r.pckt))
          | inr more ↦ rw more (inr (refl, refl, refl))
        ])
      ])
    ]
  where
    parsed :
        (o : Option PacketDescription)
        → Returns (Outcome m p) (
            or_return o
              (some (ends m p xdp_drop))
              λ d. balance b k m p is_ipv6 d (pkt_bytes p off is_ipv6))
    parsed none = inl (inl refl)
    parsed (some d) = balance-Outcome b k m p is_ipv6 d (pkt_bytes p off is_ipv6)

-- On every packet, with any maps and with every choice of the build flags, the balancer returns: the
-- loops of its hash end, and the real that it dereferences is never NULL. It drops the packet, sends it out, or passes it to the kernel,
-- and a packet that is passed is unchanged, as are all maps.
pub balancer_ingress-Outcome :
    (b : BuildFlags) (k : BalancerKernel) (m : BalancerMaps) (p : Packet)
    → Returns (Outcome m p) (balancer_ingress b k m p)
unfolding balancer_ingress
balancer_ingress-Outcome b k m p = elim (Bool-cases (ltb (length p) 14)) [
  | inl short ↦ rw short (inl (inl refl))
  | inr long ↦ rw long (elim (Bool-cases (half_at p 12 == be_eth_p_ip)) [
    | inl v4 ↦ rw v4 (process_packet-Outcome b k m p 14 false)
    | inr a ↦ rw a (elim (Bool-cases (half_at p 12 == be_eth_p_ipv6)) [
      | inl v6 ↦ rw v6 (process_packet-Outcome b k m p 14 true)
      | inr c ↦ rw c (inr (refl, refl, refl))
    ])
  ])
]
