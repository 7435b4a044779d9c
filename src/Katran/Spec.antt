-- ===== src/Katran/Spec.antt =====
-- The specification of examples/katran/katran.c, which the driver has for its functional check.
use dram_pvt_mk.Base.{
  ℕ, ◌+◌, ◌%◌, ◌≤◌, ◌≡◌, refl, arith, inl, inr, not, ◌==◌, ltb-eq-false, if◌then◌else◌, Option,
  none, some, length, Bool-cases, bit_and, ==_iff, some_inj,
}
use dram_pvt_mk.Base.Bytes.{Packet, byte_at, half_at, Returns}
use dram_pvt_mk.Base.Xdp.{xdp_drop, xdp_tx}
use dram_pvt_mk.Katran.{BalancerMaps, BalancerKernel, BuildFlags, be_eth_p_ip, pckt_fragmented}
use dram_pvt_mk.Katran.Icmp.{parse_icmp, send_icmp_reply, swap_mac_and_send}
use dram_pvt_mk.Katran.Process.{process_l3_headers, process_packet, balancer_ingress}

-- `none` is XDP_ANY: the specification leaves the verdict open.
unfoldable pub spec : Packet → Option ℕ
spec p =
    if half_at p 12 == be_eth_p_ip
    then (if not (bit_and (half_at p 20) pckt_fragmented == 0)
        then some xdp_drop
        else if byte_at p 23 == 1
        then (if byte_at p 34 == 8 then some xdp_tx else none)
        else none)
    else none

-- The balancer meets the driver's specification with all maps unchanged, on packets of 42 bytes or
-- more whose IPv4 header has no options: it drops every IPv4 fragment and answers every echo
-- request.
pub balancer_ingress-spec :
    (b : BuildFlags) (k : BalancerKernel) (m : BalancerMaps) (p : Packet) (v : ℕ)
    → 42 ≤ length p
    → byte_at p 14 % 16 ≡ 5
    → spec p ≡ some v
    → Returns (λ r. (r.verdict ≡ v) × (r.maps ≡ m)) (balancer_ingress b k m p)
unfolding spec balancer_ingress process_packet process_l3_headers parse_icmp send_icmp_reply
    swap_mac_and_send
balancer_ingress-spec b k m p v long plain s =
    let l14 = ltb-eq-false (length p) 14 (omega arith) in
    let l34 = ltb-eq-false (length p) (14 + 20) (omega arith) in
    let l42 = ltb-eq-false (length p) (14 + 20 + 8) (omega arith) in
    let options = (==_iff (byte_at p 14 % 16) 5).1 plain in
    elim (Bool-cases (half_at p 12 == be_eth_p_ip)) [
      | inr other ↦ absurd (ground (arith, s, other))
      | inl ip ↦ elim (Bool-cases (bit_and (half_at p 20) pckt_fragmented == 0)) [
        | inr frag ↦ rw (l14, ip, l34, options, frag) (some_inj (rw (ip, frag) at s), refl)
        | inl whole ↦ elim (Bool-cases (byte_at p 23 == 1)) [
          | inr other ↦ absurd (ground (arith, s, ip, whole, other))
          | inl icmp ↦ elim (Bool-cases (byte_at p 34 == 8)) [
            | inr other ↦ absurd (ground (arith, s, ip, whole, icmp, other))
            | inl echo ↦
                rw (l14, ip, l34, options, whole, icmp, l42, echo)
                  (some_inj (rw (ip, whole, icmp, echo) at s), refl)
          ]
        ]
      ]
    ]
