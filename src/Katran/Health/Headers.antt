-- ===== src/Katran/Health/Headers.antt =====
-- The headers that the health checker puts in front of a packet.
use dram_pvt_mk.Base.{
  ℕ, ◌+◌, ◌-◌, ◌%◌, ◌^◌, ◌≤◌, ◌<◌, ◌==◌, ◌≡◌, arith, Bool, true, false, some, length, swap16, u16,
  Bool-cases, inl, inr, if◌then◌else◌,
}
use dram_pvt_mk.Base.Table.{Table}
use dram_pvt_mk.Base.Bytes.{
  Packet, byte_at, write, le_bytes, length-write, byte_at-write_below, byte_at-write_above,
}
use dram_pvt_mk.Checksum.Header.{Header4}
use dram_pvt_mk.Katran.{Address, RealDefinition}
use dram_pvt_mk.Katran.Encap.{create_v4_hdr, create_v6_hdr, create_udp_hdr}
use dram_pvt_mk.Katran.Health.{SkBuff}
use dram_pvt_mk.Katran.Health.Fields.{
  Header6, GueHeader, Header6-same, Header4-same, GueHeader-same, half_at-written, GueHeader-from,
  create_udp_hdr-GueHeader, create_v6_hdr-Header6, create_v4_hdr-Header4, byte_at-create_v4_hdr,
}

-- The length of the packet behind its Ethernet header, in 16 bits.
abbrev pub payload_of : SkBuff → ℕ
payload_of skb = (skb.len + 2 ^ 16 - 14) % 2 ^ 16

-- The headers in front of a packet: those of the build with or without GUE, to an IPv4 or an IPv6
-- real, from the source that is stored for this.
abbrev pub Headers : Bool → Table RealDefinition → SkBuff → RealDefinition → Bool → Packet → Type 0
Headers gue srcs skb real is_ipv6 r =
    let n = payload_of skb in
    let udp = (n + 8) % 65536 in
    (src : RealDefinition) × (if real.flags == 1
      then (srcs 1 ≡ some src)
        × (if gue
            then Header6 r udp 17 src.dst real.dst × GueHeader r 54 udp
            else Header6 r n (if is_ipv6 then 41 else 4) src.dst real.dst)
      else (srcs 0 ≡ some src)
        × (if gue
            then Header4 r 0 (swap16 (u16 (udp + 20))) 64 17 src.dst.w0 real.dst.w0
              × GueHeader r 34 udp
            else Header4 r 0 (swap16 (u16 (n + 20))) 64 4 src.dst.w0 real.dst.w0))

pub Headers-same :
    (gue : Bool) (srcs : Table RealDefinition) (skb : SkBuff) (real : RealDefinition)
    (is_ipv6 : Bool) (p r : Packet)
    → ((i : ℕ) → 12 ≤ i → byte_at r i ≡ byte_at p i)
    → Headers gue srcs skb real is_ipv6 p
    → Headers gue srcs skb real is_ipv6 r
Headers-same true srcs skb real is_ipv6 p r same (src, h) = elim (Bool-cases (real.flags == 1)) [
  | inl v6 ↦
      let (found, (a, b)) = rw v6 at h in
      rw v6 (
        src,
        (found, (Header6-same p r same _ _ _ _ a, GueHeader-same p r same 54 _ (omega arith) b)),
      )
  | inr v4 ↦
      let (found, (a, b)) = rw v4 at h in
      rw v4 (
        src,
        (
          found,
          (Header4-same p r same _ _ _ _ _ _ a, GueHeader-same p r same 34 _ (omega arith) b),
        ),
      )
]
Headers-same false srcs skb real is_ipv6 p r same (src, h) = elim (Bool-cases (real.flags == 1)) [
  | inl v6 ↦ let (found, a) = rw v6 at h in rw v6 (src, (found, Header6-same p r same _ _ _ _ a))
  | inr v4 ↦
      let (found, a) = rw v4 at h in rw v4 (src, (found, Header4-same p r same _ _ _ _ _ _ a))
]

-- The four ways to fill the room.
module _ (q : Packet) (saddr daddr : Address) (n sport : ℕ) where
  -- The Ethernet type and the IPv6 header.
  pub v6_packet-Header6 :
      (next : ℕ)
      → 54 ≤ length q
      → Header6
          (create_v6_hdr (write q 12 (le_bytes 2 56710)) 14 0 saddr daddr n next)
          n
          next
          saddr
          daddr
  v6_packet-Header6 next room =
      create_v6_hdr-Header6 (write q 12 (le_bytes 2 56710)) saddr daddr n next
        (omega (arith, length-write q 12 (le_bytes 2 56710)))
        (half_at-written q 12 (le_bytes 2 56710) 0 (omega arith) (omega arith))

  pub v6_gue-Header6 :
      62 ≤ length q
      → let u = create_udp_hdr (write q 12 (le_bytes 2 56710)) 54 sport 6080 n 0 in
        let r = create_v6_hdr u 14 0 saddr daddr n 17 in
        Header6 r n 17 saddr daddr × GueHeader r 54 n
  v6_gue-Header6 room =
      let t = write q 12 (le_bytes 2 56710) in
      let u = create_udp_hdr t 54 sport 6080 n 0 in
      let long : length t ≡ length q = length-write q 12 (le_bytes 2 56710) in
      let same : length u ≡ length t = unfold create_udp_hdr in length-write t 54 _ in
      let g = create_udp_hdr-GueHeader t 54 sport n (omega (arith, long)) in
      let below : (i : ℕ) → i < 54 → byte_at u i ≡ byte_at t i =
        λ i h. unfold create_udp_hdr in byte_at-write_below t 54 _ i h in
      let above : (i : ℕ)
          → 54 ≤ i
          → byte_at (create_v6_hdr u 14 0 saddr daddr n 17) i ≡ byte_at u i =
        λ i h. unfold create_v6_hdr in byte_at-write_above u 14 _ i h in
      (
        create_v6_hdr-Header6 u saddr daddr n 17 (omega (arith, same, long)) (
            omega (
              arith,
              below 12 (omega arith),
              below 13 (omega arith),
              half_at-written q 12 (le_bytes 2 56710) 0 (omega arith) (omega arith),
            )),
        GueHeader-from u (create_v6_hdr u 14 0 saddr daddr n 17) 54 above g,
      )

  pub v4_gue-Header4 :
      42 ≤ length q
      → let r = create_v4_hdr (create_udp_hdr q 34 sport 6080 n 0) 14 0 saddr.w0 daddr.w0 n 17 in
        Header4 r 0 (swap16 (u16 (n + 20))) 64 17 saddr.w0 daddr.w0 × GueHeader r 34 n
  v4_gue-Header4 room =
      let u = create_udp_hdr q 34 sport 6080 n 0 in
      let same : length u ≡ length q = unfold create_udp_hdr in length-write q 34 _ in
      let g = create_udp_hdr-GueHeader q 34 sport n (omega arith) in
      let long : 34 ≤ length u = omega (arith, same) in
      (
        create_v4_hdr-Header4 u saddr.w0 daddr.w0 n 17 long,
        GueHeader-from u (create_v4_hdr u 14 0 saddr.w0 daddr.w0 n 17) 34
            (λ i h. byte_at-create_v4_hdr u saddr.w0 daddr.w0 n 17 i long h) g,
      )
