-- ===== src/Forward/Laws.antt =====
-- What a forwarded IPv4 packet keeps.
use dram_pvt_mk.Base.{
  ℕ, ◌+◌, ◌%◌, ◌^◌, ◌≤◌, ◌<◌, ◌≡◌, ◌⊎◌, refl, ◌∙◌, arith, [], ◌∷◌, ltb, leb, if◌then◌else◌, length,
  IsBytes, Bool-cases, Option-cases, inl, inr, ltb-false→≤, ltb-eq-false, false, ==_iff,
}
use dram_pvt_mk.Base.Table.{Table}
use dram_pvt_mk.Base.Bytes.{
  Packet, byte_at, half_at, write, le_bytes, byte_at-write, byte_at-write_ne, length-write,
}
use dram_pvt_mk.Checksum.Laws.{plain_sum, half_at-lt, byte_at-lt}
use dram_pvt_mk.Checksum.Sums.{half_at-write}
use dram_pvt_mk.Forward.{ip_decrease_ttl, no_mac, redirect, xdp_fwd_flags}

-- The packet with one hop less, and with the hardware addresses of the forwarder.
abbrev sent : Packet → Packet
sent p = write (write (ip_decrease_ttl p) 0 no_mac) 6 no_mac

module _ (p : Packet) (room : 34 ≤ length p) where
  -- The bytes behind the hardware addresses but for the time to live and the checksum.
  sent-ne : (i : ℕ) → 12 ≤ i → (i < 22) ⊎ (i ≡ 23) ⊎ (26 ≤ i) → byte_at (sent p) i ≡ byte_at p i
  unfolding ip_decrease_ttl
  sent-ne i l h =
      byte_at-write_ne (write (ip_decrease_ttl p) 0 no_mac) 6 no_mac i (inr l)
      ∙ byte_at-write_ne (ip_decrease_ttl p) 0 no_mac i (inr (omega arith))
      ∙ byte_at-write_ne _ 22 _ i (elim h [
        | inl a ↦ inl a
        | inr (inl b) ↦ inr (omega arith)
        | inr (inr c) ↦ inr (omega arith)
      ])
      ∙ byte_at-write_ne p 24 _ i (elim h [
        | inl a ↦ inl (omega arith)
        | inr (inl b) ↦ inl (omega arith)
        | inr (inr c) ↦ inr c
      ])

  -- What the two hardware addresses leave of the decreased packet.
  readdressed-above : (i : ℕ) → 12 ≤ i → byte_at (sent p) i ≡ byte_at (ip_decrease_ttl p) i
  readdressed-above i l =
      byte_at-write_ne (write (ip_decrease_ttl p) 0 no_mac) 6 no_mac i (inr l)
      ∙ byte_at-write_ne (ip_decrease_ttl p) 0 no_mac i (inr (omega arith))

  sent-ttl : byte_at (sent p) 22 ≡ (byte_at p 22 + 255) % 256
  unfolding ip_decrease_ttl
  sent-ttl =
      readdressed-above 22 (omega arith)
      ∙ byte_at-write (write p 24 (le_bytes 2 new_check)) 22 (((byte_at p 22 + 255) % 256) ∷ []) 0
          (omega arith) (omega (arith, length-write p 24 (le_bytes 2 new_check)))
    where
      new_check : ℕ
      new_check = (half_at p 24 + 1 + (if leb 65535 (half_at p 24 + 1) then 1 else 0)) % 2 ^ 16

  sent-check :
      half_at (sent p) 24
      ≡ (half_at p 24 + 1 + (if leb 65535 (half_at p 24 + 1) then 1 else 0)) % 2 ^ 16
  unfolding ip_decrease_ttl
  sent-check =
      let c = (half_at p 24 + 1 + (if leb 65535 (half_at p 24 + 1) then 1 else 0)) % 2 ^ 16 in
      let q = write p 24 (le_bytes 2 c) in
      let t = ((byte_at p 22 + 255) % 256) ∷ [] in
      omega (
        arith,
        readdressed-above 24 (omega arith),
        readdressed-above 25 (omega arith),
        byte_at-write_ne q 22 t 24 (inr (omega arith)),
        byte_at-write_ne q 22 t 25 (inr (omega arith)),
        half_at-write p 24 c (omega arith),
      )

  module _ (bytes : IsBytes p) (alive : 1 < byte_at p 22) where
    sent-plain_sum : plain_sum (sent p) 10 14 % 65535 ≡ plain_sum p 10 14 % 65535
    sent-plain_sum =
        let low = λ (i : ℕ) (l : 12 ≤ i) (u : i < 22). sent-ne i l (inl u) in
        let high = λ (i : ℕ) (l : 26 ≤ i). sent-ne i (omega arith) (inr (inr l)) in
        ground (
          arith,
          low 14 (omega arith) (omega arith),
          low 15 (omega arith) (omega arith),
          low 16 (omega arith) (omega arith),
          low 17 (omega arith) (omega arith),
          low 18 (omega arith) (omega arith),
          low 19 (omega arith) (omega arith),
          low 20 (omega arith) (omega arith),
          low 21 (omega arith) (omega arith),
          sent-ttl,
          sent-ne 23 (omega arith) (inr (inl refl)),
          sent-check,
          high 26 (omega arith),
          high 27 (omega arith),
          high 28 (omega arith),
          high 29 (omega arith),
          high 30 (omega arith),
          high 31 (omega arith),
          high 32 (omega arith),
          high 33 (omega arith),
          byte_at-lt p 22 bytes,
          half_at-lt p 24 bytes,
        )

-- A packet with one hop less.
pub record Hop (p out : Packet) : Type 0 where
  pub ttl : byte_at out 22 + 1 ≡ byte_at p 22
  pub alive : 0 < byte_at out 22
  pub header : plain_sum out 10 14 % 65535 ≡ plain_sum p 10 14 % 65535
  pub rest : (i : ℕ) → 12 ≤ i → (i < 22) ⊎ (i ≡ 23) ⊎ (26 ≤ i) → byte_at out i ≡ byte_at p i

sent-Hop : (p : Packet) → 34 ≤ length p → IsBytes p → 1 < byte_at p 22 → Hop p (sent p)
sent-Hop p room bytes alive = record {
  ttl = omega (arith, sent-ttl p room, byte_at-lt p 22 bytes);
  alive = omega (arith, sent-ttl p room, byte_at-lt p 22 bytes);
  header = sent-plain_sum p room bytes alive;
  rest = sent-ne p room;
}

gt_one : (n : ℕ) → leb n 1 ≡ false → 1 < n
gt_one n h = ground arith

-- An IPv4 packet that is redirected leaves with a time to live that is one less and not 0, and with a
-- header whose words add up to what they did before in one's-complement arithmetic, so that a valid
-- checksum stays valid. Its bytes behind the hardware addresses are unchanged but for these two fields.
pub xdp_fwd_flags-Hop :
    (xdp_tx_ports : Table ℕ) (ingress_ifindex : ℕ) (p : Packet)
    → IsBytes p
    → half_at p 12 ≡ 8
    → (xdp_fwd_flags xdp_tx_ports ingress_ifindex p).verdict ≡ 4
    → Hop p (xdp_fwd_flags xdp_tx_ports ingress_ifindex p).packet
unfolding xdp_fwd_flags redirect
xdp_fwd_flags-Hop ports ingress p bytes ip h =
    let is_ip = (==_iff (half_at p 12) 8).1 ip in
    elim (Bool-cases (ltb (length p) 34)) [
      | inl short ↦ absurd (ground (arith, h, is_ip, short))
      | inr long ↦ elim (Bool-cases (leb (byte_at p 22) 1)) [
        | inl dead ↦ absurd (ground (arith, h, is_ip, long, dead))
        | inr alive ↦ elim (Option-cases (ports ingress)) [
          | inl f ↦ absurd (ground (arith, h, is_ip, long, alive, f))
          | inr (port, e) ↦
              let room = ltb-false→≤ (length p) 34 long in
              let whole : ltb (length p) 14 ≡ false =
                ltb-eq-false (length p) 14 (omega (arith, room)) in
              rw (whole, is_ip, long, alive, e)
                (sent-Hop p room bytes (gt_one (byte_at p 22) alive))
        ]
      ]
    ]
