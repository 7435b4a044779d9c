-- ===== src/Echo/Laws.antt =====
-- What an answer holds.
use dram_pvt_mk.Base.{
  ℕ, ◌+◌, ◌≤◌, ◌<◌, ◌≡◌, ◌≢◌, ◌⊎◌, refl, ◌∙◌, arith, length, Bool-cases, inl, inr, true, false,
}
use dram_pvt_mk.Base.Bytes.{Packet, byte_at, write, le_bytes, byte_at-write_ne}
use dram_pvt_mk.Base.Exchange.{exchange, exchanged, length-exchange, byte_at-exchange}
use dram_pvt_mk.Base.Xdp.{xdp_pass, xdp_tx}
use dram_pvt_mk.Echo.{ip_checksum, udph, ignored, answer, udp_echo}

-- The length that an answered packet has.
answered_length : (port : ℕ) (p : Packet) → ignored port p ≡ false → udph p + 8 ≤ length p
unfolding ignored
answered_length port p h = ground arith

-- Where a byte of the answer comes from, with an IP header of 20 bytes.
abbrev pub source_of : ℕ → ℕ
source_of i = exchanged 0 6 (exchanged 26 4 (exchanged 34 2 i))

byte_at-answer :
    (p : Packet) (i : ℕ)
    → udph p ≡ 34
    → 42 ≤ length p
    → (i < 24) ⊎ (26 ≤ i)
    → (i < 40) ⊎ (42 ≤ i)
    → byte_at (answer p) i ≡ byte_at p (source_of i)
unfolding answer
byte_at-answer p i e h a b =
    let p1 = exchange p 0 6 in
    let p2 = exchange p1 26 4 in
    let q = exchange p2 34 2 in
    let l1 = length-exchange p 0 6 in
    let l2 = length-exchange p1 26 4 in
    let z = write q 24 (le_bytes 2 0) in
    let c = write z 24 (le_bytes 2 (ip_checksum z 14)) in
    rw e (
      byte_at-write_ne c 40 (le_bytes 2 0) i b
      ∙ byte_at-write_ne z 24 (le_bytes 2 (ip_checksum z 14)) i a
      ∙ byte_at-write_ne q 24 (le_bytes 2 0) i a
      ∙ byte_at-exchange p2 34 2 (omega (arith, l1, l2)) i
      ∙ byte_at-exchange p1 26 4 (omega (arith, l1)) (exchanged 34 2 i)
      ∙ byte_at-exchange p 0 6 (omega arith) (exchanged 26 4 (exchanged 34 2 i)))

other_ignored :
    (port other : ℕ) (p : Packet) → port ≢ other → ignored port p ≡ false → ignored other p ≡ true
unfolding ignored
other_ignored port other p ne h = ground arith

-- A packet with an IP header of 20 bytes that the program of one port answers is passed unchanged by
-- that of another port. The answer is the packet with its hardware addresses, its IP addresses and
-- its ports exchanged, but for the two checksum fields.
pub udp_echo-source_of :
    (port other : ℕ) (p : Packet) (i : ℕ)
    → port ≢ other
    → (udp_echo port p).verdict ≡ xdp_tx
    → udph p ≡ 34
    → (i < 24) ⊎ (26 ≤ i)
    → (i < 40) ⊎ (42 ≤ i)
    → ((udp_echo other p).verdict ≡ xdp_pass)
      × ((udp_echo other p).packet ≡ p)
      × (byte_at (udp_echo port p).packet i ≡ byte_at p (source_of i))
unfolding udp_echo
udp_echo-source_of port other p i ne h e x y = elim (Bool-cases (ignored port p)) [
  | inl a ↦ absurd (ground (arith, h, a))
  | inr a ↦
      let b = other_ignored port other p ne a in
      rw (a, b) (refl, refl, byte_at-answer p i e (omega (arith, answered_length port p a, e)) x y)
]
