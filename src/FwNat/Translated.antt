-- ===== src/FwNat/Translated.antt =====
-- The packet that leaves the address translation, byte by byte.
use dram_pvt_mk.Base.{
  ℕ, ◌+◌, ◌%◌, ◌^◌, ◌≤◌, ◌<◌, ◌≡◌, ◌⊎◌, ◌∙◌, arith, false, inl, inr, length, List, IsBytes,
}
use dram_pvt_mk.Base.Bytes.{
  Packet, byte_at, half_at, write, le_bytes, length-write, byte_at-write, byte_at-write_above,
  byte_at-write_below,
}
use dram_pvt_mk.Checksum.Laws.{plain_sum, byte_at-lt}
use native.Mathlib.Decide.{dec_lt}
use dram_pvt_mk.FwNat.{NatMaps, not_ipv4, saddr, calculate_csum, translated}

long_enough : (p : Packet) → not_ipv4 p ≡ false → 34 ≤ length p
unfolding not_ipv4
long_enough p h = ground arith

-- The packet with its new source, before the checksum is stored.
abbrev readdressed : Packet → ℕ → Packet
readdressed p a = write p 26 (le_bytes 4 a)

module _ (m : NatMaps) (p : Packet) (a : ℕ) (ip : not_ipv4 p ≡ false) where
  byte_at-source :
      (k : ℕ)
      → k < 4
      → byte_at (translated m p a).packet (26 + k) ≡ byte_at (readdressed p a) (26 + k)
  unfolding translated
  byte_at-source k h =
      byte_at-write_above (readdressed p a) 24 (le_bytes 2 (calculate_csum (readdressed p a)))
        (26 + k) (omega arith)

  byte_at-readdressed :
      (k : ℕ) → k < 4 → byte_at (readdressed p a) (26 + k) ≡ byte_at (le_bytes 4 a) k
  byte_at-readdressed k h = byte_at-write p 26 (le_bytes 4 a) k h (omega (arith, long_enough p ip))

  pub saddr-translated : saddr (translated m p a).packet ≡ a % 2 ^ 32
  saddr-translated = omega (
    arith,
    byte_at-source 0,
    byte_at-source 1,
    byte_at-source 2,
    byte_at-source 3,
    byte_at-readdressed 0,
    byte_at-readdressed 1,
    byte_at-readdressed 2,
    byte_at-readdressed 3,
  )

  module _ (bytes : IsBytes p) where
    byte_at-translated_ne :
        (i : ℕ) → (i < 26) ⊎ (30 ≤ i) → byte_at (translated m p a).packet i ≡ byte_at p i
    unfolding translated calculate_csum
    byte_at-translated_ne i h = elim (dec_lt i 24) [
      | yes low ↦ byte_at-write_below q 24 sum i low ∙ byte_at-write_below p 26 _ i (omega arith)
      | no l ↦ elim h [
        | inr high ↦
            byte_at-write_above q 24 sum i (omega arith) ∙ byte_at-write_above p 26 _ i high
        | inl mid ↦ elim (dec_lt i 25) [
          | yes l' ↦
              let e : i ≡ 24 = omega arith in rw e (omega (arith, w 0, b 24, b 25, lt24, lt25))
          | no l' ↦
              let e : i ≡ 25 = omega arith in rw e (omega (arith, w 1, b 24, b 25, lt24, lt25))
        ]
      ]
    ]
      where
        q : Packet
        q = readdressed p a

        sum : List ℕ
        sum = le_bytes 2 (half_at q 24)

        b : (j : ℕ) → j < 26 → byte_at q j ≡ byte_at p j
        b j k = byte_at-write_below p 26 (le_bytes 4 a) j k

        w : (k : ℕ) → k < 2 → byte_at (write q 24 sum) (24 + k) ≡ byte_at sum k
        w k k2 =
            byte_at-write q 24 sum k k2
              (omega (arith, length-write p 26 (le_bytes 4 a), long_enough p ip))

        lt24 : byte_at p 24 < 256
        lt24 = byte_at-lt p 24 bytes

        lt25 : byte_at p 25 < 256
        lt25 = byte_at-lt p 25 bytes

    half_at-translated_ne :
        (i : ℕ) → (i < 25) ⊎ (30 ≤ i) → half_at (translated m p a).packet i ≡ half_at p i
    half_at-translated_ne i h = elim h [
      | inl low ↦ omega (
        arith,
        byte_at-translated_ne i (inl (omega arith)),
        byte_at-translated_ne (i + 1) (inl (omega arith)),
      )
      | inr high ↦ omega (
        arith,
        byte_at-translated_ne i (inr high),
        byte_at-translated_ne (i + 1) (inr (omega arith)),
      )
    ]

    -- The header's sum changes by the address alone.
    pub plain_sum-translated :
        plain_sum (translated m p a).packet 10 14 + half_at p 26 + half_at p 28
        ≡ plain_sum p 10 14
          + half_at (translated m p a).packet 26
          + half_at (translated m p a).packet 28
    plain_sum-translated =
        let e = λ (i : ℕ) (h : i < 25). half_at-translated_ne i (inl h) in
        omega (
          arith,
          e 14,
          e 16,
          e 18,
          e 20,
          e 22,
          e 24,
          half_at-translated_ne 30 (inr (omega arith)),
          half_at-translated_ne 32 (inr (omega arith)),
        )

pub length-translated :
    (m : NatMaps) (p : Packet) (a : ℕ) → length (translated m p a).packet ≡ length p
unfolding translated
length-translated m p a = length-write (readdressed p a) 24 _ ∙ length-write p 26 (le_bytes 4 a)

pub not_ipv4-translated :
    (m : NatMaps) (p : Packet) (a : ℕ)
    → IsBytes p
    → not_ipv4 p ≡ false
    → not_ipv4 (translated m p a).packet ≡ false
unfolding not_ipv4
not_ipv4-translated m p a bytes ip =
    rw
      (
        length-translated m p a,
        byte_at-translated_ne m p a ip bytes 12 (inl (omega arith)),
        byte_at-translated_ne m p a ip bytes 13 (inl (omega arith)),
      )
      ip
