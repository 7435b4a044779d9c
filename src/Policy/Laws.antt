-- ===== src/Policy/Laws.antt =====
-- What the packet policy example changes in a packet.
use dram_pvt_mk.Base.{ℕ, ◌≤◌, ◌≡◌, refl, ◌==◌, ltb, length, ◌<◌, ◌⊎◌, inl, inr, Bool-cases}
use dram_pvt_mk.Base.Bytes.{Packet, byte_at, word_at, le_bytes, byte_at-write_ne}
use dram_pvt_mk.Policy.{mark_packet}

-- No byte but the two of the total length changes.
mark_packet-ne :
    (p : Packet) (i : ℕ) → (i < 16) ⊎ (18 ≤ i) → byte_at (mark_packet p) i ≡ byte_at p i
unfolding mark_packet
mark_packet-ne p i h = elim (Bool-cases (ltb (length p) 14)) [
  | inl a ↦ rw a refl
  | inr a ↦ rw a (elim (Bool-cases (ltb (length p) 34)) [
    | inl b ↦ rw b refl
    | inr b ↦ rw b (elim (Bool-cases (word_at p 26 == 12345)) [
      | inl c ↦ rw c (byte_at-write_ne p 16 (le_bytes 2 100) i h)
      | inr c ↦ rw c refl
    ])
  ])
]
