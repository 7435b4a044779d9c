-- ===== src/Hash/Crc16/Reference.antt =====
-- CRC-16/CCITT by polynomial division, bit by bit, and the table as eight such steps.
use dram_pvt_mk.Base.{
  ℕ, zero, suc, ◌+◌, ◌*◌, ◌/◌, ◌%◌, ◌^◌, ◌≤◌, ◌<◌, bit_and, bit_xor, u16, get_or, ◌≡◌, refl, arith,
  ◌==◌, true, same, ◌||◌, ltb, ltb→lt, ◌↔◌, ◌⊎◌, if◌then◌else◌, leb, ==_iff, ap, ◌∙◌,
}
use dram_pvt_mk.Base.Bits.{
  passes, passes_at, bit_and_byte, bit_xor_high, bit_xor_low, bit_xor-lt, bit_xor_comm,
  bit_xor_cancel,
}
use dram_pvt_mk.Hash.Crc16.{crc_table, crc_step}

-- One bit of the division: shift out the top bit, and subtract the polynomial if it was set.
unfoldable pub crc_bit : ℕ → ℕ
crc_bit s = if leb 0x8000 s then bit_xor (u16 (s * 2)) 0x1021 else s * 2

unfoldable pub crc_bits : ℕ → ℕ → ℕ
crc_bits zero s = s
crc_bits (suc n) s = crc_bits n (crc_bit s)

-- The low byte of a state only moves up during eight steps.
low_byte_table :
    passes
      (λ h. passes (λ l. crc_bits 8 (h * 256 + l) == bit_xor (crc_bits 8 (h * 256)) (l * 256)) 256)
      256
    ≡ true
unfolding passes crc_bits crc_bit
low_byte_table = refl

low_byte :
    (h l : ℕ)
    → h < 256
    → l < 256
    → crc_bits 8 (h * 256 + l) ≡ bit_xor (crc_bits 8 (h * 256)) (l * 256)
low_byte h l p q = (==_iff _ _).0 (passes_at _ l q (passes_at _ h p low_byte_table))

-- The rows of the table that are not those of the polynomial.
abbrev pub WrongRow : ℕ → Type 0
WrongRow i = (0x40 ≤ i) × (i < 0x80)

row_table :
    passes (λ i. same (get_or crc_table i 0 == crc_bits 8 (i * 256)) (ltb i 0x40 || leb 0x80 i)) 256
    ≡ true
unfolding passes crc_bits crc_bit
row_table = refl

row_bound_table : passes (λ i. ltb (get_or crc_table i 0) 65536) 256 ≡ true
unfolding passes
row_bound_table = refl

-- The table holds the remainder of `i * 2 ^ 8` by the polynomial 0x1021 except in the rows 0x40 to
-- 0x7f.
row_iff :
    (i : ℕ) → i < 256 → (get_or crc_table i 0 ≡ crc_bits 8 (i * 256)) ↔ ((i < 0x40) ⊎ (0x80 ≤ i))
row_iff i p =
    let t = passes_at _ i p row_table in
    let e = ==_iff (get_or crc_table i 0) (crc_bits 8 (i * 256)) in
    (λ h. ground (arith, t, e), λ h. ground (arith, t, e))

-- One round of the code and eight steps of the division, over the same row of the table.
crc_step_lem :
    (crc byte : ℕ)
    → crc < 2 ^ 16
    → byte < 256
    → crc_step crc byte ≡ bit_xor (crc % 256 * 256) (get_or crc_table (bit_xor (crc / 256) byte) 0)
unfolding crc_step
crc_step_lem crc byte p q =
    let i = bit_xor (crc / 256) byte in
    let below : i < 256 = bit_xor-lt 8 (crc / 256) byte (omega arith) q in
    let mask : bit_and i 255 ≡ i = omega (arith, bit_and_byte i) in
    let entry : get_or crc_table i 0 < 65536 = ltb→lt _ _ (passes_at _ i below row_bound_table) in
    let split : crc * 256 ≡ crc / 256 * 65536 + crc % 256 * 256 = omega arith in
    rw
      (
        mask,
        split,
        bit_xor_low 16 (crc / 256) (get_or crc_table i 0) (crc % 256 * 256) (omega arith) entry,
      )
      (omega (arith, bit_xor-lt 16 (crc % 256 * 256) (get_or crc_table i 0) (omega arith) entry))

crc_bits_lem :
    (crc byte : ℕ)
    → crc < 2 ^ 16
    → byte < 256
    → crc_bits 8 (bit_xor crc (byte * 256))
      ≡ bit_xor (crc_bits 8 (bit_xor (crc / 256) byte * 256)) (crc % 256 * 256)
crc_bits_lem crc byte p q =
    let i = bit_xor (crc / 256) byte in
    let state : bit_xor crc (byte * 256) ≡ i * 256 + crc % 256 =
      ap (λ (t : ℕ). bit_xor t (byte * 256)) {x = crc} {y = crc / 256 * 256 + crc % 256}
        (omega arith)
      ∙ bit_xor_high 8 (crc / 256) byte (crc % 256) (omega arith) in
    rw state (low_byte i (crc % 256) (bit_xor-lt 8 (crc / 256) byte (omega arith) q) (omega arith))

-- A round of `crc16` on the byte `byte` does what eight steps of the division by the CCITT
-- polynomial do, exactly when the row of the table that it uses, the high byte of the state
-- exclusive-or `byte`, lies outside 0x40 to 0x7f.
pub crc_step-eq-crc_bits_iff :
    (crc byte : ℕ)
    → crc < 2 ^ 16
    → byte < 256
    → (crc_step crc byte ≡ crc_bits 8 (bit_xor crc (byte * 256)))
      ↔ ((bit_xor (crc / 256) byte < 0x40) ⊎ (0x80 ≤ bit_xor (crc / 256) byte))
crc_step-eq-crc_bits_iff crc byte p q =
    let i = bit_xor (crc / 256) byte in
    let rows = row_iff i (bit_xor-lt 8 (crc / 256) byte (omega arith) q) in
    let code = crc_step_lem crc byte p q in
    let division = crc_bits_lem crc byte p q in
    let l = crc % 256 * 256 in
    let t = get_or crc_table i 0 in
    let r = crc_bits 8 (i * 256) in
    (
      λ h. rows.0 (bit_xor_cancel t r l (cc (code, division, bit_xor_comm l t, h))),
      λ h. cc (code, division, bit_xor_comm l t, rows.1 h),
    )
