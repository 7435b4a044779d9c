-- ===== src/Hash/Crc16/Summary.antt =====
-- The summary in examples/crc_hash/crc16_stub.c: the stub admits the results up to 255.
use dram_pvt_mk.Base.{
  ℕ, zero, suc, ◌≤◌, ◌<◌, ◌^◌, List, [], ◌∷◌, ◌≡◌, ◌↔◌, refl, arith, ◌==◌, leb, ◌||◌, ◌⊎◌, same,
  true, take,
}
use dram_pvt_mk.Base.Bits.{passes, passes_at}
use dram_pvt_mk.Hash.Crc16.{crc_step, crc_loop, crc16, crc_len}

abbrev pub Crc16Stub : ℕ → Type 0
Crc16Stub result = result ≤ 255

one_byte_table : passes (λ b. same (leb (crc16 (b ∷ [])) 255) (b == 14 || b == 135)) 256 ≡ true
unfolding passes crc16
one_byte_table = refl

-- Of the buffers of one byte, the stub of `crc16` admits the checksum of the bytes 14 and 135 alone: it is
-- no sound summary of the function.
pub crc16-Crc16Stub_iff : (b : ℕ) → b < 256 → Crc16Stub (crc16 (b ∷ [])) ↔ ((b ≡ 14) ⊎ (b ≡ 135))
crc16-Crc16Stub_iff b p =
    let t = passes_at _ b p one_byte_table in (λ h. ground (arith, t), λ h. ground (arith, t))

crc_loop-lt : (n : ℕ) (buf : List ℕ) (crc : ℕ) → crc < 2 ^ 16 → crc_loop n buf crc < 2 ^ 16
unfolding crc_loop crc_step
crc_loop-lt zero buf crc h = h
crc_loop-lt (suc n) [] crc h = h
crc_loop-lt (suc n) (byte ∷ buf) crc h = crc_loop-lt n buf (crc_step crc byte) (omega arith)

crc_loop-take : (n : ℕ) (buf : List ℕ) (crc : ℕ) → crc_loop n (take n buf) crc ≡ crc_loop n buf crc
unfolding crc_loop
crc_loop-take zero buf crc = refl
crc_loop-take (suc n) [] crc = refl
crc_loop-take (suc n) (byte ∷ buf) crc = crc_loop-take n buf (crc_step crc byte)

-- The checksum is a 16-bit value, and only the first 32 bytes of the buffer go into it.
pub crc16-bounds : (buf : List ℕ) → (crc16 buf < 2 ^ 16) × (crc16 (take crc_len buf) ≡ crc16 buf)
unfolding crc16
crc16-bounds buf = (crc_loop-lt 32 buf 0xFFFF (omega arith), crc_loop-take 32 buf 0xFFFF)
