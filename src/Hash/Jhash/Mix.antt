-- ===== src/Hash/Jhash/Mix.antt =====
-- The mixing step can be undone, so no two states of the hash are mixed into one.
use native.Mathlib.Nat.{div-le_self}
use dram_pvt_mk.Base.{
  ℕ, ◌-◌, ◌*◌, ◌/◌, ◌%◌, ◌^◌, ◌<◌, ◌≡◌, ◌∙◌, refl, sym, ap, arith, bit_xor, u32, add32, sub32,
}
use dram_pvt_mk.Base.Bits.{bit_xor_undo, bit_xor-lt, bit_or-lt}
use dram_pvt_mk.Hash.Jhash.{rol32, Words, mix_line, jhash_mix}

pub record IsWords (w : Words) : Type 0 where
  pub a_fits : w.a < 2 ^ 32
  pub b_fits : w.b < 2 ^ 32
  pub c_fits : w.c < 2 ^ 32

rol32-lt : (word k : ℕ) → word < 2 ^ 32 → rol32 word k < 2 ^ 32
unfolding rol32
rol32-lt word k h =
    bit_or-lt 32 (u32 (word * 2 ^ k)) (word / 2 ^ ((2 ^ 32 - k) % 32)) (omega arith)
      (omega (arith, h, div-le_self word (2 ^ ((2 ^ 32 - k) % 32))))

mix_line-IsWords : (k : ℕ) (w : Words) → IsWords w → IsWords (mix_line k w)
unfolding mix_line
mix_line-IsWords k w h = record {
  a_fits = h.b_fits;
  b_fits = omega arith;
  c_fits = bit_xor-lt 32 (sub32 w.a w.c) (rol32 w.c k) (omega arith) (rol32-lt w.c k h.c_fits);
}

pub jhash_mix-IsWords : (w : Words) → IsWords w → IsWords (jhash_mix w)
unfolding jhash_mix
jhash_mix-IsWords w h = mix_line-IsWords 4 _ (
    mix_line-IsWords 19 _ (
      mix_line-IsWords 16 _ (mix_line-IsWords 8 _ (mix_line-IsWords 6 _ (mix_line-IsWords 4 w h)))))

-- A line of the mixing step backwards.
unmix_line : ℕ → Words → Words
unmix_line k w =
    let z = sub32 w.b w.a in record { a = add32 (bit_xor w.c (rol32 z k)) z; b = w.a; c = z }

unmix_line-mix_line : (k : ℕ) (w : Words) → IsWords w → unmix_line k (mix_line k w) ≡ w
unfolding mix_line unmix_line
unmix_line-mix_line k w h =
    let z : sub32 (add32 w.c w.b) w.b ≡ w.c = omega (arith, h.c_fits, h.b_fits) in
    let x : add32 (sub32 w.a w.c) w.c ≡ w.a = omega (arith, h.a_fits, h.c_fits) in
    rw z (rw (bit_xor_undo (sub32 w.a w.c) (rol32 w.c k)) (rw x refl))

mix_line_cancel :
    (k : ℕ) (v w : Words) → IsWords v → IsWords w → mix_line k v ≡ mix_line k w → v ≡ w
mix_line_cancel k v w hv hw e =
    sym (unmix_line-mix_line k v hv) ∙ ap (unmix_line k) e ∙ unmix_line-mix_line k w hw

-- Two states of three 32-bit words that the mixing step takes to the same state are the same.
pub jhash_mix_cancel : (v w : Words) → IsWords v → IsWords w → jhash_mix v ≡ jhash_mix w → v ≡ w
unfolding jhash_mix
jhash_mix_cancel v w hv hw e =
    let v1 = mix_line-IsWords 4 v hv in
    let w1 = mix_line-IsWords 4 w hw in
    let v2 = mix_line-IsWords 6 _ v1 in
    let w2 = mix_line-IsWords 6 _ w1 in
    let v3 = mix_line-IsWords 8 _ v2 in
    let w3 = mix_line-IsWords 8 _ w2 in
    let v4 = mix_line-IsWords 16 _ v3 in
    let w4 = mix_line-IsWords 16 _ w3 in
    let v5 = mix_line-IsWords 19 _ v4 in
    let w5 = mix_line-IsWords 19 _ w4 in
    mix_line_cancel 4 _ _ hv hw (
      mix_line_cancel 6 _ _ v1 w1 (
        mix_line_cancel 8 _ _ v2 w2 (
          mix_line_cancel 16 _ _ v3 w3
            (mix_line_cancel 19 _ _ v4 w4 (mix_line_cancel 4 _ _ v5 w5 e)))))
