-- ===== src/Katran/Csum/Laws.antt =====
-- The fold of a checksum, the stub that stands in for it, and the checksum of an IPv4 header.
use dram_pvt_mk.Base.{
  ℕ, zero, suc, ◌+◌, ◌*◌, ◌-◌, ◌%◌, ◌^◌, ◌≤◌, ◌<◌, ◌≡◌, ◌↔◌, arith, IsBytes, length,
}
use dram_pvt_mk.Base.Bytes.{Packet, half_at, write, le_bytes}
use dram_pvt_mk.Checksum.Laws.{plain_sum, plain_sum-le}
use dram_pvt_mk.Checksum.Sums.{plain_sum-write}
use dram_pvt_mk.Katran.Csum.{fold_step, csum_fold_helper, CsumFoldStub, sum_u16, ipv4_csum_inline}

fold_step_lem :
    (csum b : ℕ)
    → 1 ≤ b
    → csum ≤ 65536 * b + 65534
    → (fold_step csum % 65535 ≡ csum % 65535) × (fold_step csum ≤ b + 65534)
unfolding fold_step
fold_step_lem csum b one h = (ground arith, ground arith)

-- Four rounds fold every 64-bit sum: the result is the complement of it in one's-complement
-- arithmetic, in 16 bits.
pub csum_fold_helper_lem :
    (csum : ℕ)
    → csum < 2 ^ 64
    → (csum_fold_helper csum < 2 ^ 16) × ((csum + csum_fold_helper csum) % 65535 ≡ 0)
unfolding csum_fold_helper
csum_fold_helper_lem csum h =
    let a = fold_step csum in
    let b = fold_step a in
    let c = fold_step b in
    let one = fold_step_lem csum (2 ^ 48) (omega arith) (omega arith) in
    let two = fold_step_lem a (2 ^ 32) (omega arith) (omega (arith, one.1)) in
    let three = fold_step_lem b (2 ^ 16) (omega arith) (omega (arith, two.1)) in
    let four = fold_step_lem c 1 (omega arith) (omega (arith, three.1)) in
    (omega arith, omega (arith, one.0, two.0, three.0, four.0, four.1))

fold_step-small : (csum : ℕ) → csum < 65536 → fold_step csum ≡ csum
unfolding fold_step
fold_step-small csum h = ground arith

-- A result of the function, for some 64-bit sum.
abbrev pub IsFolded : ℕ → Type 0
IsFolded r = (csum : ℕ) × (csum < 2 ^ 64) × (csum_fold_helper csum ≡ r)

reached : (r : ℕ) → r ≤ 65535 → csum_fold_helper (65535 - r) ≡ r
unfolding csum_fold_helper
reached r h = let e = fold_step-small (65535 - r) (omega arith) in rw (e, e, e, e) (omega arith)

-- Four rounds fold every 64-bit sum completely: the sum and the result add up to zero in
-- one's-complement arithmetic. The generated stub is exact: it admits the results of the function
-- and nothing else.
pub csum_fold_helper-CsumFoldStub :
    (csum r : ℕ)
    → csum < 2 ^ 64
    → ((csum + csum_fold_helper csum) % 65535 ≡ 0) × (IsFolded r ↔ CsumFoldStub r)
csum_fold_helper-CsumFoldStub csum r h = (
  (csum_fold_helper_lem csum h).1,
  (
    λ (other, small, e). omega (arith, (csum_fold_helper_lem other small).0),
    λ g. (65535 - r, omega arith, reached r g),
  ),
)

sum_u16_lem :
    (n : ℕ) (p : Packet) (off csum : ℕ)
    → csum + plain_sum p n off < 2 ^ 64
    → sum_u16 n p off csum ≡ csum + plain_sum p n off
unfolding sum_u16
sum_u16_lem zero p off csum h = omega arith
sum_u16_lem (suc n) p off csum h =
    omega (arith, sum_u16_lem n p (off + 2) ((csum + half_at p off) % 2 ^ 64) (omega arith))

pub ipv4_csum_inline_lem :
    (p : Packet) (iph : ℕ)
    → IsBytes p
    → (ipv4_csum_inline p iph < 2 ^ 16)
      × ((plain_sum p 10 iph + ipv4_csum_inline p iph) % 65535 ≡ 0)
unfolding ipv4_csum_inline
ipv4_csum_inline_lem p iph h =
    let small = plain_sum-le p 10 iph h in
    let e = sum_u16_lem 10 p iph 0 (omega arith) in
    let r = csum_fold_helper_lem (sum_u16 10 p iph 0) (omega arith) in (r.0, omega (arith, e, r.1))

-- A header whose cleared checksum field takes the value of the function.
pub plain_sum-ipv4_csum_inline :
    (p : Packet) (iph : ℕ)
    → IsBytes p
    → iph + 20 ≤ length p
    → half_at p (iph + 10) ≡ 0
    → plain_sum (write p (iph + 10) (le_bytes 2 (ipv4_csum_inline p iph))) 10 iph % 65535 ≡ 0
plain_sum-ipv4_csum_inline p iph h room clear =
    let r = ipv4_csum_inline_lem p iph h in
    omega (
      arith,
      r.1,
      plain_sum-write p 5 4 iph (ipv4_csum_inline p iph) (omega arith) clear (omega (arith, r.0)),
    )
