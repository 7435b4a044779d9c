-- ===== src/Hash/Gather/Summary.antt =====
-- The summaries of the pointer chase are exact.
use dram_pvt_mk.Base.{
  ℕ, zero, suc, ◌<◌, ◌≡◌, ◌↔◌, refl, ap, ◌∙◌, arith, bit_and, bit_xor, ◌==◌, if◌then◌else◌, some,
  Option-cases, inl, inr,
}
use dram_pvt_mk.Base.Table.{Table}
use dram_pvt_mk.Base.Bits.{bit_xor-lt, bit_xor-zero, bit_xor_comm, bit_and_byte}
use dram_pvt_mk.Hash.Gather.{gather_loop, do_gather, GatherStub, GatherStubGen}

gather_loop-lt : (n : ℕ) (tbl : Table ℕ) (idx acc : ℕ) → acc < 256 → gather_loop n tbl idx acc < 256
unfolding gather_loop
gather_loop-lt zero tbl idx acc h = h
gather_loop-lt (suc n) tbl idx acc h = elim (Option-cases (tbl idx)) [
  | inl e ↦ rw e h
  | inr (v, e) ↦ rw e (
      gather_loop-lt n tbl (bit_and v 255) (bit_xor acc (bit_and v 255))
        (bit_xor-lt 8 acc (bit_and v 255) h (omega (arith, bit_and_byte v))))
]

gather_loop-some :
    (n : ℕ) (tbl : Table ℕ) (idx acc v : ℕ)
    → tbl idx ≡ some v
    → v < 256
    → gather_loop (suc n) tbl idx acc ≡ gather_loop n tbl v (bit_xor acc v)
unfolding gather_loop
gather_loop-some n tbl idx acc v e h =
    let mask : bit_and v 255 ≡ v = omega (arith, bit_and_byte v) in rw e (rw mask refl)

-- Every entry is there: the entry of `start` is `v`, every other one 0.
abbrev jump : ℕ → ℕ → Table ℕ
jump v start j = some (if j == start then v else 0)

-- From an entry 0 on, where entry 0 is 0 too, nothing is added.
gather_loop_idle :
    (n : ℕ) (tbl : Table ℕ) (idx acc : ℕ)
    → tbl idx ≡ some 0
    → tbl 0 ≡ some 0
    → gather_loop n tbl idx acc ≡ acc
unfolding gather_loop
gather_loop_idle zero tbl idx acc h z = refl
gather_loop_idle (suc n) tbl idx acc h z =
    rw (h, bit_xor-zero acc acc (omega arith)) (gather_loop_idle n tbl 0 acc z z)

-- A place that is neither 0 nor `v`.
abbrev other_than : ℕ → ℕ
other_than v = if v == 1 then 2 else 1

place : (v : ℕ) → bit_and (other_than v) 255 ≡ other_than v
place v = ground (arith, bit_and_byte (other_than v))

gather_loop-jump :
    (n v : ℕ) → v < 256 → gather_loop (suc n) (jump v (other_than v)) (other_than v) 0 ≡ v
gather_loop-jump n v h =
    let s = other_than v in
    let start : jump v s s ≡ some v = ground arith in
    let sum : bit_xor 0 v ≡ v = bit_xor_comm 0 v ∙ bit_xor-zero v v (omega arith) in
    let next : jump v s v ≡ some 0 = ground arith in
    let rest : jump v s 0 ≡ some 0 = ground arith in
    gather_loop-some n (jump v s) s 0 v start h
    ∙ ap (gather_loop n (jump v s) v) sum
    ∙ gather_loop_idle n (jump v s) v v next rest

-- For a chain of one entry or more, the two summaries admit exactly the results that some full table
-- and some start give.
pub do_gather-GatherStub_iff :
    (n v : ℕ)
    → (GatherStub v
        ↔ ((tbl : ℕ → ℕ) × (start : ℕ) × (do_gather (suc n) (λ k. some (tbl k)) start ≡ v)))
      × (GatherStubGen v ↔ GatherStub v)
unfolding do_gather
do_gather-GatherStub_iff n v = (
  (
    λ h.
        let mask : bit_and (other_than v) 255 ≡ other_than v = place v in
        (
          λ j. if j == other_than v then v else 0,
          other_than v,
          ap (λ i. gather_loop (suc n) (jump v (other_than v)) i 0) mask ∙ gather_loop-jump n v h,
        ),
    λ x.
        omega (
          arith,
          x.2,
          gather_loop-lt (suc n) (λ k. some (x.0 k)) (bit_and x.1 255) 0 (omega arith),
        ),
  ),
  (λ h. omega arith, λ h. omega arith),
)
