-- ===== src/Hash/Synth/Laws.antt =====
-- The stubs of the harness against the functions that they stand for.
use dram_pvt_mk.Base.{
  ℕ, zero, suc, ◌+◌, ◌-◌, ◌/◌, ◌%◌, ◌^◌, ◌≤◌, ◌<◌, ◌≡◌, refl, arith, List, [], ◌∷◌, true, ◌==◌, ltb,
  length, ◌∙◌, leb-eq-true, lt→ltb, Bool-cases, inl, inr,
}
use dram_pvt_mk.Hash.Synth.{
  ℤ, pos, negsuc, leb_int, eq_int, type_unknown, type_ack, type_request, classify_type, hash_loop,
  hash_payload, fold_round, fold_loop, fold_csum, Callees, TightStubs, RoughStubs, returned,
  failed_p1, failed_p2, failed_p3, main, real, is_valid_port, starts,
}
use dram_pvt_mk.Hash.Fnv.{fnv_step, fnv_offset_basis_32}

hash_loop-le : (n : ℕ) (key : List ℕ) (h i : ℕ) → (hash_loop n key h i).1 ≤ i + n
unfolding hash_loop
hash_loop-le zero key h i = omega arith
hash_loop-le (suc n) [] h i = omega arith
hash_loop-le (suc n) (c ∷ key) h i = ground (arith, hash_loop-le n key (fnv_step h c) (i + 1))

fold_round_lem :
    (c : ℕ)
    → c < 2 ^ 32
    → (fold_round c ≤ 131070)
      × ((c ≤ 131070 → fold_round c < 2 ^ 16))
      × (fold_round c % 65535 ≡ c % 65535)
unfolding fold_round
fold_round_lem c h = (ground arith, λ l. ground arith, ground arith)

-- Two folds are enough, and the sum keeps its remainder modulo 65535.
fold_loop_lem :
    (csum : ℕ)
    → csum < 2 ^ 32
    → (fold_loop 4 csum < 2 ^ 16) × (fold_loop 4 csum % 65535 ≡ csum % 65535)
unfolding fold_loop
fold_loop_lem csum h =
    let a = fold_round_lem csum h in
    let b = fold_round_lem (fold_round csum) (omega (arith, a.0)) in
    let x = b.1 a.0 in
    let c = fold_round_lem (fold_round (fold_round csum)) (omega (arith, x)) in
    let y = c.1 (omega (arith, x)) in
    let d = fold_round_lem (fold_round (fold_round (fold_round csum))) (omega (arith, y)) in
    (d.1 (omega (arith, y)), d.2 ∙ c.2 ∙ b.2 ∙ a.2)

fold_loop_idle : (n c : ℕ) → c < 2 ^ 16 → fold_loop n c ≡ c
unfolding fold_loop fold_round
fold_loop_idle zero c h = refl
fold_loop_idle (suc n) c h =
    let small : (c / 2 ^ 16 == 0) ≡ true = ground arith in rw small (fold_loop_idle n c h)

classify_type-range :
    (p : List ℕ)
    → (leb_int type_unknown (classify_type p) ≡ true) × (leb_int (classify_type p) type_ack ≡ true)
unfolding classify_type
classify_type-range p = elim (Bool-cases (ltb (length p) 4)) [
  | inl a ↦ rw a (refl, refl)
  | inr a ↦ rw a (elim (Bool-cases (starts p b'P' b'R' b'E' b'P')) [
    | inl b ↦ rw b (refl, refl)
    | inr b ↦ rw b (elim (Bool-cases (starts p b'R' b'E' b'Q' b'U')) [
      | inl c ↦ rw c (refl, refl)
      | inr c ↦ rw c (elim (Bool-cases (starts p b'A' b'C' b'K' b'_')) [
        | inl d ↦ rw d (refl, refl)
        | inr d ↦ rw d (refl, refl)
      ])
    ])
  ])
]

-- A checksum and the folded sum add up to zero in one's-complement arithmetic, and every 16-bit value
-- is the checksum of some sum, so that a stub with no assumption is exact.
pub fold_csum_lem :
    ((csum : ℕ) → csum < 2 ^ 32 → (fold_csum csum + csum) % 65535 ≡ 0)
    × ((v : ℕ) → v < 2 ^ 16 → fold_csum (65535 - v) ≡ v)
unfolding fold_csum
fold_csum_lem = (
  λ csum h. omega (arith, fold_loop_lem csum h),
  λ v h. omega (arith, fold_loop_idle 4 (65535 - v) (omega arith)),
)

-- The real functions are among those that the tight stubs admit.
pub real-TightStubs : TightStubs real
unfolding hash_payload fold_csum
real-TightStubs = record {
  type_low = λ p. (classify_type-range p).0;
  type_high = λ p. (classify_type-range p).1;
  len_low = λ key n. leb-eq-true 0 _ (omega arith);
  len_high = λ key n. leb-eq-true _ n (omega (arith, hash_loop-le n key fnv_offset_basis_32 0));
  index = λ key n. omega arith;
  csum = λ csum. omega arith;
}

-- Linked with any functions that the tight stubs admit, `main` returns: no assertion fails.
pub main-returned :
    (c : Callees) (payload : List ℕ) (src_port raw_csum : ℕ)
    → TightStubs c
    → main c payload src_port raw_csum ≡ returned
unfolding main
main-returned c payload src_port raw_csum s =
    let index = lt→ltb (c.hash_payload payload 8).index 16 (s.index payload 8) in
    rw (s.type_low payload, s.type_high payload)
      (elim (Bool-cases (leb_int (c.classify_type payload) type_unknown)) [
        | inl a ↦ rw a refl
        | inr a ↦ rw a (elim (Bool-cases (is_valid_port src_port)) [
          | inr b ↦ rw b refl
          | inl b ↦
              rw (b, index, s.len_low payload 8, s.len_high payload 8)
                (elim (Bool-cases (eq_int (c.classify_type payload) type_request)) [
                  | inl d ↦ rw (d, index) refl
                  | inr d ↦ rw d refl
                ])
        ])
      ])

abbrev stub : ℤ → ℕ → ℤ → Callees
stub type index klen = record {
  classify_type = λ p. type;
  hash_payload = λ key n. record { index = index; out_key_len = klen };
  fold_csum = λ csum. 0;
}

stub-RoughStubs : (type klen : ℤ) → RoughStubs (stub type 999 klen)
stub-RoughStubs type klen = record { index = λ key n. omega arith; csum = λ csum. omega arith }

-- The rough stubs let each of the three assertions fail, on every message and checksum, the
-- last two with every valid port: `c` ranges over what the types of C alone admit.
pub main-RoughStubs :
    (payload : List ℕ) (src_port raw_csum : ℕ)
    → is_valid_port src_port ≡ true
    → ((c : Callees) × RoughStubs c × (main c payload src_port raw_csum ≡ failed_p1))
      × ((c : Callees) × RoughStubs c × (main c payload src_port raw_csum ≡ failed_p2))
      × ((c : Callees) × RoughStubs c × (main c payload src_port raw_csum ≡ failed_p3))
unfolding main
main-RoughStubs payload src_port raw_csum valid = (
  (stub (pos 999) 999 (pos 0), stub-RoughStubs (pos 999) (pos 0), refl),
  (stub (pos 0) 999 (pos 0), stub-RoughStubs (pos 0) (pos 0), rw valid refl),
  (
    stub (pos 0) 5 (negsuc 0),
    record { index = λ key n. omega arith; csum = λ csum. omega arith },
    rw valid refl,
  ),
)

-- The assertions of the harness hold for the code that it was written for, and need more than the
-- types of C: linked with the functions of synth_expensive.c, `main` returns on every message and
-- checksum, with every valid port, and none of P1, P2 and P3 fails; with functions that the rough
-- stubs admit, which bound results by the types of C alone, each of the three can fail on each of
-- these inputs.
pub main-real :
    (payload : List ℕ) (src_port raw_csum : ℕ)
    → is_valid_port src_port ≡ true
    → (main real payload src_port raw_csum ≡ returned)
      × ((c : Callees) × RoughStubs c × (main c payload src_port raw_csum ≡ failed_p1))
      × ((c : Callees) × RoughStubs c × (main c payload src_port raw_csum ≡ failed_p2))
      × ((c : Callees) × RoughStubs c × (main c payload src_port raw_csum ≡ failed_p3))
main-real payload src_port raw_csum valid =
    let rough = main-RoughStubs payload src_port raw_csum valid in
    (main-returned real payload src_port raw_csum real-TightStubs, rough.0, rough.1, rough.2)
