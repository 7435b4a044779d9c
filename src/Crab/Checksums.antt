-- ===== src/Crab/Checksums.antt =====
-- The two checksums of a rewritten SYN packet: fix_ip_check and fix_tcp_check.
use dram_pvt_mk.Base.{
  ℕ, zero, suc, ◌+◌, ◌*◌, ◌%◌, ◌^◌, ◌≤◌, ◌<◌, ◌≡◌, refl, ap, arith, [], ◌∷◌, length, Bool-cases,
  inl, inr, ltb, true, ltb-eq-false, swap16,
}
use dram_pvt_mk.Base.Bytes.{
  Packet, byte_at, half_at, write, le_bytes, byte_at-write_below, length-write,
}
use dram_pvt_mk.Checksum.Laws.{plain_sum}
use dram_pvt_mk.Checksum.Sums.{plain_sum-append, half_at-write, plain_sum-write}
use dram_pvt_mk.Crab.{
  Kernel, csum_reduce_helper, inverted, fix_ip_check, opt_loop, ipv4_psd_header, fix_tcp_check,
  max_opt_words,
}

-- What is relied on of `bpf_csum_diff`: it adds the words of the given bytes to the seed, up to
-- multiples of 65535, in 32 bits.
pub record CsumDiff (csum_diff : Packet → ℕ → ℕ → ℕ → ℕ) : Type 0 where
  pub sums :
      (p : Packet) (off n seed : ℕ)
      → off + 4 * n ≤ length p
      → csum_diff p off (4 * n) seed % 65535 ≡ (plain_sum p (2 * n) off + seed) % 65535
  pub bound : (p : Packet) (off n seed : ℕ) → csum_diff p off n seed < 2 ^ 32

-- Both folds together leave a 32-bit sum its remainder modulo 65535, in 16 bits.
pub csum_reduce_helper_lem :
    (csum : ℕ)
    → csum < 2 ^ 32
    → (csum_reduce_helper csum < 2 ^ 16) × (csum_reduce_helper csum % 65535 ≡ csum % 65535)
unfolding csum_reduce_helper
csum_reduce_helper_lem csum h = (omega arith, omega arith)

inverted-sum :
    (s csum : ℕ)
    → csum < 2 ^ 32
    → csum % 65535 ≡ s % 65535
    → (inverted csum < 65536) × ((s + inverted csum) % 65535 ≡ 0)
inverted-sum s csum h e =
    let r = csum_reduce_helper_lem csum h in (omega (arith, r.0), omega (arith, r.0, r.1, e))

cleared : Packet → ℕ → Packet
cleared p off = write p off (0 ∷ 0 ∷ [])

half_at-cleared : (p : Packet) (off : ℕ) → off + 2 ≤ length p → half_at (cleared p off) off ≡ 0
unfolding cleared
half_at-cleared p off h = half_at-write p off 0 h

ipv4_psd_header-eq :
    (p q : Packet)
    → ((i : ℕ) → i < 34 → byte_at q i ≡ byte_at p i)
    → ipv4_psd_header q ≡ ipv4_psd_header p
ipv4_psd_header-eq p q h =
    rw
      (
        h 16 (omega arith),
        h 17 (omega arith),
        h 26 (omega arith),
        h 27 (omega arith),
        h 28 (omega arith),
        h 29 (omega arith),
        h 30 (omega arith),
        h 31 (omega arith),
        h 32 (omega arith),
        h 33 (omega arith),
      )
      refl

-- The words from the TCP header on, with `words` 32-bit words behind the new option, and those of the
-- pseudo header as the code builds it.
abbrev code_sum : Packet → ℕ → ℕ
code_sum p words = plain_sum (ipv4_psd_header p) 6 0 + plain_sum p (14 + 2 * words) 34

-- The length of the TCP segment: the total length of the IP header less its 20 bytes.
abbrev pub segment_length : Packet → ℕ
segment_length p = (swap16 (half_at p 16) + 65516) % 65536

-- The sum that a receiver of the packet forms (RFC 793): the four words of the two addresses, the
-- protocol 6 and the length of the segment, in network order, and the words from the TCP header on.
abbrev pub tcp_sum : Packet → ℕ → ℕ
tcp_sum p words =
    plain_sum p 4 26 + 6 * 256 + swap16 (segment_length p) + plain_sum p (14 + 2 * words) 34

code_sum-eq-tcp_sum : (p : Packet) (words : ℕ) → code_sum p words ≡ tcp_sum p words
code_sum-eq-tcp_sum p words = omega arith

module _ (k : Kernel) (diff : CsumDiff k.csum_diff) where
  pub fix_ip_check-plain_sum :
      (p : Packet) → 34 ≤ length p → plain_sum (fix_ip_check k p) 10 14 % 65535 ≡ 0
  unfolding fix_ip_check cleared
  fix_ip_check-plain_sum p h =
      let z = cleared p 24 in
      let long : 34 ≤ length z = omega (arith, length-write p 24 (0 ∷ 0 ∷ [])) in
      let csum = k.csum_diff z 14 20 0 in
      let i =
        inverted-sum (plain_sum z 10 14) csum (diff.bound z 14 20 0)
          (omega (arith, diff.sums z 14 5 0 long)) in
      omega (
        arith,
        plain_sum-write z 5 4 14 (inverted csum) (omega arith) (half_at-cleared p 24 (omega arith))
            i.0,
        i.1,
      )

  opt_loop-bound :
      (n : ℕ) (p : Packet) (opt csum : ℕ) → csum < 2 ^ 32 → opt_loop k n p opt csum < 2 ^ 32
  unfolding opt_loop
  opt_loop-bound zero p opt csum h = h
  opt_loop-bound (suc n) p opt csum h = elim (Bool-cases (ltb (length p) (opt + 4))) [
    | inl short ↦ rw short h
    | inr long ↦ rw long (opt_loop-bound n p (opt + 4) _ (diff.bound p opt 4 csum))
  ]

  opt_loop_lem :
      (n words : ℕ) (p : Packet) (opt csum : ℕ)
      → words ≤ n
      → length p ≡ opt + 4 * words
      → opt_loop k n p opt csum % 65535 ≡ (plain_sum p (2 * words) opt + csum) % 65535
  unfolding opt_loop
  opt_loop_lem zero zero p opt csum h e = omega arith
  opt_loop_lem zero (suc words) p opt csum h e = absurd (omega arith)
  opt_loop_lem (suc n) zero p opt csum h e =
      let short : ltb (length p) (opt + 4) ≡ true = ground arith in rw short (omega arith)
  opt_loop_lem (suc n) (suc words) p opt csum h e =
      let long = ltb-eq-false (length p) (opt + 4) (omega arith) in
      let step = k.csum_diff p opt 4 csum in
      let two : 2 * suc words ≡ 2 + 2 * words = omega arith in
      rw (long, two)
        (omega (
          arith,
          opt_loop_lem n words p (opt + 4) step (omega arith) (omega arith),
          diff.sums p opt 1 csum (omega arith),
          plain_sum-append p 2 (2 * words) opt,
        ))

  code_sum-csum :
      (z : Packet) (words : ℕ)
      → words ≤ 10
      → length z ≡ 62 + 4 * words
      → let l = opt_loop k max_opt_words z 62 (k.csum_diff z 34 28 0) in
        k.csum_diff (ipv4_psd_header z) 0 12 (csum_reduce_helper l) % 65535
        ≡ code_sum z words % 65535
  code_sum-csum z words w len =
      let csum = k.csum_diff z 34 28 0 in
      let l = opt_loop k max_opt_words z 62 csum in
      omega (
        arith,
        diff.sums z 34 7 0 (omega arith),
        opt_loop_lem 10 words z 62 csum w len,
        (csum_reduce_helper_lem l (opt_loop-bound 10 z 62 csum (diff.bound z 34 28 0))).1,
        diff.sums (ipv4_psd_header z) 0 3 (csum_reduce_helper l) (omega arith),
        plain_sum-append z 14 (2 * words) 34,
      )

  pub fix_tcp_check-plain_sum :
      (p : Packet) (words : ℕ)
      → words ≤ 10
      → length p ≡ 62 + 4 * words
      → tcp_sum (fix_tcp_check k p) words % 65535 ≡ 0
  unfolding fix_tcp_check cleared
  fix_tcp_check-plain_sum p words w len =
      let z = cleared p 50 in
      let same : length z ≡ 62 + 4 * words = omega (arith, length-write p 50 (0 ∷ 0 ∷ [])) in
      let csum =
        k.csum_diff (ipv4_psd_header z) 0 12
          (csum_reduce_helper (opt_loop k max_opt_words z 62 (k.csum_diff z 34 28 0))) in
      let i =
        inverted-sum (code_sum z words) csum (diff.bound _ 0 12 _) (code_sum-csum z words w same) in
      let parts : 14 + 2 * words ≡ 8 + suc (5 + 2 * words) = omega arith in
      let q = write z 50 (le_bytes 2 (inverted csum)) in
      omega (
        arith,
        i.1,
        code_sum-eq-tcp_sum (write z 50 (le_bytes 2 (inverted csum))) words,
        ap (λ l. plain_sum l 6 0)
            (ipv4_psd_header-eq z q
              (λ j h. byte_at-write_below z 50 (le_bytes 2 (inverted csum)) j (omega arith))),
        plain_sum-write z 8 (5 + 2 * words) 34 (inverted csum) (omega arith)
            (half_at-cleared p 50 (omega arith)) i.0,
        ap (λ n. plain_sum z n 34) parts,
        ap (λ n. plain_sum q n 34) parts,
      )
