-- ===== src/Katran/Encap/Decap.antt =====
-- What decapsulation leaves of a packet with outer headers.
use dram_pvt_mk.Base.{
  ℕ, ◌+◌, ◌%◌, ◌^◌, ◌≤◌, ◌<◌, ◌≡◌, ◌∙◌, ap, arith, inl, inr, List, true, some, Option-cases, length,
  get_or,
}
use dram_pvt_mk.Base.Adjust.{ShrinkHead}
use dram_pvt_mk.Base.Bytes.{
  Packet, byte_at, half_at, bytes_from, get_or-bytes_from, length-bytes_from, write, le_bytes,
  length-write, byte_at-write, byte_at-write_below, byte_at-write_above,
}
use dram_pvt_mk.Checksum.Sums.{half_at-write}
use dram_pvt_mk.Katran.{BalancerKernel}
use dram_pvt_mk.Katran.Encap.{decap}
use dram_pvt_mk.Base.Outer.{Outer}

-- `r` is `p` with a new Ethernet header.
pub record Restored (p r : Packet) (mac : List ℕ) (proto : ℕ) : Type 0 where
  pub size : length r ≡ length p
  pub dest : (i : ℕ) → i < 6 → byte_at r i ≡ get_or mac i 0
  pub source : (i : ℕ) → i < 6 → byte_at r (6 + i) ≡ byte_at p i
  pub kind : half_at r 12 ≡ proto % 2 ^ 16
  pub rest : (i : ℕ) → 14 ≤ i → byte_at r i ≡ byte_at p i

module _ (k : BalancerKernel) (shrinks : ShrinkHead k.shrink_head) (n : ℕ) (p r : Packet)
    (mac : List ℕ) (proto : ℕ) (long : 14 ≤ n) (wide : 14 ≤ length p) (o : Outer n p r mac) where
  b : Packet
  b = write r (n + 6) (bytes_from r 6 6)

  c : Packet
  c = write b n (bytes_from b 0 6)

  cut : Packet
  cut = write c (n + 12) (le_bytes 2 proto)

  size_first : length (bytes_from r 6 6) ≡ 6
  size_first = length-bytes_from r 6 6 (omega (arith, o.size))

  size_b : length b ≡ length r
  unfolding b
  size_b = length-write r (n + 6) _

  size_second : length (bytes_from b 0 6) ≡ 6
  size_second = length-bytes_from b 0 6 (omega (arith, o.size, size_b))

  size_c : length c ≡ length r
  unfolding c
  size_c = length-write b n _ ∙ size_b

  size_cut : length cut ≡ length r
  unfolding cut
  size_cut = length-write c (n + 12) _ ∙ size_c

  cut_rest : (i : ℕ) → 14 ≤ i → byte_at cut (n + i) ≡ byte_at p i
  unfolding cut c b
  cut_rest i h =
      byte_at-write_above c (n + 12) (le_bytes 2 proto) (n + i) (omega arith)
      ∙ byte_at-write_above b n _ (n + i) (omega (arith, size_second))
      ∙ byte_at-write_above r (n + 6) _ (n + i) (omega (arith, size_first))
      ∙ o.inner i h

  cut_dest : (i : ℕ) → i < 6 → byte_at cut (n + i) ≡ get_or mac i 0
  unfolding cut c b
  cut_dest i h =
      byte_at-write_below c (n + 12) (le_bytes 2 proto) (n + i) (omega arith)
      ∙ byte_at-write b n _ i (omega (arith, size_second))
          (omega (arith, size_second, size_b, o.size))
      ∙ get_or-bytes_from b 0 6 i h
      ∙ ap (byte_at b) (omega arith)
      ∙ byte_at-write_below r (n + 6) _ i (omega arith)
      ∙ o.dest i h

  cut_source : (i : ℕ) → i < 6 → byte_at cut (n + (6 + i)) ≡ byte_at p i
  unfolding cut c b
  cut_source i h =
      let place : n + (6 + i) ≡ n + 6 + i = omega arith in
      byte_at-write_below c (n + 12) (le_bytes 2 proto) (n + (6 + i)) (omega arith)
      ∙ byte_at-write_above b n _ (n + (6 + i)) (omega (arith, size_second))
      ∙ ap (byte_at b) place
      ∙ byte_at-write r (n + 6) _ i (omega (arith, size_first)) (omega (arith, size_first, o.size))
      ∙ get_or-bytes_from r 6 6 i h
      ∙ o.source i h

  cut_kind : half_at cut (n + 12) ≡ proto % 2 ^ 16
  unfolding cut
  cut_kind = half_at-write c (n + 12) proto (omega (arith, size_c, o.size))

  cut-Restored : (q : Packet) → k.shrink_head cut n ≡ some q → Restored p q mac proto
  cut-Restored q e = record {
    size = omega (arith, shrinks.shrinks cut q n e, size_cut, o.size);
    dest = λ i h. shrinks.cuts cut q n i e ∙ cut_dest i h;
    source = λ i h. shrinks.cuts cut q n (6 + i) e ∙ cut_source i h;
    kind = omega (
      arith,
      shrinks.cuts cut q n 12 e,
      shrinks.cuts cut q n 13 e,
      cut_kind,
      ap (byte_at cut) (thirteen n),
    );
    rest = λ i h. shrinks.cuts cut q n i e ∙ cut_rest i h;
  }
    where
      thirteen : (j : ℕ) → j + 12 + 1 ≡ j + 13
      thirteen j = omega arith

  pub decap-Restored :
      (decap k r n proto).moved ≡ true → Restored p (decap k r n proto).packet mac proto
  unfolding decap cut c b
  decap-Restored h = elim (Option-cases (k.shrink_head cut n)) [
    | inl e ↦ absurd (ground (arith, h, e))
    | inr (q, e) ↦ rw e (cut-Restored q e)
  ]
