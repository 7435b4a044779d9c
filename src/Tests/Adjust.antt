-- ===== src/Tests/Adjust.antt =====
-- A `bpf_xdp_adjust_head` that always makes room, filled with zeros, and cuts off what is there.
use dram_pvt_mk.Base.{
  ℕ, zero, suc, ◌+◌, ◌≡◌, refl, sym, ap, ◌∙◌, arith, inl, inr, List, [], ◌∷◌, ◌++◌, length, Option,
  none, some, some_inj, length-append, get_or-append_right, drop, length-drop, get_or-drop, ltb,
  if◌then◌else◌, Bool-cases, ltb-false→≤, ltb-eq-false, ◌≤◌,
}
use dram_pvt_mk.Base.Adjust.{AdjustHead, ShrinkHead}
use dram_pvt_mk.Base.Bytes.{Packet, byte_at}

unfoldable pub zeros : ℕ → List ℕ
zeros zero = []
zeros (suc n) = 0 ∷ zeros n

length-zeros : (n : ℕ) → length (zeros n) ≡ n
unfolding zeros
length-zeros zero = refl
length-zeros (suc n) = ap suc (length-zeros n)

unfoldable pub grow : Packet → ℕ → Option Packet
unfolding zeros
grow p n = some (zeros n ++ p)

pub grow-AdjustHead : AdjustHead grow
unfolding grow
grow-AdjustHead = record {
  grows = λ p q n e.
      ap length (sym (some_inj e))
      ∙ length-append (zeros n) p
      ∙ ap (λ l. l + length p) (length-zeros n);
  keeps = λ p q n i e.
      ap (λ r. byte_at r (n + i)) (sym (some_inj e))
      ∙ get_or-append_right (zeros n) p (n + i) 0 (omega (arith, length-zeros n))
      ∙ ap (byte_at p) (omega (arith, length-zeros n));
}

unfoldable pub shrink : Packet → ℕ → Option Packet
shrink p n = if ltb (length p) n then none else some (drop n p)

pub shrink-ShrinkHead : ShrinkHead shrink
unfolding shrink
shrink-ShrinkHead = record {
  shrinks = λ p q n e. elim (Bool-cases (ltb (length p) n)) [
    | inl short ↦ absurd (ground (arith, e, short))
    | inr long ↦
        let is = ap length (some_inj (rw long at e)) in
        omega (arith, is, length-drop n p, ltb-false→≤ (length p) n long)
  ];
  cuts = λ p q n i e. elim (Bool-cases (ltb (length p) n)) [
    | inl short ↦ absurd (ground (arith, e, short))
    | inr long ↦ ap (λ r. byte_at r i) (sym (some_inj (rw long at e))) ∙ get_or-drop n p i 0
  ];
}

pub shrink-Succeeds :
    (p : Packet) (n : ℕ) → n + 14 ≤ length p → (q : Packet) × (shrink p n ≡ some q)
unfolding shrink
shrink-Succeeds p n h = (drop n p, rw (ltb-eq-false (length p) n (omega arith)) refl)
