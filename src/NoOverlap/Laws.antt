-- ===== src/NoOverlap/Laws.antt =====
-- The order of the two programs does not matter.
use dram_pvt_mk.Base.{
  ℕ, ◌≡◌, refl, ◌==◌, ltb, if◌then◌else◌, length, Bool-cases, Option-cases, inl, inr,
}
use dram_pvt_mk.Base.Bytes.{Packet, half_at, word_at, length-write}
use dram_pvt_mk.Base.Xdp.{xdp_drop, xdp_pass}
use dram_pvt_mk.NoOverlap.{Macs, xdp_first, same_macs, xdp_second}

-- The packet after both programs, and their verdicts, the first program's in front.
abbrev pub first_then_second : Macs → Packet → Packet × ℕ × ℕ
first_then_second macs p = let (q, v) = xdp_first macs p in let (r, w) = xdp_second q in (r, v, w)

abbrev pub second_then_first : Macs → Packet → Packet × ℕ × ℕ
second_then_first macs p = let (q, w) = xdp_second p in let (r, v) = xdp_first macs q in (r, v, w)

-- The second program reads the length and the protocol only.
abbrev second_verdict : Packet → ℕ
second_verdict p = if ltb (length p) 14 then xdp_drop else xdp_pass

xdp_second_lem : (p : Packet) → xdp_second p ≡ (p, second_verdict p)
unfolding xdp_second
xdp_second_lem p = elim (Bool-cases (ltb (length p) 14)) [
  | inl short ↦ rw short refl
  | inr long ↦ rw long (elim (Bool-cases (half_at p 12 == 8)) [
    | inl ip ↦ rw ip refl
    | inr other ↦
        rw other (elim (Bool-cases (same_macs p)) [
          | inl same ↦ rw same refl
          | inr differ ↦ rw differ refl
        ])
  ])
]

length-xdp_first : (macs : Macs) (p : Packet) → length (xdp_first macs p).0 ≡ length p
unfolding xdp_first
length-xdp_first macs p = elim (Bool-cases (ltb (length p) 14)) [
  | inl short ↦ rw short refl
  | inr long ↦ rw long (elim (Bool-cases (half_at p 12 == 8)) [
    | inl ip ↦ rw ip (elim (Bool-cases (ltb (length p) 34)) [
      | inl cut ↦ rw cut refl
      | inr whole ↦ rw whole (elim (Option-cases (macs (word_at p 30))) [
        | inl e ↦ rw e refl
        | inr (t, e) ↦ rw e (length-write p 0 t)
      ])
    ])
    | inr other ↦ rw other refl
  ])
]

-- On every packet and every content of the map the two programs leave the same packet, and give the
-- same two verdicts, in whichever order they run.
pub first_then_second-eq-second_then_first :
    (macs : Macs) (p : Packet) → first_then_second macs p ≡ second_then_first macs p
first_then_second-eq-second_then_first macs p =
    let q = (xdp_first macs p).0 in
    rw (xdp_second_lem q, xdp_second_lem p) (rw (length-xdp_first macs p) refl)
