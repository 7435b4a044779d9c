-- ===== src/Probe/Laws.antt =====
-- Which segments the probe reads, and what its map can hold.
use dram_pvt_mk.Base.{
  ℕ, zero, suc, ◌+◌, ◌*◌, ◌≡◌, ◌⊎◌, ◌≤◌, ◌<◌, refl, sym, ap, ◌∙◌, arith, List, [], ◌∷◌, ◌&&◌, ltb,
  leb, if◌then◌else◌, none, some, length, get_or, Bool-cases, ltb-eq-false, leb-eq-false,
  leb-eq-true, lt→ltb, Option-cases, inl, inr,
}
use native.Mathlib.Decide.{dec_lt}
use dram_pvt_mk.Base.Bytes.{Packet, byte_at, bytes_from}
use dram_pvt_mk.Base.Xdp.{xdp_pass}
use dram_pvt_mk.Probe.{
  ProbeData, ProbeMap, zeros, unset, segments_loop, key_of, no_srv6, LruUpdate, xdp_prog,
}

get_or-unset : (n j : ℕ) → j < n → get_or (unset n) j [] ≡ zeros 16
get_or-unset zero j h = absurd (omega arith)
get_or-unset (suc n) zero h = refl
get_or-unset (suc n) (suc j) h = get_or-unset n j (omega arith)

-- What `segments[i]` should hold: that segment of the header, when it is there and more of the packet
-- follows.
abbrev pub segment : Packet → ℕ → ℕ → List ℕ
segment p last_entry i =
    if leb i last_entry && ltb (62 + 16 * (i + 1)) (length p)
    then bytes_from p (62 + 16 * i) 16
    else zeros 16

-- The round `i` stops the loop, or does not.
abbrev Stops : Packet → ℕ → ℕ → Type 0
Stops p last i = (last < i) ⊎ (length p ≤ 62 + 16 * (i + 1))

abbrev Goes : Packet → ℕ → ℕ → Type 0
Goes p last i = (i ≤ last) × (62 + 16 * (i + 1) < length p)

segment_cases : (p : Packet) (last i : ℕ) → Stops p last i ⊎ Goes p last i
segment_cases p last i = elim (dec_lt last i) [
  | yes a ↦ inl (inl a)
  | no a ↦ elim (dec_lt (62 + 16 * (i + 1)) (length p)) [
    | yes b ↦ inr (omega arith, b)
    | no b ↦ inl (inr (omega arith))
  ]
]

segment_unset : (p : Packet) (last i : ℕ) → Stops p last i → segment p last i ≡ zeros 16
segment_unset p last i h = elim h [
  | inl a ↦ rw (leb-eq-false i last a) refl
  | inr a ↦
      rw (ltb-eq-false (62 + 16 * (i + 1)) (length p) a)
        (elim (Bool-cases (leb i last)) [ inl e ↦ rw e refl | inr e ↦ rw e refl ])
]

segment_set :
    (p : Packet) (last i : ℕ) → Goes p last i → segment p last i ≡ bytes_from p (62 + 16 * i) 16
segment_set p last i (a, b) =
    rw (leb-eq-true i last a, lt→ltb (62 + 16 * (i + 1)) (length p) b) refl

segments_loop-Stops :
    (left : ℕ) (p : Packet) (last i : ℕ)
    → Stops p last i
    → segments_loop (suc left) p last i ≡ unset (suc left)
unfolding segments_loop
segments_loop-Stops left p last i h = elim h [
  | inl a ↦ rw (ltb-eq-false i (last + 1) (omega arith)) refl
  | inr a ↦
      rw (lt→ltb (length p) (62 + 16 * (i + 1) + 1) (omega arith))
        (elim (Bool-cases (ltb i (last + 1))) [ inl e ↦ rw e refl | inr e ↦ rw e refl ])
]

segments_loop-Goes :
    (left : ℕ) (p : Packet) (last i : ℕ)
    → Goes p last i
    → segments_loop (suc left) p last i
      ≡ bytes_from p (62 + 16 * i) 16 ∷ segments_loop left p last (i + 1)
unfolding segments_loop
segments_loop-Goes left p last i (a, b) =
    rw
      (
        lt→ltb i (last + 1) (omega arith),
        ltb-eq-false (length p) (62 + 16 * (i + 1) + 1) (omega arith),
      )
      refl

Stops-later : (p : Packet) (last i k : ℕ) → i ≤ k → Stops p last i → Stops p last k
Stops-later p last i k l h = elim h [ inl a ↦ inl (omega arith) | inr a ↦ inr (omega arith) ]

segments_loop_lem :
    (left : ℕ) (p : Packet) (last i j : ℕ)
    → j < left
    → get_or (segments_loop left p last i) j [] ≡ segment p last (i + j)
segments_loop_lem zero p last i j h = absurd (omega arith)
segments_loop_lem (suc left) p last i zero h =
    let same : i + zero ≡ i = omega arith in
    elim (segment_cases p last i) [
      | inl a ↦ rw (segments_loop-Stops left p last i a, same) (sym (segment_unset p last i a))
      | inr a ↦ rw (segments_loop-Goes left p last i a, same) (sym (segment_set p last i a))
    ]
segments_loop_lem (suc left) p last i (suc j) h =
    let next : i + suc j ≡ i + 1 + j = omega arith in
    elim (segment_cases p last i) [
      | inl a ↦ rw (segments_loop-Stops left p last i a) (
          get_or-unset (suc left) (suc j) h
          ∙ sym
              (segment_unset p last (i + suc j) (Stops-later p last i (i + suc j) (omega arith) a)))
      | inr a ↦
          rw (segments_loop-Goes left p last i a, next)
            (segments_loop_lem left p last (i + 1) j (omega arith))
    ]

-- The key of a packet has each of the ten segments that the header announces and that more of the packet
-- follows, and zeros for every other one: a last segment that ends with the packet is left out.
pub key_of-segments :
    (p : Packet) (i : ℕ) → i < 10 → get_or (key_of p).segments i [] ≡ segment p (byte_at p 58) i
unfolding key_of
key_of-segments p i h =
    let same : 0 + i ≡ i = omega arith in
    segments_loop_lem 10 p (byte_at p 58) 0 i h ∙ ap (segment p (byte_at p 58)) same

-- The map after the packets, one after the other.
abbrev pub after : LruUpdate → ProbeMap → List Packet → ProbeMap
after u t [] = t
after u t (p ∷ ps) = after u (xdp_prog u t p).0 ps

-- No entry counts anything.
abbrev pub AllZero : ProbeMap → Type 0
AllZero t = (k : ProbeData) → (t k ≡ none) ⊎ (t k ≡ some 0)

update-AllZero :
    (u : LruUpdate) (t t' : ProbeMap) (key : ProbeData)
    → u.update t key 0 ≡ some t'
    → AllZero t
    → AllZero t'
update-AllZero u t t' key e h j = elim (u.others t t' key j 0 e) [
  | inl same ↦ inr (ap t' (sym same) ∙ u.finds t t' key 0 e)
  | inr (inl kept) ↦ elim (h j) [ inl a ↦ inl (kept ∙ a) | inr a ↦ inr (kept ∙ a) ]
  | inr (inr gone) ↦ inl gone
]

xdp_prog-AllZero :
    (u : LruUpdate) (t : ProbeMap) (p : Packet)
    → AllZero t
    → ((xdp_prog u t p).1 ≡ xdp_pass) × AllZero (xdp_prog u t p).0
unfolding xdp_prog
xdp_prog-AllZero u t p h = elim (Bool-cases (no_srv6 p)) [
  | inl a ↦ rw a (refl, h)
  | inr a ↦ rw a (elim (Option-cases (t (key_of p))) [
    | inr (v, b) ↦ rw b (refl, h)
    | inl b ↦ rw b (elim (Option-cases (u.update t (key_of p) 0)) [
      | inl c ↦ rw c (refl, h)
      | inr (t', c) ↦ rw c (refl, update-AllZero u t t' (key_of p) c h)
    ])
  ])
]

-- From a map whose entries are 0, any packets leave a map whose entries are 0: the probe counts
-- nothing. The next packet is passed, whatever it is.
pub after-AllZero :
    (u : LruUpdate) (t : ProbeMap) (ps : List Packet) (p : Packet)
    → AllZero t
    → AllZero (after u t ps) × ((xdp_prog u (after u t ps) p).1 ≡ xdp_pass)
after-AllZero u t [] p h = (h, (xdp_prog-AllZero u t p h).0)
after-AllZero u t (q ∷ ps) p h =
    after-AllZero u (xdp_prog u t q).0 ps p (xdp_prog-AllZero u t q h).1
