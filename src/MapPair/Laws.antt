-- ===== src/MapPair/Laws.antt =====
-- How the second program changes what the first one does.
use dram_pvt_mk.Base.{
  ℕ, ◌≡◌, ◌≢◌, refl, sym, ap, ◌∙◌, arith, true, false, ◌==◌, if◌then◌else◌, Option, some,
  Option-cases, Bool-cases, ==_iff, ◌&&◌, inl, inr,
}
use dram_pvt_mk.Base.Table.{or_return}
use dram_pvt_mk.Base.Update.{MapUpdate}
use dram_pvt_mk.Base.Bytes.{Packet}
use dram_pvt_mk.Base.Xdp.{xdp_drop, xdp_pass}
use dram_pvt_mk.FwNat.{not_ipv4}
use dram_pvt_mk.MapPair.{
  SimpleStruct, SharedMaps, Updates, first_key, xdp_first_prog, second_key, xdp_second_prog,
}

-- What the first program finds under its key after the second one ran.
abbrev pub found_after : ℕ → ℕ → ℕ → ℕ → SharedMaps → Option ℕ
found_after c y i j m =
    if c == b'a' && (y == 10 && i == j) then some 229 else m.hash_map (first_key c i)

key_50 : (c y i j : ℕ) → second_key 50 y j ≢ first_key c i
key_50 c y i j e = absurd (omega (arith, ap (λ k. k.x) e))

key_42 :
    (c y i j : ℕ) → (c == b'a' && (y == 10 && i == j)) ≡ false → second_key 42 y j ≢ first_key c i
key_42 c y i j h e = cc (h, same_c, same_y, same_pad)
  where
    same_c : (c == b'a') ≡ true
    same_c = (==_iff c b'a').1 (sym (ap (λ k. k.c) e))

    same_y : (y == 10) ≡ true
    same_y = (==_iff y 10).1 (ap (λ k. k.y) e)

    same_pad : (i == j) ≡ true
    same_pad = (==_iff i j).1 (sym (ap (λ k. k.pad) e))

key_42_same :
    (c y i j : ℕ) → (c == b'a' && (y == 10 && i == j)) ≡ true → second_key 42 y j ≡ first_key c i
key_42_same c y i j h = ground arith

two_updates :
    (u : MapUpdate SimpleStruct ℕ) (c y i j : ℕ) (m : SharedMaps) (h1 h2 : SimpleStruct → Option ℕ)
    → u.update m.hash_map (second_key 42 y j) 229 ≡ some h1
    → u.update h1 (second_key 50 y j) 229 ≡ some h2
    → h2 (first_key c i) ≡ found_after c y i j m
two_updates u c y i j m h1 h2 one two =
    u.keeps h1 h2 (second_key 50 y j) (first_key c i) 229 two (key_50 c y i j)
    ∙ elim (Bool-cases (c == b'a' && (y == 10 && i == j))) [
      | inl same ↦ rw same (
          ap h1 (sym (key_42_same c y i j same))
          ∙ u.finds m.hash_map h1 (second_key 42 y j) 229 one)
      | inr other ↦
          rw other (
            u.keeps m.hash_map h1 (second_key 42 y j) (first_key c i) 229 one
              (key_42 c y i j other))
    ]

-- What a run of the second program that passes leaves for the first one.
record Left (u : Updates) (c y i j : ℕ) (m m' : SharedMaps) : Type 0 where
  pub hash_entry : m'.hash_map (first_key c i) ≡ found_after c y i j m
  pub array_entry : m'.array_map 4 ≡ some 229

xdp_second_prog-Left :
    (u : Updates) (c y i j : ℕ) (m : SharedMaps) (p : Packet)
    → (xdp_second_prog u y j m p).1 ≡ xdp_pass
    → Left u c y i j m (xdp_second_prog u y j m p).0
unfolding xdp_second_prog
xdp_second_prog-Left u c y i j m p h = elim (Bool-cases (not_ipv4 p)) [
  | inl other ↦ absurd (ground (arith, h, other))
  | inr ip ↦ elim (Option-cases (u.hash_map.update m.hash_map (second_key 42 y j) 229)) [
    | inl e ↦ absurd (ground (arith, h, ip, e))
    | inr (h1, one) ↦ elim (Option-cases (u.hash_map.update h1 (second_key 50 y j) 229)) [
      | inl e ↦ absurd (ground (arith, h, ip, one, e))
      | inr (h2, two) ↦ elim (Option-cases (u.array_map.update m.array_map 4 229)) [
        | inl e ↦ absurd (ground (arith, h, ip, one, two, e))
        | inr (t, three) ↦ elim (Option-cases (t 5)) [
          | inl e ↦ absurd (ground (arith, h, ip, one, two, three, e))
          | inr (v, four) ↦
              rw (ip, one, two, three, four)
                (record {
                  hash_entry = two_updates u.hash_map c y i j m h1 h2 one two;
                  array_entry = u.array_map.finds m.array_map t 4 229 three;
                })
        ]
      ]
    ]
  ]
]

-- After a run of the second program that passed, the first program, on any packet, drops what is not
-- IPv4, drops when `hash_map` has no value under its key, and else passes exactly when its own
-- update succeeds. Under its key `hash_map` has 229 when the unset `c` is 'a', the unset `y` of the
-- second program is 10 and the unset paddings agree, and what it had before otherwise: the store
-- under `x == 50` never matters.
pub xdp_second_prog-xdp_first_prog :
    (u : Updates) (c y i j : ℕ) (m : SharedMaps) (p q : Packet)
    → (xdp_second_prog u y j m p).1 ≡ xdp_pass
    → let m' = (xdp_second_prog u y j m p).0 in
      (xdp_first_prog u c i m' q).1 ≡ (
        if not_ipv4 q
        then xdp_drop
        else or_return
            (found_after c y i j m)
            xdp_drop
            λ value. or_return (u.array_map.update m'.array_map 5 0) xdp_drop λ t. xdp_pass)
unfolding xdp_first_prog
xdp_second_prog-xdp_first_prog u c y i j m p q h =
    let left = xdp_second_prog-Left u c y i j m p h in
    let m' = (xdp_second_prog u y j m p).0 in
    elim (Bool-cases (not_ipv4 q)) [
      | inl other ↦ rw other refl
      | inr ip ↦
          rw (ip, left.hash_entry, left.array_entry)
            (elim (Option-cases (found_after c y i j m)) [
              | inl e ↦ rw e refl
              | inr (v, e) ↦ rw e (elim (Option-cases (u.array_map.update m'.array_map 5 0)) [
                | inl full ↦ rw full refl
                | inr (t, fits) ↦ rw fits refl
              ])
            ])
    ]
