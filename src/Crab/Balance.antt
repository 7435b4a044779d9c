-- ===== src/Crab/Balance.antt =====
-- Which target each new connection gets: get_target_idx_rr.
use dram_pvt_mk.Base.{
  ℕ, zero, suc, ◌+◌, ◌-◌, ◌%◌, ◌^◌, ◌≤◌, ◌<◌, ◌≡◌, refl, sym, ap, ◌∙◌, arith, false, ◌==◌, Option,
  some, u32, some_inj,
}
use native.Mathlib.Nat.{mod-lt, mod-eq_of_lt, mod-add-mod, add-mod-mod, add-mod_right}
use dram_pvt_mk.Base.Table.{store}
use dram_pvt_mk.Base.Bytes.{◌>>=◌}
use dram_pvt_mk.Crab.{LbMaps, get_target_idx_rr}

-- The index that the call after `n` others gives.
abbrev pub nth_index : ℕ → LbMaps → Option ℕ
nth_index zero m = get_target_idx_rr m >>= λ r. some r.1
nth_index (suc n) m = get_target_idx_rr m >>= λ r. nth_index n r.0

abbrev advance : LbMaps → ℕ → LbMaps
advance m rr = record m { cpu_rr_idx = store m.cpu_rr_idx 0 (u32 (rr + 1)) }

get_target_idx_rr-some :
    (m : LbMaps) (count rr : ℕ)
    → m.targets_count 0 ≡ some count
    → m.cpu_rr_idx 0 ≡ some rr
    → 0 < count
    → get_target_idx_rr m ≡ some (advance m rr, rr % count)
unfolding get_target_idx_rr
get_target_idx_rr-some m count rr c r pos =
    let e : (count == 0) ≡ false = ground arith in rw (c, r) (rw e refl)

nth_index_lem :
    (n : ℕ) (m : LbMaps) (count rr : ℕ)
    → m.targets_count 0 ≡ some count
    → m.cpu_rr_idx 0 ≡ some rr
    → 0 < count
    → rr + n < 2 ^ 32
    → nth_index n m ≡ some ((rr + n) % count)
nth_index_lem zero m count rr c r pos h =
    let e : rr + 0 ≡ rr = omega arith in rw (get_target_idx_rr-some m count rr c r pos, e) refl
nth_index_lem (suc n) m count rr c r pos h =
    let stored : u32 (rr + 1) ≡ rr + 1 = omega arith in
    let sum : rr + suc n ≡ rr + 1 + n = omega arith in
    rw (get_target_idx_rr-some m count rr c r pos, sum)
      (nth_index_lem n (advance m rr) count (rr + 1) c (ap some stored) pos (omega arith))

mod_shift : (count rr i : ℕ) → i < count → (rr + (i + count - rr % count) % count) % count ≡ i
mod_shift count rr i h =
    let r = rr % count in
    let low : r < count = mod-lt rr (omega arith) in
    let sum : r + (i + count - r) ≡ i + count = omega arith in
    sym (mod-add-mod rr count ((i + count - r) % count))
    ∙ add-mod-mod r (i + count - r) count
    ∙ ap (λ x. x % count) sum
    ∙ add-mod_right i count
    ∙ mod-eq_of_lt h

mod_inj :
    (count rr n n' : ℕ) → n < count → n' < count → (rr + n) % count ≡ (rr + n') % count → n ≡ n'
mod_inj count rr n n' h h' e = grind arith

-- With a count that is not 0, and a counter that does not wrap within them, the next `count` calls
-- give each target's index in exactly one of them.
pub nth_index-each :
    (m : LbMaps) (count rr i : ℕ)
    → m.targets_count 0 ≡ some count
    → m.cpu_rr_idx 0 ≡ some rr
    → rr + count ≤ 2 ^ 32
    → i < count
    → (n : ℕ) × (n < count)
      × (nth_index n m ≡ some i)
      × ((n' : ℕ) → n' < count → nth_index n' m ≡ some i → n' ≡ n)
nth_index-each m count rr i c r wrap h =
    let n = (i + count - rr % count) % count in
    let low : n < count = mod-lt _ (omega arith) in
    let gives : (j : ℕ) → j < count → nth_index j m ≡ some ((rr + j) % count) =
      λ j l. nth_index_lem j m count rr c r (omega arith) (omega arith) in
    (
      n,
      low,
      gives n low ∙ ap some (mod_shift count rr i h),
      λ n' low' e.
          mod_inj count rr n' n low' low
            (some_inj (sym (gives n' low') ∙ e) ∙ sym (mod_shift count rr i h)),
    )
