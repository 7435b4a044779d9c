-- ===== src/Bmc/Invalidate/Laws.antt =====
-- What the scan may do to the cache on any packet, and what it does on a `set` command.
use dram_pvt_mk.Base.{
  ℕ, zero, suc, ◌+◌, ◌%◌, ◌<◌, ◌≡◌, ◌⊎◌, inl, inr, refl, arith, List, [], ◌∷◌, false, ◌==◌, Option,
  none, some, length, drop, length-drop, ltb, leb, Bool-cases, Option-cases,
}
use dram_pvt_mk.Base.Table.{Table, store}
use dram_pvt_mk.Base.Bytes.{Packet, Returns, Returns-map, Returns-bind}
use dram_pvt_mk.Base.Xdp.{xdp_pass}
use dram_pvt_mk.Bmc.{CacheEntry, Maps, max_packet_length}
use dram_pvt_mk.Bmc.Invalidate.{
  Scan, Turn, on, skip, quit, end_of_key, scan_byte, scan_loop, scan_start, tcp_payload,
  invalidate_cache,
}

-- A slot after its entry, if it has one, is marked invalid.
abbrev pub cleared : Option CacheEntry → Option CacheEntry
cleared none = none
cleared (some e) = some (record e { valid = false })

-- A slot is as it was, or has lost its valid mark and nothing else.
abbrev pub Clears : Option CacheEntry → Option CacheEntry → Type 0
Clears a b = (b ≡ a) ⊎ (b ≡ cleared a)

Clears-trans : (a b c : Option CacheEntry) → Clears a b → Clears b c → Clears a c
Clears-trans none b c h k = ground arith
Clears-trans (some e) b c h k = ground arith

abbrev TurnClears : ℕ → Option CacheEntry → Turn → Type 0
TurnClears i a (on s) = Clears a (s.kcache i)
TurnClears i a (skip s) = Clears a (s.kcache i)
TurnClears i a (quit s) = Clears a (s.kcache i)

store-Clears :
    (k : Table CacheEntry) (idx : ℕ) (e : CacheEntry) (i : ℕ)
    → k idx ≡ some e
    → Clears (k i) (store k idx (record e { valid = false }) i)
store-Clears k idx e i h = elim (Bool-cases (idx == i)) [
  | inl same ↦ let q : idx ≡ i = ground arith in inr (rw (same, ← q, h))
  | inr other ↦ inl (rw other)
]

end_of_key-Clears : (s : Scan) (i : ℕ) → TurnClears i (s.kcache i) (end_of_key s)
unfolding end_of_key
end_of_key-Clears s i = elim (Option-cases (s.kcache (s.hash % 2))) [
  | inl e ↦ rw e (inl refl)
  | inr (entry, e) ↦ elim (Bool-cases entry.valid) [
    | inl v ↦ rw e (rw v (store-Clears s.kcache (s.hash % 2) entry i e))
    | inr v ↦ rw e (rw v (inl refl))
  ]
]

scan_byte-Clears :
    (c : ℕ) (payload : List ℕ) (s : Scan) (i : ℕ)
    → TurnClears i (s.kcache i) (scan_byte c payload s)
unfolding scan_byte
scan_byte-Clears c payload s i = ground (arith, end_of_key-Clears s i)

abbrev ScanClears : ℕ → Option CacheEntry → Scan → Type 0
ScanClears i a s = Clears a (s.kcache i)

-- The rest of the loop behind a round: `f` at the next byte, `g` past a `set`.
module _ (i : ℕ) (a : Option CacheEntry) (f g : Scan → Option Scan) where
  abbrev Rest : (Scan → Option Scan) → Type 0
  Rest h = (s : Scan) → Returns (λ r. Clears (s.kcache i) (r.kcache i)) (h s)

  turn-Clears :
      (t : Turn)
      → Rest f
      → Rest g
      → TurnClears i a t
      → Returns
          (λ r. Clears a (r.kcache i))
          (elim t [ on s ↦ f s | skip s ↦ g s | quit s ↦ some s ])
  turn-Clears (on s) hf hg h =
      Returns-map (f s) (λ r. Clears-trans a (s.kcache i) (r.kcache i) h) (hf s)
  turn-Clears (skip s) hf hg h =
      Returns-map (g s) (λ r. Clears-trans a (s.kcache i) (r.kcache i) h) (hg s)
  turn-Clears (quit s) hf hg h = h

-- With a round for each byte and one more the loop ends, and clears valid marks at most.
pub scan_loop-Clears :
    (fuel off : ℕ) (payload : List ℕ) (s : Scan) (i : ℕ)
    → length payload < fuel
    → Returns (λ r. Clears (s.kcache i) (r.kcache i)) (scan_loop fuel off payload s)
unfolding scan_loop
scan_loop-Clears zero off payload s i h = absurd (omega arith)
scan_loop-Clears (suc fuel) off [] s i h = inl refl
scan_loop-Clears (suc fuel) off (c ∷ payload) s i h =
    elim (Bool-cases (ltb off max_packet_length)) [
      | inl more ↦ rw more (
          turn-Clears i (s.kcache i) (scan_loop fuel (off + 1) payload)
            (scan_loop fuel (off + 4) (drop 3 payload)) (scan_byte c payload s)
            (λ s'. scan_loop-Clears fuel (off + 1) payload s' i (omega arith))
            (λ s'.
              scan_loop-Clears fuel (off + 4) (drop 3 payload) s' i
                (omega (arith, length-drop 3 payload)))
            (scan_byte-Clears c payload s i))
      | inr stop ↦ rw stop (inl refl)
    ]

-- On every packet the handler returns: its loop ends by itself, within the fuel of a round for each
-- byte and one more. It passes the packet on unchanged, and every slot of the cache is as it was or
-- has lost its valid mark and nothing else.
pub invalidate_cache-Clears :
    (m : Maps) (p : Packet) (i : ℕ)
    → Returns
        (λ r. (r.packet ≡ p) × (r.verdict ≡ xdp_pass) × Clears (m.kcache i) (r.maps.kcache i))
        (invalidate_cache m p)
unfolding invalidate_cache
invalidate_cache-Clears m p i = elim (Bool-cases (leb (length p) tcp_payload)) [
  | inl short ↦ rw short (refl, refl, inl refl)
  | inr long ↦ rw long (elim (Option-cases (m.stats 0)) [
    | inl e ↦ rw e (refl, refl, inl refl)
    | inr (stats, e) ↦ rw e (
        Returns-bind _
          (scan_loop (length (drop tcp_payload p) + 1) 0 (drop tcp_payload p)
            (scan_start m.kcache stats))
          _ (λ s h. (refl, refl, h))
          (scan_loop-Clears (length (drop tcp_payload p) + 1) 0 (drop tcp_payload p)
            (scan_start m.kcache stats) i (omega arith)))
  ])
]

-- The handler leaves the saved keys and the parsing context alone.
pub invalidate_cache-keys :
    (m : Maps) (p : Packet)
    → Returns
        (λ r. (r.maps.keys ≡ m.keys) × (r.maps.parsing_context ≡ m.parsing_context))
        (invalidate_cache m p)
unfolding invalidate_cache
invalidate_cache-keys m p = elim (Bool-cases (leb (length p) tcp_payload)) [
  | inl short ↦ rw short (refl, refl)
  | inr long ↦ rw long (elim (Option-cases (m.stats 0)) [
    | inl e ↦ rw e (refl, refl)
    | inr (stats, e) ↦ rw e (
        Returns-bind _
          (scan_loop (length (drop tcp_payload p) + 1) 0 (drop tcp_payload p)
            (scan_start m.kcache stats))
          _ (λ s h. (refl, refl))
          (scan_loop-Clears (length (drop tcp_payload p) + 1) 0 (drop tcp_payload p)
            (scan_start m.kcache stats) 0 (omega arith)))
  ])
]
