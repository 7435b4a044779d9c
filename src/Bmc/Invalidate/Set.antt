-- ===== src/Bmc/Invalidate/Set.antt =====
-- A `set` command clears the entry of its key.
use dram_pvt_mk.Base.{
  ℕ, zero, suc, ◌+◌, ◌%◌, ◌<◌, ◌≡◌, refl, arith, List, [], ◌∷◌, ◌++◌, true, false, Option, none,
  some, length, length-append, drop-append, leb, Bool-cases, ==_self, add32, inl, inr,
}
use dram_pvt_mk.Base.Table.{Table}
use dram_pvt_mk.Base.Bytes.{Packet, Returns, Returns-map, Returns-bind}
use dram_pvt_mk.Hash.Fnv.{fnv_offset_basis_32, is_stop}
use dram_pvt_mk.Bmc.{CacheEntry, BmcStats, Maps, bmc_cache_entry_count, IsArray}
use dram_pvt_mk.Bmc.Hashing.{char_step, key_hash, key_hash_from, IsKey}
use dram_pvt_mk.Bmc.Invalidate.{
  Scan, clear, end_of_key, scan_byte, scan_loop, scan_start, tcp_payload, invalidate_cache,
}
use dram_pvt_mk.Bmc.Invalidate.Laws.{Clears, scan_loop-Clears}

-- No entry in the slot counts as valid.
abbrev pub IsInvalid : Option CacheEntry → Type 0
IsInvalid none = Unit
IsInvalid (some e) = e.valid ≡ false

Clears-IsInvalid : (a b : Option CacheEntry) → Clears a b → IsInvalid a → IsInvalid b
Clears-IsInvalid none b h k = ground arith
Clears-IsInvalid (some e) b h k = ground arith

-- Inside a key: each byte is hashed until the ' '.
in_key_step :
    (fuel off c : ℕ) (payload : List ℕ) (s : Scan)
    → off < 1500
    → is_stop c ≡ false
    → s.set_found ≡ true
    → s.key_found ≡ true
    → scan_loop (suc fuel) off (c ∷ payload) s
      ≡ scan_loop fuel (off + 1) payload (record s { hash = char_step s.hash c })
unfolding scan_loop scan_byte
in_key_step fuel off c payload s h w a b = ground arith

end_of_key_step :
    (fuel off : ℕ) (payload : List ℕ) (s : Scan) (e : CacheEntry)
    → off < 1500
    → s.set_found ≡ true
    → s.key_found ≡ true
    → s.kcache (s.hash % bmc_cache_entry_count) ≡ some e
    → scan_loop (suc fuel) off (32 ∷ payload) s
      ≡ scan_loop fuel (off + 1) payload (clear s (s.hash % bmc_cache_entry_count) e)
unfolding scan_loop scan_byte end_of_key
end_of_key_step fuel off payload s e h a b q = ground arith

clear-IsInvalid :
    (s : Scan) (i : ℕ) (e : CacheEntry) → s.kcache i ≡ some e → IsInvalid ((clear s i e).kcache i)
unfolding clear
clear-IsInvalid s i e q = elim (Bool-cases e.valid) [
  | inl v ↦ rw v (rw (==_self i) refl)
  | inr v ↦ rw v (rw q v)
]

-- The rest of the loop clears no less than what it is given.
rest-IsInvalid :
    (fuel off : ℕ) (payload : List ℕ) (s : Scan) (i : ℕ)
    → length payload < fuel
    → IsInvalid (s.kcache i)
    → Returns (λ r. IsInvalid (r.kcache i)) (scan_loop fuel off payload s)
rest-IsInvalid fuel off payload s i l h =
    Returns-map (scan_loop fuel off payload s)
      (λ r c. Clears-IsInvalid (s.kcache i) (r.kcache i) c h)
      (scan_loop-Clears fuel off payload s i l)

-- From inside a key on: the slot of the whole key ends up invalid.
key_IsInvalid :
    (fuel off : ℕ) (key rest : List ℕ) (s : Scan) (e : CacheEntry) (i : ℕ)
    → IsKey key
    → off + length key < 1500
    → length (key ++ 32 ∷ rest) < fuel
    → s.set_found ≡ true
    → s.key_found ≡ true
    → key_hash_from s.hash key % bmc_cache_entry_count ≡ i
    → s.kcache i ≡ some e
    → Returns (λ r. IsInvalid (r.kcache i)) (scan_loop fuel off (key ++ 32 ∷ rest) s)
key_IsInvalid zero off key rest s e i w h l a b idx q = absurd (omega arith)
key_IsInvalid (suc fuel) off [] rest s e i w h l a b idx q =
    let q' : s.kcache (s.hash % bmc_cache_entry_count) ≡ some e = rw idx q in
    let t = clear s (s.hash % bmc_cache_entry_count) e in
    let v : IsInvalid (t.kcache i) =
      rw (← idx) (clear-IsInvalid s (s.hash % bmc_cache_entry_count) e q') in
    rw (end_of_key_step fuel off rest s e (omega arith) a b q')
      (rest-IsInvalid fuel (off + 1) rest t i (omega arith) v)
key_IsInvalid (suc fuel) off (c ∷ key) rest s e i w h l a b idx q =
    rw (in_key_step fuel off c (key ++ 32 ∷ rest) s (omega arith) w.0 a b) (
      key_IsInvalid fuel (off + 1) key rest (record s { hash = char_step s.hash c }) e i w.1
        (omega arith) (omega arith) a b idx q)

-- The `set` and the space, then the first byte of the key.
set_step :
    (fuel : ℕ) (c : ℕ) (payload : List ℕ) (k : Table CacheEntry) (stats : BmcStats)
    → is_stop c ≡ false
    → scan_loop (suc (suc fuel)) 0 (b's' ∷ b'e' ∷ b't' ∷ 32 ∷ c ∷ payload) (scan_start k stats)
      ≡ scan_loop fuel 5 payload (record (scan_start k stats) {
        hash = char_step fnv_offset_basis_32 c;
        set_found = true;
        key_found = true;
        stats = record stats { set_recv_count = add32 stats.set_recv_count 1 };
      })
unfolding scan_loop scan_byte
set_step fuel c payload k stats w = ground arith

-- The payload of a packet with a `set` command.
abbrev pub set_payload : ℕ → List ℕ → List ℕ → List ℕ
set_payload c key rest = b's' ∷ b'e' ∷ b't' ∷ 32 ∷ c ∷ (key ++ 32 ∷ rest)

scan_loop-set :
    (fuel : ℕ) (k : Table CacheEntry) (c : ℕ) (key rest : List ℕ) (stats : BmcStats)
    (e : CacheEntry)
    → length (set_payload c key rest) < fuel
    → IsKey (c ∷ key)
    → length key < 1495
    → k (key_hash (c ∷ key) % bmc_cache_entry_count) ≡ some e
    → Returns
        (λ r. IsInvalid (r.kcache (key_hash (c ∷ key) % bmc_cache_entry_count)))
        (scan_loop fuel 0 (set_payload c key rest) (scan_start k stats))
unfolding key_hash
scan_loop-set zero k c key rest stats e l w h q = absurd (omega arith)
scan_loop-set (suc zero) k c key rest stats e l w h q = absurd (omega arith)
scan_loop-set (suc (suc fuel)) k c key rest stats e l w h q =
    rw (set_step fuel c (key ++ 32 ∷ rest) k stats w.0)
      (key_IsInvalid fuel 5 key rest _ e _ w.1 (omega arith) (omega arith) refl refl refl q)

-- A TCP packet whose payload begins with "set ", a key of 1 to 1495 bytes and a space leaves the
-- cache slot of that key invalid, whatever follows in the packet, provided that the slots exist
-- and that the statistics do.
pub invalidate_cache-set :
    (m : Maps) (header : Packet) (c : ℕ) (key rest : List ℕ) (stats : BmcStats)
    → IsArray m
    → m.stats 0 ≡ some stats
    → length header ≡ tcp_payload
    → IsKey (c ∷ key)
    → length key < 1495
    → Returns
        (λ r. IsInvalid (r.maps.kcache (key_hash (c ∷ key) % bmc_cache_entry_count)))
        (invalidate_cache m (header ++ set_payload c key rest))
unfolding invalidate_cache
invalidate_cache-set m header c key rest stats a st hl w kl =
    let p = header ++ set_payload c key rest in
    let long : leb (length p) tcp_payload ≡ false =
      ground (arith, length-append header (set_payload c key rest)) in
    let (e, q, _) = a.slot (key_hash (c ∷ key) % bmc_cache_entry_count) (omega arith) in
    rw (long, st, drop-append tcp_payload header (set_payload c key rest) hl)
      (Returns-bind _
        (scan_loop (length (set_payload c key rest) + 1) 0 (set_payload c key rest)
          (scan_start m.kcache stats))
        _ (λ s h. h)
        (scan_loop-set (length (set_payload c key rest) + 1) m.kcache c key rest stats e
          (omega arith) w kl q))
