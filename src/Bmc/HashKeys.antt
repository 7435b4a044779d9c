-- ===== src/Bmc/HashKeys.antt =====
-- `bmc_hash_keys_main` of examples/bmc-cache/bmc_kern.c: the hash of the next requested key, and
-- whether the cache may hold it.
use dram_pvt_mk.Base.{
  ℕ, ◌+◌, ◌%◌, ◌≤◌, ◌≡◌, List, ◌∷◌, ◌++◌, true, ◌&&◌, ◌==◌, if◌then◌else◌, Option, some, length,
  length-append, add32, ==_self, arith,
}
use dram_pvt_mk.Base.Table.{store, or_return}
use dram_pvt_mk.Base.Bytes.{Packet, ◌>>=◌, Returns}
use dram_pvt_mk.Base.Xdp.{xdp_pass}
use dram_pvt_mk.Hash.Fnv.{fnv_offset_basis_32, bmc_max_key_length, is_stop}
use dram_pvt_mk.Bmc.{
  CacheEntry, MemcachedKey, ParsingContext, Maps, Run, IsArray, bmc_cache_entry_count,
}
use dram_pvt_mk.Bmc.Hashing.{key_loop, key_loop-append, key_loop-whole, key_hash, IsKey}

-- What is done with the entry of the key's slot. `entry` is dereferenced without a test for NULL.
unfoldable pub probe : Maps → ParsingContext → MemcachedKey → ℕ → CacheEntry → Maps
probe m pctx key key_len entry =
    let saved = record m { keys = store m.keys pctx.key_count key } in
    if entry.valid && entry.hash == key.hash
    then record saved {
      keys = store m.keys pctx.key_count (record key { len = key_len });
      parsing_context =
          store m.parsing_context 0 (record pctx { key_count = add32 pctx.key_count 1 });
    }
    else saved

unfoldable pub hash_keys : Maps → Packet → Option Run
unfolding probe
hash_keys m p =
    let pass : Option Run = some (record { maps = m; packet = p; verdict = xdp_pass }) in
    if length p == 0
    then pass
    else or_return (m.parsing_context 0) pass λ pctx. or_return (m.keys pctx.key_count) pass λ key.
      let r = key_loop (bmc_max_key_length + 1) p fnv_offset_basis_32 0 in
      m.kcache (r.hash % bmc_cache_entry_count) >>= λ entry. some (record {
        maps = probe m pctx (record key { hash = r.hash }) r.key_len entry;
        packet = p;
        verdict = xdp_pass;
      })

abbrev pub Quiet : Maps → Packet → Run → Type 0
Quiet m p r =
    (r.packet ≡ p) × (r.verdict ≡ xdp_pass) × (r.maps.kcache ≡ m.kcache) × (r.maps.stats ≡ m.stats)

-- With both cache slots in place the handler dereferences no NULL; it passes the packet on
-- unchanged, and leaves the cache and the statistics alone.
pub hash_keys_total : (m : Maps) (p : Packet) → IsArray m → Returns (Quiet m p) (hash_keys m p)
unfolding hash_keys
hash_keys_total m p a =
    let h = (key_loop 251 p fnv_offset_basis_32 0).hash in
    let s = a.slot (h % 2) (omega arith) in ground (arith, s)

-- The maps that a request for `key` finds: the context, the key's slot in it, and the cache entry
-- of the key's hash.
pub record Finds (m : Maps) (key : List ℕ) (pctx : ParsingContext) (k : MemcachedKey)
    (entry : CacheEntry) : Type 0 where
  pub context : m.parsing_context 0 ≡ some pctx
  pub key_slot : m.keys pctx.key_count ≡ some k
  pub cached : m.kcache (key_hash key % bmc_cache_entry_count) ≡ some entry

-- A request that begins with a key of at most 250 bytes and a stop byte is hashed as that key.
pub hash_keys_of_key :
    (m : Maps) (key : List ℕ) (stop : ℕ) (rest : List ℕ) (pctx : ParsingContext) (k : MemcachedKey)
    (entry : CacheEntry)
    → IsKey key
    → is_stop stop ≡ true
    → length key ≤ 250
    → Finds m key pctx k entry
    → hash_keys m (key ++ stop ∷ rest)
      ≡ some (record {
        maps = probe m pctx (record k { hash = key_hash key }) (length key) entry;
        packet = key ++ stop ∷ rest;
        verdict = xdp_pass;
      })
unfolding hash_keys key_hash
hash_keys_of_key m key stop rest pctx k entry w s h f = ground (
  arith,
  length-append key (stop ∷ rest),
  key_loop-append 251 key stop rest fnv_offset_basis_32 0 w s (omega arith),
)

-- The handler counts the key of a request as a possible hit, and records its length, exactly when
-- the entry of the key's slot is valid and holds the key's hash; in both cases it saves the hash.
pub hash_keys-key_count :
    (m : Maps) (key : List ℕ) (stop : ℕ) (rest : List ℕ) (pctx : ParsingContext) (k : MemcachedKey)
    (entry : CacheEntry)
    → IsKey key
    → is_stop stop ≡ true
    → length key ≤ 250
    → Finds m key pctx k entry
    → Returns
        (λ r.
          (r.maps.parsing_context 0 ≡ (
            if entry.valid && entry.hash == key_hash key
            then some (record pctx { key_count = add32 pctx.key_count 1 })
            else some pctx))
          × (r.maps.keys pctx.key_count ≡ (
              if entry.valid && entry.hash == key_hash key
              then some (record k { hash = key_hash key; len = length key })
              else some (record k { hash = key_hash key }))))
        (hash_keys m (key ++ stop ∷ rest))
unfolding probe
hash_keys-key_count m key stop rest pctx k entry w s h f =
    rw (hash_keys_of_key m key stop rest pctx k entry w s h f)
      (ground (arith, f.context, ==_self pctx.key_count))

-- The saved length is not bounded by BMC_MAX_KEY_LENGTH, which is 250: a request of 251 key bytes
-- whose hash is that of a valid entry is counted as a possible hit, with a key length of 251.
pub hash_keys_overlong :
    (m : Maps) (key : List ℕ) (pctx : ParsingContext) (k : MemcachedKey) (entry : CacheEntry)
    → IsKey key
    → length key ≡ 251
    → Finds m key pctx k entry
    → entry.valid ≡ true
    → entry.hash ≡ key_hash key
    → Returns
        (λ r. r.maps.keys pctx.key_count ≡ some (record k { hash = key_hash key; len = 251 }))
        (hash_keys m key)
unfolding hash_keys key_hash
hash_keys_overlong m key pctx k entry w h f v e =
    ground
      (arith, key_loop-whole 251 key fnv_offset_basis_32 0 w (omega arith), ==_self pctx.key_count)
