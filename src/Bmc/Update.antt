-- ===== src/Bmc/Update.antt =====
-- `bmc_update_cache_main` of examples/bmc-cache/bmc_kern.c: a reply of the server is stored in the
-- cache slot of its key.
pub mod Laws
use dram_pvt_mk.Base.{
  ℕ, zero, suc, ◌+◌, ◌%◌, List, [], ◌∷◌, Bool, true, false, not, ◌&&◌, ◌||◌, ◌==◌, if◌then◌else◌,
  Option, none, some, length, get_or, set, drop, ltb, add32,
}
use dram_pvt_mk.Base.Table.{store, or_return}
use dram_pvt_mk.Base.Bytes.{Packet}
use dram_pvt_mk.Base.Xdp.{xdp_pass, tc_act_ok, ethhdr_size, iphdr_size, udphdr_size}
use dram_pvt_mk.Hash.Fnv.{fnv_offset_basis_32, bmc_max_key_length}
use dram_pvt_mk.Bmc.{
  CacheEntry, BmcStats, Maps, Run, bmc_cache_entry_count, max_cache_data_size, memcached_payload,
}
use dram_pvt_mk.Bmc.Hashing.{reply_loop}

-- The comparison of the key in the reply with the one in the entry, from `off` on; `true` is
-- `diff == 1`. The payload is at `off`. The index stays below 256, inside the buffer of an entry.
unfoldable pub diff_loop : ℕ → ℕ → List ℕ → CacheEntry → Bool
diff_loop zero off payload entry = false
diff_loop (suc left) off [] entry = false
diff_loop (suc left) off (c ∷ payload) entry =
    let rest = diff_loop left (off + 1) payload entry in
    let d = get_or entry.data_bytes off 0 in
    if ltb off entry.len && not (c == b' ' && d == b' ')
    then (if d == c then rest else true)
    else false

-- What the copying loop leaves: `entry->data`, `entry->len`, and the newlines met.
pub record Copied : Type 0 where
  pub data_bytes : List ℕ
  pub len : ℕ
  pub count : ℕ

-- `j < BMC_MAX_CACHE_DATA_SIZE && payload+j+1 <= data_end && count < 2`.
unfoldable pub copy_loop : ℕ → ℕ → List ℕ → Copied → Copied
copy_loop zero j payload s = s
copy_loop (suc left) j [] s = s
copy_loop (suc left) j (c ∷ payload) s =
    let rest = copy_loop left (j + 1) payload (record {
      data_bytes = set s.data_bytes j c;
      len = add32 s.len 1;
      count = if c == 10 then s.count + 1 else s.count;
    }) in
    if ltb s.count 2 then rest else s

-- The entry after the copy: it is marked valid, with the new hash, if two newlines were met.
unfoldable pub fill : CacheEntry → ℕ → Copied → CacheEntry
fill entry hash c =
    let entry' = record entry { data_bytes = c.data_bytes; len = c.len } in
    if c.count == 2 then record entry' { valid = true; hash = hash } else entry'

-- The copy of the reply into the slot `idx`, and the count of updates.
unfoldable pub store_reply : Maps → Packet → ℕ → ℕ → CacheEntry → Copied → Run
unfolding fill
store_reply m p idx hash entry c =
    let m' = record m { kcache = store m.kcache idx (fill entry hash c) } in
    let ok : Run = record { maps = m'; packet = p; verdict = tc_act_ok } in
    if c.count == 2
    then or_return (m.stats 0) (record ok { verdict = xdp_pass })
        (λ stats. record ok {
          maps = record m' {
            stats = store m.stats 0 (record stats { update_count = add32 stats.update_count 1 });
          };
        })
    else ok

-- `(entry->valid && entry->hash == hash)` and then `diff == 0`: no need to update.
unfoldable pub up_to_date : CacheEntry → ℕ → List ℕ → Bool
unfolding diff_loop
up_to_date entry hash payload =
    entry.valid
    && (entry.hash == hash && not (diff_loop bmc_max_key_length 6 (drop 6 payload) entry))

-- The reply in a packet: its bytes, the hash of its key, and the copy that the entry would get.
abbrev pub reply_hash : List ℕ → ℕ
reply_hash payload = reply_loop bmc_max_key_length (drop 6 payload) fnv_offset_basis_32

abbrev pub copy_reply : CacheEntry → List ℕ → Copied
copy_reply entry payload =
    copy_loop max_cache_data_size 0 payload
      (record { data_bytes = entry.data_bytes; len = 0; count = 0 })

unfoldable pub update_cache : Maps → Packet → Run
unfolding store_reply copy_loop up_to_date
update_cache m p =
    let ok : Run = record { maps = m; packet = p; verdict = tc_act_ok } in
    let payload = drop memcached_payload p in
    let hash = reply_hash payload in
    let idx = hash % bmc_cache_entry_count in
    or_return (m.kcache idx) ok λ entry.
      if up_to_date entry hash payload
      then ok
      else store_reply m p idx hash entry (copy_reply entry payload)
