-- ===== src/Tests/Bmc.antt =====
-- The cache: one entry of each kind, and a request, a reply and a `set` for the key "k".
use dram_pvt_mk.Base.{
  ℕ, zero, suc, ◌+◌, ◌%◌, ◌≡◌, refl, arith, List, [], ◌∷◌, ◌++◌, true, false, ltb, ◌==◌, none, some,
  if◌then◌else◌,
}
use dram_pvt_mk.Base.Bytes.{Packet, Returns}
use dram_pvt_mk.Base.Xdp.{xdp_pass, tc_act_ok}
use dram_pvt_mk.Hash.Fnv.{fnv_step}
use dram_pvt_mk.Bmc.{
  CacheEntry, MemcachedKey, ParsingContext, BmcStats, Maps, IsArray, bmc_cache_entry_count,
}
use dram_pvt_mk.Bmc.Hashing.{IsKey, char_step, reply_loop, key_hash}
use dram_pvt_mk.Bmc.HashKeys.{hash_keys, Finds}
use dram_pvt_mk.Bmc.Invalidate.{invalidate_cache}
use dram_pvt_mk.Bmc.Invalidate.Laws.{Clears, invalidate_cache-Clears}
use dram_pvt_mk.Bmc.Invalidate.Set.{IsInvalid, set_payload, invalidate_cache-set}
use dram_pvt_mk.Bmc.Update.{update_cache, reply_hash, up_to_date}
use dram_pvt_mk.Bmc.Update.Laws.{update_cache_complete, update_cache_truncated, stored}
use dram_pvt_mk.Bmc.Coherence.{get_after_update, get_after_set, value_payload}

abbrev pub zeros : ℕ → List ℕ
zeros zero = []
zeros (suc n) = 0 ∷ zeros n

abbrev pub empty_entry : CacheEntry
empty_entry = record { len = 0; valid = false; hash = 0; data_bytes = zeros 1303 }

abbrev pub no_stats : BmcStats
no_stats = record {
  get_recv_count = 0;
  set_recv_count = 0;
  get_resp_count = 0;
  hit_misprediction = 0;
  hit_count = 0;
  miss_count = 0;
  update_count = 0;
  invalidation_count = 0;
}

abbrev pub context : ParsingContext
context = record { key_count = 0; current_key = 0; read_pkt_offset = 0; write_pkt_offset = 0 }

abbrev pub no_key : MemcachedKey
no_key = record { hash = 0; data_bytes = zeros 250; len = 0 }

abbrev pub maps : CacheEntry → Maps
maps e = record {
  kcache = λ i. if ltb i 2 then some e else none;
  keys = λ i. if ltb i 30 then some no_key else none;
  parsing_context = λ i. if i == 0 then some context else none;
  stats = λ i. if i == 0 then some no_stats else none;
}

maps-IsArray : IsArray (maps empty_entry)
maps-IsArray = record {
  slot = λ i h. (empty_entry, (let t : ltb i 2 ≡ true = ground arith in rw t), refl);
}

abbrev pub key_k : List ℕ
key_k = 107 ∷ []

hash_of_k : key_hash key_k ≡ 3993778410
unfolding key_hash char_step fnv_step
hash_of_k = refl

pub found_k : (e : CacheEntry) → (maps e).kcache (key_hash key_k % 2) ≡ some e
unfolding key_hash char_step fnv_step
found_k e = refl

abbrev hit_entry : CacheEntry
hit_entry = record empty_entry { valid = true; hash = 3993778410 }

-- "k\r"
Finds-k : (e : CacheEntry) → Finds (maps e) key_k context no_key e
Finds-k e = record { context = refl; key_slot = refl; cached = found_k e }

abbrev letters : ℕ → List ℕ
letters zero = []
letters (suc n) = 97 ∷ letters n

letters-IsKey : (n : ℕ) → IsKey (letters n)
letters-IsKey zero = tt
letters-IsKey (suc n) = (refl, letters-IsKey n)

long_entry : CacheEntry
long_entry = record empty_entry { valid = true; hash = key_hash (letters 251) }

long_slot : (h : ℕ) (e : CacheEntry) → (maps e).kcache (h % 2) ≡ some e
long_slot h e = let t : ltb (h % 2) 2 ≡ true = ground arith in rw t

abbrev headers_of : ℕ → List ℕ
headers_of n = zeros n

-- "set k 0" behind the headers of a TCP packet.
abbrev set_packet : Packet
set_packet = zeros 54 ++ set_payload 107 [] (48 ∷ [])

invalidate_cache-Clears_example :
    Returns
      (λ r.
        (r.packet ≡ set_packet)
        × (r.verdict ≡ xdp_pass)
        × Clears (some hit_entry) (r.maps.kcache 0))
      (invalidate_cache (maps hit_entry) set_packet)
invalidate_cache-Clears_example = invalidate_cache-Clears (maps hit_entry) set_packet 0

hit_maps-IsArray : IsArray (maps hit_entry)
hit_maps-IsArray = record {
  slot = λ i h. (hit_entry, (let t : ltb i 2 ≡ true = ground arith in rw t), refl);
}

invalidate_cache-set_example :
    Returns
      (λ r. IsInvalid (r.maps.kcache (key_hash key_k % bmc_cache_entry_count)))
      (invalidate_cache (maps hit_entry) set_packet)
invalidate_cache-set_example =
    invalidate_cache-set (maps hit_entry) (zeros 54) 107 [] (48 ∷ []) no_stats hit_maps-IsArray refl
      refl (refl, tt) (omega arith)

get_after_set_example :
    Returns
      (λ r.
        Returns
          (λ s.
            (s.maps.parsing_context 0 ≡ some context)
            × (s.maps.keys 0 ≡ some (record no_key { hash = key_hash key_k })))
          (hash_keys r.maps (107 ∷ 13 ∷ [])))
      (invalidate_cache (maps hit_entry) set_packet)
get_after_set_example =
    get_after_set (maps hit_entry) (zeros 54) 107 [] (48 ∷ []) no_stats 13 [] context no_key
      hit_maps-IsArray refl refl (refl, tt) (omega arith) refl refl refl

-- "VALUE k 0 1\r\n7\r\n" behind the headers of a UDP packet.
abbrev pub rest_of_reply : List ℕ
rest_of_reply = 48 ∷ 32 ∷ 49 ∷ 13 ∷ 10 ∷ 55 ∷ 13 ∷ 10 ∷ []

abbrev reply : Packet
reply = zeros 50 ++ value_payload key_k rest_of_reply

get_after_update_example :
    Returns
      (λ r.
        (r.maps.parsing_context 0 ≡ some (record context { key_count = 1 }))
        × (r.maps.keys 0 ≡ some (record no_key { hash = key_hash key_k; len = 1 })))
      (hash_keys (update_cache (maps empty_entry) reply).maps (107 ∷ 13 ∷ []))
get_after_update_example =
    get_after_update (maps empty_entry) (zeros 50) key_k rest_of_reply empty_entry no_stats refl
      (refl, tt) (omega arith) (found_k empty_entry) refl refl refl 13 [] context no_key refl refl
      refl

reply_slot :
    (maps empty_entry).kcache (reply_hash (value_payload key_k rest_of_reply) % 2)
    ≡ some empty_entry
reply_slot = long_slot (reply_hash (value_payload key_k rest_of_reply)) empty_entry

empty-stale : (h : ℕ) (p : List ℕ) → up_to_date empty_entry h p ≡ false
unfolding up_to_date
empty-stale h p = refl

update_cache_complete_example :
    let r = update_cache (maps empty_entry) reply in
    (r.verdict ≡ tc_act_ok)
    × (r.maps.kcache 0 ≡ (
        if reply_hash (value_payload key_k rest_of_reply) % 2 == 0
        then some (record (stored empty_entry (value_payload key_k rest_of_reply)) {
          valid = true;
          hash = reply_hash (value_payload key_k rest_of_reply);
        })
        else some empty_entry))
    × (r.maps.stats 0 ≡ some (record no_stats { update_count = 1 }))
update_cache_complete_example =
    update_cache_complete (maps empty_entry) reply empty_entry reply_slot refl
      (empty-stale (reply_hash (value_payload key_k rest_of_reply))
        (value_payload key_k rest_of_reply))
      no_stats 0 refl refl

-- The same reply, cut off before its second line.
abbrev cut : List ℕ
cut = value_payload key_k (48 ∷ 32 ∷ 49 ∷ 13 ∷ 10 ∷ [])

-- A valid entry for another key of the same slot.
abbrev other_entry : CacheEntry
other_entry = record empty_entry { valid = true; hash = 3993778410 + 2 }

cut-stale : up_to_date other_entry (reply_hash cut) cut ≡ false
unfolding up_to_date reply_loop char_step fnv_step
cut-stale = refl

update_cache_truncated_example :
    let r = update_cache (maps other_entry) (zeros 50 ++ cut) in
    (r.verdict ≡ tc_act_ok)
    × (r.maps.kcache (reply_hash cut % 2) ≡ some (stored other_entry cut))
    × ((stored other_entry cut).valid ≡ true)
    × ((stored other_entry cut).hash ≡ 3993778410 + 2)
    × (r.maps.stats ≡ (maps other_entry).stats)
update_cache_truncated_example =
    update_cache_truncated (maps other_entry) (zeros 50 ++ cut) other_entry
      (long_slot (reply_hash cut) other_entry) refl cut-stale (omega arith)
