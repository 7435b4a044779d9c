-- ===== src/Bmc/Update/Laws.antt =====
-- What a stored reply looks like, and when an entry stays valid without one.
use dram_pvt_mk.Base.{
  ℕ, zero, suc, ◌+◌, ◌%◌, ◌^◌, ◌≤◌, ◌<◌, ◌≡◌, ◌≢◌, refl, ap, ◌∙◌, arith, List, [], ◌∷◌, ◌++◌, true,
  false, ◌==◌, if◌then◌else◌, some, length, set, drop, ltb, add32, ==_self,
}
use dram_pvt_mk.Base.Table.{store}
use dram_pvt_mk.Base.Bytes.{Packet}
use dram_pvt_mk.Base.Xdp.{tc_act_ok}
use dram_pvt_mk.Bmc.{
  CacheEntry, BmcStats, Maps, bmc_cache_entry_count, max_cache_data_size, memcached_payload,
}
use dram_pvt_mk.Bmc.Update.{
  copy_loop, Copied, fill, store_reply, up_to_date, reply_hash, copy_reply, update_cache,
}

-- The newlines of a text.
abbrev pub newlines : List ℕ → ℕ
newlines [] = 0
newlines (c ∷ text) = (if c == 10 then 1 else 0) + newlines text

-- The reply as it is meant to be stored: up to its second newline, in `n` bytes at most, of which
-- `k` newlines have been met.
abbrev pub reply_text : ℕ → ℕ → List ℕ → List ℕ
reply_text zero k payload = []
reply_text (suc n) k [] = []
reply_text (suc n) k (c ∷ payload) =
    let rest = reply_text n (if c == 10 then k + 1 else k) payload in
    if ltb k 2 then c ∷ rest else []

-- `xs` with `ys` written over it from index `j` on.
abbrev pub overwrite : List ℕ → ℕ → List ℕ → List ℕ
overwrite xs j [] = xs
overwrite xs j (y ∷ ys) = overwrite (set xs j y) (j + 1) ys

length-reply_text : (n k : ℕ) (payload : List ℕ) → length (reply_text n k payload) ≤ n
length-reply_text zero k payload = omega arith
length-reply_text (suc n) k [] = omega arith
length-reply_text (suc n) k (c ∷ payload) =
    ground (arith, length-reply_text n (if c == 10 then k + 1 else k) payload)

copy_loop_lem :
    (n j : ℕ) (payload : List ℕ) (s : Copied)
    → s.len + n < 2 ^ 32
    → copy_loop n j payload s ≡ record {
      data_bytes = overwrite s.data_bytes j (reply_text n s.count payload);
      len = s.len + length (reply_text n s.count payload);
      count = s.count + newlines (reply_text n s.count payload);
    }
unfolding copy_loop
copy_loop_lem zero j payload s h = ground arith
copy_loop_lem (suc n) j [] s h = ground arith
copy_loop_lem (suc n) j (c ∷ payload) s h = ground (
  arith,
  copy_loop_lem n (j + 1) payload (record {
    data_bytes = set s.data_bytes j c;
    len = add32 s.len 1;
    count = if c == 10 then s.count + 1 else s.count;
  }),
)

overwrite-suc :
    (x : ℕ) (xs : List ℕ) (j : ℕ) (ys : List ℕ)
    → overwrite (x ∷ xs) (suc j) ys ≡ x ∷ overwrite xs j ys
overwrite-suc x xs j [] = refl
overwrite-suc x xs j (y ∷ ys) =
    let e : suc j + 1 ≡ suc (j + 1) = omega arith in rw e (overwrite-suc x (set xs j y) (j + 1) ys)

overwrite_front :
    (xs ys : List ℕ) → length ys ≤ length xs → overwrite xs 0 ys ≡ ys ++ drop (length ys) xs
overwrite_front xs [] h = refl
overwrite_front [] (y ∷ ys) h = absurd (omega arith)
overwrite_front (x ∷ xs) (y ∷ ys) h =
    overwrite-suc y xs 0 ys ∙ ap (λ (l : List ℕ). y ∷ l) (overwrite_front xs ys (omega arith))

-- The text of the reply in a payload: up to its second newline, in the size of an entry at most.
abbrev pub text_of : List ℕ → List ℕ
text_of payload = reply_text max_cache_data_size 0 payload

copy_reply_lem :
    (entry : CacheEntry) (payload : List ℕ)
    → length entry.data_bytes ≡ max_cache_data_size
    → copy_reply entry payload ≡ record {
      data_bytes = text_of payload ++ drop (length (text_of payload)) entry.data_bytes;
      len = length (text_of payload);
      count = newlines (text_of payload);
    }
copy_reply_lem entry payload h = ground (
  arith,
  copy_loop_lem max_cache_data_size 0 payload
      (record { data_bytes = entry.data_bytes; len = 0; count = 0 }) (omega arith),
  length-reply_text max_cache_data_size 0 payload,
  overwrite_front entry.data_bytes (text_of payload)
      (omega (arith, length-reply_text max_cache_data_size 0 payload)),
)

-- What the slot of the reply's key holds after the handler, if the entry was not up to date.
abbrev pub stored : CacheEntry → List ℕ → CacheEntry
stored entry payload = record entry {
  len = length (text_of payload);
  data_bytes = text_of payload ++ drop (length (text_of payload)) entry.data_bytes;
}

store_reply_short :
    (m : Maps) (p : Packet) (idx hash : ℕ) (entry : CacheEntry) (c : Copied)
    → c.count ≢ 2
    → store_reply m p idx hash entry c ≡ record {
      maps = record m {
        kcache = store m.kcache idx (record entry { data_bytes = c.data_bytes; len = c.len });
      };
      packet = p;
      verdict = tc_act_ok;
    }
unfolding store_reply fill
store_reply_short m p idx hash entry c h =
    let short : (c.count == 2) ≡ false = ground arith in rw short

module _ (m : Maps) (p : Packet) (entry : CacheEntry)
    (found : m.kcache (reply_hash (drop memcached_payload p) % bmc_cache_entry_count) ≡ some entry)
    (whole : length entry.data_bytes ≡ max_cache_data_size)
    (stale : up_to_date entry (reply_hash (drop memcached_payload p)) (drop memcached_payload p)
      ≡ false) where
  abbrev payload : List ℕ
  payload = drop memcached_payload p

  abbrev idx : ℕ
  idx = reply_hash payload % bmc_cache_entry_count

  -- A reply with two newlines within the size of an entry, for a key whose entry is not up to date (a
  -- valid one with the hash of the key, and with no other byte in the place of the key), is stored
  -- whole: the slot of its key is valid, has the hash of the key, and holds the reply up to the
  -- second newline; the update is counted. No other slot changes. The slot and the statistics must
  -- be there, and the entry's buffer must have its full size.
  pub update_cache_complete :
      (stats : BmcStats) (i : ℕ)
      → newlines (text_of payload) ≡ 2
      → m.stats 0 ≡ some stats
      → let r = update_cache m p in
        (r.verdict ≡ tc_act_ok)
        × (r.maps.kcache i ≡ (
            if idx == i
            then some (record (stored entry payload) { valid = true; hash = reply_hash payload })
            else m.kcache i))
        × (r.maps.stats 0 ≡ some (record stats { update_count = add32 stats.update_count 1 }))
  unfolding update_cache store_reply fill
  update_cache_complete stats i two st = ground (arith, copy_reply_lem entry payload whole)

  -- A reply without two newlines in the size of an entry, for a key whose entry is not up to date (a
  -- valid one with the hash of the key, and with no other byte in the place of the key), overwrites
  -- the bytes of the slot and its length all the same, and is not counted: an entry that was valid
  -- stays valid, with the hash of the reply that was there before. The slot must be there, with a
  -- buffer of full size.
  pub update_cache_truncated :
      newlines (text_of payload) ≢ 2
      → let r = update_cache m p in
        (r.verdict ≡ tc_act_ok)
        × (r.maps.kcache idx ≡ some (stored entry payload))
        × ((stored entry payload).valid ≡ entry.valid)
        × ((stored entry payload).hash ≡ entry.hash)
        × (r.maps.stats ≡ m.stats)
  unfolding update_cache
  update_cache_truncated ne =
      let c = copy_reply_lem entry payload whole in
      let short : (copy_reply entry payload).count ≢ 2 = rw c ne in
      rw (found, stale)
        (rw (store_reply_short m p idx (reply_hash payload) entry (copy_reply entry payload) short)
          (rw c (refl, rw (==_self idx), refl, refl, refl)))
