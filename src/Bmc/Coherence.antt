-- ===== src/Bmc/Coherence.antt =====
-- The handlers together: what a request finds after a reply was stored, and after a `set`.
use dram_pvt_mk.Base.{
  ℕ, ◌%◌, ◌≤◌, ◌<◌, ◌≡◌, refl, arith, List, ◌∷◌, ◌++◌, true, false, ◌&&◌, ◌==◌, Option, none, some,
  length, add32, drop, drop-append, ==_self, Bool-cases, inl, inr, Option-cases, ap, ◌∙◌,
}
use dram_pvt_mk.Base.Bytes.{Packet, Returns, Returns-map, Returns-×}
use dram_pvt_mk.Hash.Fnv.{is_stop}
use dram_pvt_mk.Bmc.{
  CacheEntry, MemcachedKey, ParsingContext, BmcStats, Maps, Run, IsArray, bmc_cache_entry_count,
  max_cache_data_size, memcached_payload,
}
use dram_pvt_mk.Bmc.Hashing.{key_hash, IsKey, reply_loop-append}
use dram_pvt_mk.Bmc.HashKeys.{hash_keys, Finds, hash_keys-key_count}
use dram_pvt_mk.Bmc.Update.{update_cache, up_to_date, reply_hash, store_reply, Copied, copy_reply}
use dram_pvt_mk.Bmc.Update.Laws.{text_of, newlines, update_cache_complete}
use dram_pvt_mk.Bmc.Invalidate.{invalidate_cache, tcp_payload}
use dram_pvt_mk.Bmc.Invalidate.Laws.{Clears, invalidate_cache-Clears, invalidate_cache-keys}
use dram_pvt_mk.Bmc.Invalidate.Set.{IsInvalid, set_payload, invalidate_cache-set}

-- A reply packet: headers, "VALUE ", the key, a space and the rest.
abbrev pub value_payload : List ℕ → List ℕ → List ℕ
value_payload key rest = b'V' ∷ b'A' ∷ b'L' ∷ b'U' ∷ b'E' ∷ 32 ∷ (key ++ 32 ∷ rest)

-- The hash that is stored with a reply is the hash that a request for its key computes.
reply_hash-value :
    (key rest : List ℕ)
    → IsKey key
    → length key ≤ 250
    → reply_hash (value_payload key rest) ≡ key_hash key
unfolding key_hash
reply_hash-value key rest w h = reply_loop-append 250 key rest 2166136261 w h

-- A slot that a request for a key counts as a hit.
abbrev pub Hits : List ℕ → Option CacheEntry → Type 0
Hits key none = ⊥
Hits key (some e) = (e.valid ≡ true) × (e.hash ≡ key_hash key)

abbrev pub SameContext : Maps → Run → Type 0
SameContext m r = (r.maps.keys ≡ m.keys) × (r.maps.parsing_context ≡ m.parsing_context)

store_reply-SameContext :
    (m : Maps) (p : Packet) (idx hash : ℕ) (entry : CacheEntry) (c : Copied)
    → SameContext m (store_reply m p idx hash entry c)
unfolding store_reply
store_reply-SameContext m p idx hash entry c = elim (Bool-cases (c.count == 2)) [
  | inl two ↦ rw two (elim (Option-cases (m.stats 0)) [
    | inl e ↦ rw e (refl, refl)
    | inr (stats, e) ↦ rw e (refl, refl)
  ])
  | inr short ↦ rw short (refl, refl)
]

pub update_cache-SameContext : (m : Maps) (p : Packet) → SameContext m (update_cache m p)
unfolding update_cache
update_cache-SameContext m p =
    let payload = drop memcached_payload p in
    let hash = reply_hash payload in
    elim (Option-cases (m.kcache (hash % bmc_cache_entry_count))) [
      | inl e ↦ rw e (refl, refl)
      | inr (entry, e) ↦ rw e (elim (Bool-cases (up_to_date entry hash payload)) [
        | inl fresh ↦ rw fresh (refl, refl)
        | inr stale ↦ rw stale (
            store_reply-SameContext m p (hash % bmc_cache_entry_count) hash entry
              (copy_reply entry payload))
      ])
    ]

module _ (m : Maps) (key : List ℕ) (stop : ℕ) (more : List ℕ) (pctx : ParsingContext)
    (k : MemcachedKey) (is_key : IsKey key) (stops : is_stop stop ≡ true) (fits : length key ≤ 250)
    (context : m.parsing_context 0 ≡ some pctx) (key_slot : m.keys pctx.key_count ≡ some k) where
  abbrev pub Counted : Run → Type 0
  Counted r =
      (r.maps.parsing_context 0 ≡ some (record pctx { key_count = add32 pctx.key_count 1 }))
      × (r.maps.keys pctx.key_count ≡ some (record k { hash = key_hash key; len = length key }))

  abbrev NotCounted : Run → Type 0
  NotCounted r =
      (r.maps.parsing_context 0 ≡ some pctx)
      × (r.maps.keys pctx.key_count ≡ some (record k { hash = key_hash key }))

  pub request-Counted :
      Hits key (m.kcache (key_hash key % bmc_cache_entry_count))
      → Returns Counted (hash_keys m (key ++ stop ∷ more))
  request-Counted h = elim (Option-cases (m.kcache (key_hash key % bmc_cache_entry_count))) [
    | inl e ↦ absurd (rw e at h)
    | inr (entry, e) ↦
        let v : (entry.valid ≡ true) × (entry.hash ≡ key_hash key) = rw e at h in
        let finds : Finds m key pctx k entry = record {
          context = context;
          key_slot = key_slot;
          cached = e;
        } in
        let test : (entry.valid && entry.hash == key_hash key) ≡ true = ground arith in
        rw test at (hash_keys-key_count m key stop more pctx k entry is_key stops fits finds)
  ]

  request-NotCounted :
      (entry : CacheEntry)
      → m.kcache (key_hash key % bmc_cache_entry_count) ≡ some entry
      → entry.valid ≡ false
      → Returns NotCounted (hash_keys m (key ++ stop ∷ more))
  request-NotCounted entry e v =
      let finds : Finds m key pctx k entry = record {
        context = context;
        key_slot = key_slot;
        cached = e;
      } in
      rw v at (hash_keys-key_count m key stop more pctx k entry is_key stops fits finds)

up_to_date-valid :
    (entry : CacheEntry) (hash : ℕ) (payload : List ℕ)
    → up_to_date entry hash payload ≡ true
    → (entry.valid ≡ true) × (entry.hash ≡ hash)
unfolding up_to_date
up_to_date-valid entry hash payload h = ground arith

update_cache-up_to_date :
    (m : Maps) (p : Packet) (entry : CacheEntry)
    → let payload = drop memcached_payload p in
      m.kcache (reply_hash payload % bmc_cache_entry_count) ≡ some entry
      → up_to_date entry (reply_hash payload) payload ≡ true
      → (update_cache m p).maps.kcache ≡ m.kcache
unfolding update_cache
update_cache-up_to_date m p entry found fresh = rw (found, fresh)

module _ (m : Maps) (header : Packet) (key rest : List ℕ) (entry : CacheEntry) (stats : BmcStats)
    (headers : length header ≡ memcached_payload) (is_key : IsKey key) (fits : length key ≤ 250)
    (found : m.kcache (key_hash key % bmc_cache_entry_count) ≡ some entry)
    (whole : length entry.data_bytes ≡ max_cache_data_size) (counted : m.stats 0 ≡ some stats)
    (two : newlines (text_of (value_payload key rest)) ≡ 2) where
  abbrev reply_packet : Packet
  reply_packet = header ++ value_payload key rest

  payload_of : drop memcached_payload reply_packet ≡ value_payload key rest
  payload_of = drop-append memcached_payload header (value_payload key rest) headers

  hash_of : reply_hash (drop memcached_payload reply_packet) ≡ key_hash key
  hash_of = ap (λ (l : List ℕ). reply_hash l) payload_of ∙ reply_hash-value key rest is_key fits

  -- After a reply for the key was handled, its slot is a hit: it held the reply already, or it does
  -- now.
  pub slot-Hits :
      Hits key ((update_cache m reply_packet).maps.kcache (key_hash key % bmc_cache_entry_count))
  slot-Hits =
      let d = drop memcached_payload reply_packet in
      let found' : m.kcache (reply_hash d % bmc_cache_entry_count) ≡ some entry =
        rw hash_of found in
      elim (Bool-cases (up_to_date entry (reply_hash d) d)) [
        | inl fresh ↦
            let v = up_to_date-valid entry (reply_hash d) d fresh in
            rw (update_cache-up_to_date m reply_packet entry found' fresh)
              (rw found (v.0, v.1 ∙ hash_of))
        | inr stale ↦
            let two' : newlines (text_of d) ≡ 2 = rw payload_of two in
            let slot =
              (update_cache_complete m reply_packet entry found' whole stale stats
                (reply_hash d % bmc_cache_entry_count) two' counted).1 in
            rw (← hash_of)
              (rw slot (rw (==_self (reply_hash d % bmc_cache_entry_count)) (refl, hash_of)))
      ]

  -- A request for a key that follows a whole reply for it is counted as a possible hit, and the
  -- length of the key is saved: the two loops agree on the hash of every key of at most 250 bytes.
  pub get_after_update :
      (stop : ℕ) (more : List ℕ) (pctx : ParsingContext) (k : MemcachedKey)
      → is_stop stop ≡ true
      → m.parsing_context 0 ≡ some pctx
      → m.keys pctx.key_count ≡ some k
      → Returns
          (λ r.
            (r.maps.parsing_context 0 ≡ some (record pctx { key_count = add32 pctx.key_count 1 }))
            × (r.maps.keys pctx.key_count
                ≡ some (record k { hash = key_hash key; len = length key })))
          (hash_keys (update_cache m reply_packet).maps (key ++ stop ∷ more))
  get_after_update stop more pctx k s hc hk =
      let same = update_cache-SameContext m reply_packet in
      request-Counted (update_cache m reply_packet).maps key stop more pctx k is_key s fits
        (rw (same.1) hc) (rw (same.0) hk) slot-Hits

-- A slot that was occupied and is now invalid holds an entry that is marked so.
Clears-invalid :
    (a b : Option CacheEntry) (e : CacheEntry)
    → a ≡ some e
    → Clears a b
    → IsInvalid b
    → (e' : CacheEntry) × (b ≡ some e') × (e'.valid ≡ false)
Clears-invalid a none e h c v = absurd (ground (arith, h, c))
Clears-invalid a (some e') e h c v = (e', refl, v)

-- A request for a key that follows a `set` of it is not counted as a hit: whatever the cache held
-- in the key's slot, and whatever stands behind the command in the packet, only the hash is saved.
pub get_after_set :
    (m : Maps) (header : Packet) (c : ℕ) (key rest : List ℕ) (stats : BmcStats) (stop : ℕ)
    (more : List ℕ) (pctx : ParsingContext) (k : MemcachedKey)
    → IsArray m
    → m.stats 0 ≡ some stats
    → length header ≡ tcp_payload
    → IsKey (c ∷ key)
    → length key < 250
    → is_stop stop ≡ true
    → m.parsing_context 0 ≡ some pctx
    → m.keys pctx.key_count ≡ some k
    → Returns
        (λ r.
          Returns
            (λ s.
              (s.maps.parsing_context 0 ≡ some pctx)
              × (s.maps.keys pctx.key_count ≡ some (record k { hash = key_hash (c ∷ key) })))
            (hash_keys r.maps (c ∷ (key ++ stop ∷ more))))
        (invalidate_cache m (header ++ set_payload c key rest))
get_after_set m header c key rest stats stop more pctx k a st hl w kl hs hc hk =
    let p = header ++ set_payload c key rest in
    let i = key_hash (c ∷ key) % bmc_cache_entry_count in
    let (entry, q, _) = a.slot i (omega arith) in
    Returns-map (invalidate_cache m p)
      (λ r h.
        let (e', q', v) = Clears-invalid (m.kcache i) (r.maps.kcache i) entry q (h.0).2 (h.1).1 in
        request-NotCounted r.maps (c ∷ key) stop more pctx k w hs (omega arith) (rw ((h.1).0).1 hc)
          (rw ((h.1).0).0 hk) e' q' v)
      (Returns-× _ _ (invalidate_cache m p) (invalidate_cache-Clears m p i) (
        Returns-× _ _ (invalidate_cache m p) (invalidate_cache-keys m p)
          (invalidate_cache-set m header c key rest stats a st hl w (omega arith))))
