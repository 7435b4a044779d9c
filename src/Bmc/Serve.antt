-- ===== src/Bmc/Serve.antt =====
-- A reply of memcached and a later request for its key, through the filters of
-- examples/bmc-cache/bmc_kern.c.
use dram_pvt_mk.Base.{
  ℕ, ◌+◌, ◌%◌, ◌≤◌, ◌≡◌, ◌∙◌, refl, ap, arith, List, ◌∷◌, ◌++◌, true, ◌==◌, Option, some, length,
  drop, drop-append, swap16, Option-cases, Bool-cases, inl, inr, length-append,
}
use dram_pvt_mk.Base.Table.{store}
use dram_pvt_mk.Base.Bytes.{Packet, byte_at, half_at, Returns}
use dram_pvt_mk.Base.Xdp.{ipproto_udp}
use dram_pvt_mk.Hash.Fnv.{is_stop}
use dram_pvt_mk.Bmc.{
  CacheEntry, MemcachedKey, ParsingContext, BmcStats, Maps, Run, memcached_payload,
  bmc_cache_entry_count, max_cache_data_size,
}
use dram_pvt_mk.Bmc.Frame.{Frame, Delta, forward, packet_of, Adjusts}
use dram_pvt_mk.Bmc.Hashing.{IsKey, key_hash}
use dram_pvt_mk.Bmc.HashKeys.{hash_keys}
use dram_pvt_mk.Bmc.Update.{Copied, update_cache, store_reply, reply_hash, up_to_date, copy_reply}
use dram_pvt_mk.Bmc.Update.Laws.{newlines, text_of}
use dram_pvt_mk.Bmc.Coherence.{value_payload, slot-Hits, request-Counted, update_cache-SameContext}
use dram_pvt_mk.Bmc.Filter.{rx_filter, tx_filter, count_reply}
use dram_pvt_mk.Bmc.Filter.Laws.{IsGet, parsed, rx_filter_get, tx_filter_value}

abbrev HasStats : Run → Type 0
HasStats r = (s : BmcStats) × (r.maps.stats 0 ≡ some s)

store_reply-HasStats :
    (m : Maps) (p : Packet) (idx hash : ℕ) (entry : CacheEntry) (c : Copied) (s : BmcStats)
    → m.stats 0 ≡ some s
    → HasStats (store_reply m p idx hash entry c)
unfolding store_reply
store_reply-HasStats m p idx hash entry c s h = elim (Bool-cases (c.count == 2)) [
  | inl two ↦ rw two (rw h (_, refl))
  | inr short ↦ rw short (s, h)
]

update_cache-HasStats :
    (m : Maps) (p : Packet) (s : BmcStats) → m.stats 0 ≡ some s → HasStats (update_cache m p)
unfolding update_cache
update_cache-HasStats m p s h =
    let payload = drop memcached_payload p in
    let hash = reply_hash payload in
    elim (Option-cases (m.kcache (hash % bmc_cache_entry_count))) [
      | inl e ↦ rw e (s, h)
      | inr (entry, e) ↦ rw e (elim (Bool-cases (up_to_date entry hash payload)) [
        | inl fresh ↦ rw fresh (s, h)
        | inr stale ↦ rw stale (
            store_reply-HasStats m p (hash % bmc_cache_entry_count) hash entry
              (copy_reply entry payload) s h)
      ])
    ]

-- A reply of memcached for a key, as `bmc_tx_filter_main` lets it through to the cache.
pub record IsReply (p header key rest : Packet) (skb_len : ℕ) : Type 0 where
  pub bytes : p ≡ header ++ value_payload key rest
  pub headers : length header ≡ memcached_payload
  pub over_udp : byte_at p 23 ≡ ipproto_udp
  pub from_memcached : half_at p 34 ≡ swap16 11211
  pub fits : skb_len ≤ 1353
  pub whole : newlines (text_of (value_payload key rest)) ≡ 2

-- What the cache must hold for them: the entry of the key's slot, the statistics, the parsing
-- context and the first key slot.
pub record Ready (m : Maps) (key : List ℕ) (entry : CacheEntry) (stats : BmcStats)
    (pctx : ParsingContext) (k : MemcachedKey) : Type 0 where
  pub cached : m.kcache (key_hash key % bmc_cache_entry_count) ≡ some entry
  pub whole : length entry.data_bytes ≡ max_cache_data_size
  pub counted : m.stats 0 ≡ some stats
  pub context : m.parsing_context 0 ≡ some pctx
  pub key_slot : m.keys 0 ≡ some k

-- The two filters and the key hashing agree on the slot of a key: after a whole reply for a key of 1 to
-- 250 bytes went out through the transmit filter, a GET request for this key passes the receive
-- filter and is counted by the key hashing as one possible hit, whose hash and length are saved in
-- the first key slot. The bytes of the key are not saved, since the source has that loop commented
-- out; what the reply program sends is not part of this. It needs that the maps have their entries,
-- that the entry's buffer has its full size, and that `bpf_xdp_adjust_head` succeeds.
pub get_after_reply :
    (adjust_head : Frame → Delta → Option Frame)
    → Adjusts adjust_head
    → (m : Maps) (p header rest : Packet) (skb_len c : ℕ) (cs : List ℕ) (entry : CacheEntry)
      (stats : BmcStats) (pctx : ParsingContext) (k : MemcachedKey) (f g : Frame)
      (request more : Packet) (n stop : ℕ)
    → Ready m (c ∷ cs) entry stats pctx k
    → IsReply p header (c ∷ cs) rest skb_len
    → IsKey (c ∷ cs)
    → length (c ∷ cs) ≤ 250
    → is_stop stop ≡ true
    → IsGet f request n c (cs ++ stop ∷ more)
    → adjust_head f (forward (54 + n)) ≡ some g
    → let r = rx_filter adjust_head (tx_filter m skb_len p).maps f in
      Returns
        (λ s.
          (s.maps.parsing_context 0
            ≡ some (record pctx {
              key_count = 1;
              current_key = 0;
              write_pkt_offset = 0;
              read_pkt_offset = 4 + n;
            }))
          × (s.maps.keys 0 ≡ some (record k { hash = key_hash (c ∷ cs); len = length (c ∷ cs) })))
        (hash_keys r.maps (packet_of r.frame))
get_after_reply adjust_head moves m p header rest skb_len c cs entry stats pctx k f g request more n
      stop ready reply is_key short stops get moved =
    let m1 = record m { stats = store m.stats 0 (count_reply stats) } in
    let text : drop 50 p ≡ value_payload (c ∷ cs) rest =
      ap (drop 50) reply.bytes ∙ drop-append 50 header _ reply.headers in
    let size : length p ≡ length (header ++ value_payload (c ∷ cs) rest) =
      ap (λ q. length q) reply.bytes in
    let long : 56 ≤ length p =
      omega (arith, size, length-append header (value_payload (c ∷ cs) rest), reply.headers) in
    let sent : tx_filter m skb_len p ≡ update_cache m1 p =
      tx_filter_value m skb_len p stats reply.fits long reply.over_udp reply.from_memcached
        (rw text refl) ready.counted in
    let hits =
      slot-Hits m1 header (c ∷ cs) rest entry (count_reply stats) reply.headers is_key short
        ready.cached ready.whole refl reply.whole in
    let same = update_cache-SameContext m1 p in
    let (stats2, hs) = update_cache-HasStats m1 p (count_reply stats) refl in
    let arrived =
      rx_filter_get adjust_head moves f g request (cs ++ stop ∷ more) n c get moved
        (update_cache m1 p).maps stats2 pctx hs (rw (same.1) ready.context) in
    let m3 = parsed n (update_cache m1 p).maps stats2 pctx in
    rw sent (
      rw (arrived.0, arrived.1)
        (request-Counted m3 (c ∷ cs) stop more _ k is_key stops short refl
          (rw (same.0) ready.key_slot) (rw (reply.bytes) hits)))
