-- ===== src/Bmc/Reply.antt =====
-- `bmc_write_reply_main` of examples/bmc-cache/bmc_kern.c: the cached data of one key after the
-- other is written into the packet, and the last turn completes and sends it.
pub mod Laws
use dram_pvt_mk.Base.{
  ℕ, zero, suc, ◌+◌, ◌-◌, ◌%◌, List, [], ◌∷◌, ◌++◌, Bool, true, false, not, ◌&&◌, ◌||◌, ◌==◌, ltb,
  leb, if◌then◌else◌, Option, none, some, length, add32, u16, swap16, get_or,
}
use dram_pvt_mk.Base.Table.{store, or_return}
use dram_pvt_mk.Base.Bytes.{Packet, bytes_from, write, le_bytes}
use dram_pvt_mk.Base.Xdp.{xdp_aborted, xdp_drop, xdp_pass, xdp_tx, ethhdr_size}
use dram_pvt_mk.Checksum.{clear_check, compute_ip_checksum}
use dram_pvt_mk.Hash.Fnv.{bmc_max_key_length}
use dram_pvt_mk.Bmc.{
  CacheEntry, MemcachedKey, ParsingContext, BmcStats, Maps, bmc_cache_entry_count,
  max_cache_data_size, max_key_in_packet, memcached_payload, adjust_head_len,
}
use dram_pvt_mk.Bmc.Frame.{Frame, Delta, forward, backward, FrameRun, packet_of, with_packet}

-- The loop that compares the saved key with the one in the entry, without leaving it early. Both
-- arrays are longer than what `left` rounds from `i` on read.
unfoldable pub same_key : ℕ → ℕ → MemcachedKey → CacheEntry → Bool → Bool
same_key zero i key entry hit = hit
same_key (suc left) i key entry hit =
    let next =
      if get_or key.data_bytes i 0 == get_or entry.data_bytes (6 + i) 0 then hit else false in
    let rest = same_key left (i + 1) key entry next in if ltb i key.len then rest else hit

pub record Writing : Type 0 where
  pub off : ℕ
  pub written : ℕ
  pub packet : Packet

-- The loop over eight bytes at once. Its condition bounds `off` by the size of the entry, so 163
-- rounds reach its end.
unfoldable pub copy_words : ℕ → CacheEntry → Writing → Writing
copy_words zero entry w = w
copy_words (suc left) entry w =
    let next : Writing = record {
      off = w.off + 8;
      written = w.written + 8;
      packet = write w.packet w.off (bytes_from entry.data_bytes w.off 8);
    } in
    let rest = copy_words left entry next in
    if ltb (w.off + 8) max_cache_data_size
      && (leb (w.off + 8) entry.len && leb (w.off + 8) (length w.packet))
    then rest
    else w

-- The loop over the bytes that are left.
unfoldable pub copy_bytes : ℕ → CacheEntry → Writing → Writing
copy_bytes zero entry w = w
copy_bytes (suc left) entry w =
    let next : Writing = record {
      off = w.off + 1;
      written = w.written + 1;
      packet = write w.packet w.off (bytes_from entry.data_bytes w.off 1);
    } in
    let rest = copy_bytes left entry next in
    if ltb w.off max_cache_data_size && (ltb w.off entry.len && leb (w.off + 1) (length w.packet))
    then rest
    else w

unfoldable pub copy_entry : CacheEntry → Packet → Writing
unfolding copy_words copy_bytes
copy_entry entry p =
    copy_bytes max_cache_data_size entry
      (copy_words 163 entry (record { off = 0; written = 0; packet = p }))

-- `cache_hit` and what is written: `cache_hit` is 1 also when the entry is not looked at.
unfoldable pub serve : MemcachedKey → CacheEntry → Packet → Bool × Writing
unfolding same_key copy_entry
serve key entry p =
    let nothing : Writing = record { off = 0; written = 0; packet = p } in
    if entry.valid && key.hash == entry.hash
    then (if same_key bmc_max_key_length 0 key entry true
        then (true, copy_entry entry p)
        else (false, nothing))
    else (true, nothing)

unfoldable pub count_key : Bool → BmcStats → BmcStats
count_key true s = record s { hit_count = add32 s.hit_count 1 }
count_key false s = record s { miss_count = add32 s.miss_count 1 }

-- "END\r\n"
abbrev pub end_text : List ℕ
end_text = b'E' ∷ b'N' ∷ b'D' ∷ 13 ∷ 10 ∷ []

-- The lengths and the checksum of a reply of `total` bytes.
unfoldable pub reply_headers : Packet → ℕ → Packet
reply_headers p total =
    let p1 = clear_check (write p 16 (le_bytes 2 (swap16 (total - ethhdr_size)))) 14 in
    let p2 = write p1 24 (le_bytes 2 (compute_ip_checksum p1 14)) in
    write p2 38 (le_bytes 2 (swap16 (total - 34)) ++ le_bytes 2 0)

-- `adjust_tail f n` is `bpf_xdp_adjust_tail` by `-n`, whose failure the code ignores.
unfoldable pub send_reply :
    (Frame → Delta → Option Frame)
    → (Frame → ℕ → Option Frame)
    → Maps
    → Frame
    → Packet
    → ℕ
    → ParsingContext
    → FrameRun
unfolding reply_headers
send_reply adjust_head adjust_tail m f p written pctx =
    if ltb (length p) (written + 5)
    then (record { maps = m; frame = f; verdict = xdp_drop })
    else (let f1 = with_packet f (write p written end_text) in
        let dropped : FrameRun = record { maps = m; frame = f1; verdict = xdp_drop } in
        or_return (adjust_head f1 (backward (memcached_payload + pctx.write_pkt_offset))) dropped
          λ g.
            let q = packet_of g in
            if ltb (length q) 42
            then (record { maps = m; frame = g; verdict = xdp_pass })
            else (let total = memcached_payload + pctx.write_pkt_offset + (written + 5) in
                let g1 = with_packet g (reply_headers q total) in
                or_return (adjust_tail g1 (length q - total))
                  (record { maps = m; frame = g1; verdict = xdp_tx })
                  λ k. record { maps = m; frame = k; verdict = xdp_tx }))

-- What is done once the key is served; `pctx` has the number of the next key.
unfoldable pub next_key :
    (Frame → Delta → Option Frame)
    → (Frame → ℕ → Option Frame)
    → Maps
    → Frame
    → Packet
    → ℕ
    → ParsingContext
    → BmcStats
    → FrameRun
unfolding send_reply
next_key adjust_head adjust_tail m f p written pctx stats =
    let last = pctx.current_key == pctx.key_count in
    let dropped : FrameRun = record { maps = m; frame = f; verdict = xdp_drop } in
    if last && (ltb 0 pctx.write_pkt_offset || ltb 0 written)
    then send_reply adjust_head adjust_tail m f p written pctx
    else if last
    then (let m' = record m {
      stats =
          store m.stats 0
            (record stats { hit_misprediction = add32 stats.hit_misprediction pctx.key_count });
    } in
        or_return (adjust_head f (forward (adjust_head_len - memcached_payload)))
          (record { maps = m'; frame = f; verdict = xdp_pass })
          λ g. record { maps = m'; frame = g; verdict = xdp_pass })
    else if ltb pctx.current_key max_key_in_packet
    then (let pctx' = record pctx { write_pkt_offset = u16 (pctx.write_pkt_offset + written) } in
        let m' = record m { parsing_context = store m.parsing_context 0 pctx' } in
        or_return (adjust_head f (forward written))
          (record { maps = m'; frame = f; verdict = xdp_drop })
          λ g. record { maps = m'; frame = g; verdict = xdp_aborted })
    else dropped

unfoldable pub write_reply :
    (Frame → Delta → Option Frame) → (Frame → ℕ → Option Frame) → Maps → Frame → FrameRun
write_reply adjust_head adjust_tail m f =
    let p = packet_of f in
    let stop : Frame → ℕ → FrameRun = λ g v. record { maps = m; frame = g; verdict = v } in
    if length p == 0
    then stop f xdp_pass
    else or_return (m.parsing_context 0) (stop f xdp_pass) λ pctx.
      or_return (m.keys pctx.current_key) (stop f xdp_pass) λ key.
        or_return (m.kcache (key.hash % bmc_cache_entry_count)) (stop f xdp_drop) λ entry.
          let s = serve key entry p in
          let g = with_packet f s.1.packet in
          or_return (m.stats 0) (stop g xdp_pass) λ stats.
            let stats' = count_key s.0 stats in
            let pctx' = record pctx { current_key = add32 pctx.current_key 1 } in
            let m' = record m {
              stats = store m.stats 0 stats';
              parsing_context = store m.parsing_context 0 pctx';
            } in
            next_key adjust_head adjust_tail m' g s.1.packet s.1.written pctx' stats'
