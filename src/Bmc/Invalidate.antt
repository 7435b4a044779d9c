-- ===== src/Bmc/Invalidate.antt =====
-- `bmc_invalidate_cache_main` of examples/bmc-cache/bmc_kern.c: a scan of a TCP payload for
-- `set` commands, which clears the cache entry of each key that it meets.
pub mod Laws
pub mod Set
use dram_pvt_mk.Base.{
  ℕ, zero, suc, ◌+◌, ◌%◌, List, [], ◌∷◌, Bool, true, false, not, ◌&&◌, ◌==◌, if◌then◌else◌, Option,
  none, some, length, get_or, drop, ltb, leb, add32,
}
use dram_pvt_mk.Base.Table.{Table, store, or_return}
use dram_pvt_mk.Base.Bytes.{Packet, ◌>>=◌}
use dram_pvt_mk.Base.Xdp.{xdp_pass, ethhdr_size, iphdr_size, tcphdr_size}
use dram_pvt_mk.Hash.Fnv.{fnv_offset_basis_32}
use dram_pvt_mk.Bmc.{CacheEntry, BmcStats, Maps, Run, bmc_cache_entry_count, max_packet_length}
use dram_pvt_mk.Bmc.Hashing.{char_step}

-- The local variables of the loop, and what it reaches through pointers.
pub record Scan : Type 0 where
  pub hash : ℕ
  pub set_found : Bool
  pub key_found : Bool
  pub kcache : Table CacheEntry
  pub stats : BmcStats

-- How a round ends: at `off++`, after `off += 3`, or by `return XDP_PASS`.
pub data Turn : Type 0 where
  on : Scan → Turn
  skip : Scan → Turn
  quit : Scan → Turn

-- `if (entry->valid) { entry->valid = 0; ... }` and the reset of the flags.
unfoldable pub clear : Scan → ℕ → CacheEntry → Scan
clear s idx entry =
    let s' = record s { set_found = false; key_found = false } in
    if entry.valid
    then record s' {
      kcache = store s.kcache idx (record entry { valid = false });
      stats = record (s.stats) { invalidation_count = add32 s.stats.invalidation_count 1 };
    }
    else s'

-- A ' ' behind a key.
unfoldable pub end_of_key : Scan → Turn
unfolding clear
end_of_key s =
    let idx = s.hash % bmc_cache_entry_count in
    or_return (s.kcache idx) (quit s) λ entry. on (clear s idx entry)

-- The body at `payload[off]`, the first argument, with the bytes behind it.
unfoldable pub scan_byte : ℕ → List ℕ → Scan → Turn
scan_byte c payload s =
    if not s.set_found
      && (c == b's'
          && (leb 2 (length payload) && (get_or payload 0 0 == b'e' && get_or payload 1 0 == b't')))
    then skip (record s {
      set_found = true;
      stats = record (s.stats) { set_recv_count = add32 s.stats.set_recv_count 1 };
    })
    else if not s.key_found && (s.set_found && not (c == b' '))
    then (if c == 13
        then on (record s { set_found = false; key_found = false })
        else on (record s { hash = char_step fnv_offset_basis_32 c; key_found = true }))
    else if s.key_found
    then (if c == b' ' then end_of_key s else on (record s { hash = char_step s.hash c }))
    else on s

-- The loop at `off`, over the bytes from there on; `none` means that the fuel ran out.
unfoldable pub scan_loop : ℕ → ℕ → List ℕ → Scan → Option Scan
scan_loop zero off payload s = none
scan_loop (suc fuel) off [] s = some s
scan_loop (suc fuel) off (c ∷ payload) s =
    let rest : Option Scan = elim (scan_byte c payload s) [
      | on s' ↦ scan_loop fuel (off + 1) payload s'
      | skip s' ↦ scan_loop fuel (off + 4) (drop 3 payload) s'
      | quit s' ↦ some s'
    ] in
    if ltb off max_packet_length then rest else some s

-- `hash` starts unset in the source; it is read only after a key has set it.
abbrev pub scan_start : Table CacheEntry → BmcStats → Scan
scan_start kcache stats = record {
  hash = 0;
  set_found = false;
  key_found = false;
  kcache = kcache;
  stats = stats;
}

abbrev pub tcp_payload : ℕ
tcp_payload = ethhdr_size + iphdr_size + tcphdr_size

unfoldable pub invalidate_cache : Maps → Packet → Option Run
unfolding scan_loop scan_byte end_of_key
invalidate_cache m p =
    let pass : Option Run = some (record { maps = m; packet = p; verdict = xdp_pass }) in
    if leb (length p) tcp_payload
    then pass
    else or_return (m.stats 0) pass λ stats.
      let payload = drop tcp_payload p in
      scan_loop (length payload + 1) 0 payload (scan_start m.kcache stats) >>= λ s. some (record {
        maps = record m { kcache = s.kcache; stats = store m.stats 0 s.stats };
        packet = p;
        verdict = xdp_pass;
      })
