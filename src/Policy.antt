-- ===== src/Policy.antt =====
-- The programs on which access policies are tried: main.c of examples/simple_map_policy_example
-- and main.c of examples/simple_packet_policy_example.
pub mod Laws
use dram_pvt_mk.Base.{
  ℕ, List, [], ◌∷◌, Bool, true, false, not, ◌&&◌, ◌==◌, ltb, if◌then◌else◌, Option, none, some,
  length,
}
use dram_pvt_mk.Base.Table.{Table, or_return}
use dram_pvt_mk.Base.Update.{MapUpdate}
use dram_pvt_mk.Base.Bytes.{Packet, byte_at, word_at, write, le_bytes}
use dram_pvt_mk.Base.Xdp.{xdp_drop, xdp_pass, ethhdr_size, ipproto_tcp}

pub data MapName : Type 0 where
  read_only : MapName
  write_only : MapName
  read_write : MapName
  no_access : MapName

-- A call of `bpf_map_lookup_elem` reads the map, one of `bpf_map_update_elem` writes it.
pub data Access : Type 0 where
  reads : MapName → Access
  writes : MapName → Access

pub record PolicyMaps : Type 0 where
  pub read_only_map : Table ℕ
  pub read_write_map : Table ℕ
  pub no_access_map : Table ℕ

-- `accesses` are the calls on maps, in order.
pub record PolicyRun : Type 0 where
  pub maps : PolicyMaps
  pub verdict : ℕ
  pub accesses : List Access

-- The results of the updates are not tested.
abbrev pub updated : MapUpdate ℕ ℕ → Table ℕ → ℕ → ℕ → Table ℕ
updated u t key value = or_return (u.update t key value) t λ t'. t'

-- The calls on maps, and the verdict.
unfoldable pub map_operations : MapUpdate ℕ ℕ → PolicyMaps → PolicyRun
map_operations u m =
    let m1 = record m { read_write_map = updated u m.read_write_map 1 42 } in
    let m2 = record m1 { no_access_map = updated u m1.no_access_map 2 100 } in
    record {
      maps = m2;
      verdict =
          or_return (m2.read_only_map 1) xdp_pass
            λ result. if result == 100 then xdp_drop else xdp_pass;
      accesses = writes read_write ∷ reads read_write ∷ writes no_access ∷ reads read_only ∷ [];
    }

unfoldable pub xdp_main : MapUpdate ℕ ℕ → PolicyMaps → Packet → PolicyRun
xdp_main u m p =
    let stop : ℕ → PolicyRun = λ v. record { maps = m; verdict = v; accesses = [] } in
    if ltb (length p) ethhdr_size
    then stop xdp_drop
    else if ltb (length p) 34
    then stop xdp_drop
    else if not (byte_at p 23 == ipproto_tcp)
    then stop xdp_pass
    else if ltb (length p) 54
    then stop xdp_drop
    else if ltb (length p) 57
    then stop xdp_drop
    else map_operations u m

-- `xdp_main` of simple_packet_policy_example, which returns XDP_PASS in every case.
unfoldable pub mark_packet : Packet → Packet
mark_packet p =
    if ltb (length p) ethhdr_size
    then p
    else if ltb (length p) 34
    then p
    else if word_at p 26 == 12345
    then write p 16 (le_bytes 2 100)
    else p
