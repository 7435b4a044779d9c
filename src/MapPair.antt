-- ===== src/MapPair.antt =====
-- Two programs that share their maps: program1.h, program2.h and common_maps.h of
-- examples/evaluation-two-program-map. What the source leaves symbolic, or unset, is an argument.
pub mod Laws
use dram_pvt_mk.Base.{
  ℕ, ◌+◌, ◌%◌, ◌^◌, Bool, not, ◌||◌, ◌==◌, ltb, if◌then◌else◌, Option, none, some, length,
}
use dram_pvt_mk.Base.Table.{Table, or_return}
use dram_pvt_mk.Base.Update.{MapUpdate}
use dram_pvt_mk.Base.Bytes.{Packet}
use dram_pvt_mk.Base.Xdp.{xdp_drop, xdp_pass}
use dram_pvt_mk.FwNat.{not_ipv4}

-- `pad` is the value of the five bytes between and behind the fields, which a map compares too.
pub record SimpleStruct : Type 0 where
  pub c : ℕ
  pub x : ℕ
  pub y : ℕ
  pub pad : ℕ

pub record SharedMaps : Type 0 where
  pub hash_map : SimpleStruct → Option ℕ
  pub array_map : Table ℕ

pub record Updates : Type 0 where
  pub hash_map : MapUpdate SimpleStruct ℕ
  pub array_map : MapUpdate ℕ ℕ

-- The key that the first program looks up: `c` and the padding are not set there.
abbrev pub first_key : ℕ → ℕ → SimpleStruct
first_key c pad = record { c = c; x = 42; y = 10; pad = pad }

unfoldable pub xdp_first_prog : Updates → ℕ → ℕ → SharedMaps → Packet → SharedMaps × ℕ
unfolding not_ipv4
xdp_first_prog u c pad m p =
    if not_ipv4 p
    then (m, xdp_drop)
    else or_return (m.hash_map (first_key c pad)) (m, xdp_drop)
        λ value.
          or_return (m.array_map 4) (m, xdp_drop)
            λ value'.
              or_return (u.array_map.update m.array_map 5 0) (m, xdp_drop)
                λ t. (record m { array_map = t }, xdp_pass)

-- The keys that the second program stores under: `y` and the padding are not set there.
abbrev pub second_key : ℕ → ℕ → ℕ → SimpleStruct
second_key x y pad = record { c = b'a'; x = x; y = y; pad = pad }

unfoldable pub xdp_second_prog : Updates → ℕ → ℕ → SharedMaps → Packet → SharedMaps × ℕ
unfolding not_ipv4
xdp_second_prog u y pad m p =
    if not_ipv4 p
    then (m, xdp_drop)
    else or_return (u.hash_map.update m.hash_map (second_key 42 y pad) 229) (m, xdp_drop)
        λ h1.
          let m1 = record m { hash_map = h1 } in
          or_return (u.hash_map.update h1 (second_key 50 y pad) 229) (m1, xdp_drop)
            λ h2.
              let m2 = record m { hash_map = h2 } in
              or_return (u.array_map.update m.array_map 4 229) (m2, xdp_drop)
                λ t.
                  let m3 = record m2 { array_map = t } in
                  or_return (t 5) (m3, xdp_drop) λ value. (m3, xdp_pass)
