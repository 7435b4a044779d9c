-- ===== src/NoOverlap.antt =====
-- Two programs that do not get in each other's way: program1.h and program2.h of
-- examples/evaluation-two-program-no-overlap.
pub mod Laws
use dram_pvt_mk.Base.{
  ℕ, List, Bool, ◌&&◌, ◌==◌, ltb, if◌then◌else◌, Option, none, some, length, swap16,
}
use dram_pvt_mk.Base.Table.{Table, or_return}
use dram_pvt_mk.Base.Bytes.{Packet, byte_at, half_at, word_at, write}
use dram_pvt_mk.Base.Xdp.{xdp_drop, xdp_pass, ethhdr_size}

-- The map `macs`, from an address to six bytes.
abbrev pub Macs : Type 0
Macs = Table (List ℕ)

-- A program's packet and verdict.
abbrev pub Outcome : Type 0
Outcome = Packet × ℕ

unfoldable pub xdp_first : Macs → Packet → Outcome
xdp_first macs p =
    if ltb (length p) ethhdr_size
    then (p, xdp_drop)
    else if half_at p 12 == swap16 0x0800
    then (if ltb (length p) 34
        then (p, xdp_drop)
        else or_return (macs (word_at p 30)) (p, xdp_drop) λ target. (write p 0 target, xdp_pass))
    else (p, xdp_pass)

-- `!memcmp(eth->h_dest, eth->h_source, sizeof(eth->h_dest))`
unfoldable pub same_macs : Packet → Bool
same_macs p =
    byte_at p 0 == byte_at p 6
    && (byte_at p 1 == byte_at p 7
        && (byte_at p 2 == byte_at p 8
            && (byte_at p 3 == byte_at p 9
                && (byte_at p 4 == byte_at p 10 && byte_at p 5 == byte_at p 11))))

unfoldable pub xdp_second : Packet → Outcome
xdp_second p =
    if ltb (length p) ethhdr_size
    then (p, xdp_drop)
    else if half_at p 12 == swap16 0x0800
    then (p, xdp_pass)
    else if same_macs p
    then (p, xdp_pass)
    else (p, xdp_pass)
