-- ===== src/Katran/Parse.antt =====
-- pckt_parsing.h of examples/katran: the ports and the SYN flag of a packet, or of the packet that
-- an ICMP message carries.
use dram_pvt_mk.Base.{
  ℕ, ◌+◌, ◌/◌, ◌%◌, Bool, true, not, ◌==◌, ltb, if◌then◌else◌, Option, none, some, length,
}
use dram_pvt_mk.Base.Bytes.{Packet, byte_at, half_at}
use dram_pvt_mk.Katran.{PacketDescription, concrete_quic_real_id}

abbrev pub calc_offset : Bool → Bool → ℕ
calc_offset is_ipv6 is_icmp =
    if is_ipv6
    then (if is_icmp then 14 + 40 + (8 + 40) else 14 + 40)
    else (if is_icmp then 14 + 20 + (8 + 20) else 14 + 20)

-- The ports are inverted for a description that an ICMP message gave.
abbrev pub with_ports : PacketDescription → ℕ → ℕ → PacketDescription
with_ports d source dest =
    let f = d.flow in
    record d {
      flow =
          if not d.icmp
          then (record f { sport = source; dport = dest })
          else (record f { sport = dest; dport = source });
    }

-- `none` where the code returns false.
unfoldable pub parse_udp : Packet → Bool → PacketDescription → Option PacketDescription
parse_udp p is_ipv6 d =
    let off = calc_offset is_ipv6 d.icmp in
    if ltb (length p) (off + 8)
    then none
    else some (with_ports d (half_at p off) (half_at p (off + 2)))

unfoldable pub parse_tcp : Packet → Bool → PacketDescription → Option PacketDescription
parse_tcp p is_ipv6 d =
    let off = calc_offset is_ipv6 d.icmp in
    if ltb (length p) (off + 20)
    then none
    else let e = if byte_at p (off + 13) / 2 % 2 == 1 then (record d { syn_set = true }) else d in
      some (with_ports e (half_at p off) (half_at p (off + 2)))

-- `none` is FURTHER_PROCESSING. The identifier itself is not read: the source returns a constant
-- where its position is found.
unfoldable pub parse_quic : Packet → Bool → PacketDescription → Option ℕ
parse_quic p is_ipv6 d =
    let quic = calc_offset is_ipv6 d.icmp + 8 in
    if ltb (length p) (quic + 1)
    then none
    else if byte_at p quic / 128 % 2 == 1
    then (if ltb (length p) (quic + 14)
        then none
        else if ltb (byte_at p quic / 16 % 4) 2
        then none
        else if ltb (byte_at p (quic + 5)) 8
        then none
        else some concrete_quic_real_id)
    else if ltb (length p) (quic + 9)
    then none
    else some concrete_quic_real_id
