-- ===== src/Katran/Icmp.antt =====
-- handle_icmp.h of examples/katran: replies to echo requests, messages for packets that are too
-- big, and the flow that an ICMP message is about.
pub mod Reply
pub mod Echo
use dram_pvt_mk.Base.{
  ℕ, ◌+◌, ◌-◌, ◌*◌, ◌/◌, ◌%◌, ◌^◌, List, [], ◌∷◌, Bool, true, not, ◌||◌, ◌==◌, ltb, if◌then◌else◌,
  Option, none, some, length, swap16,
}
use dram_pvt_mk.Base.Table.{or_return}
use dram_pvt_mk.Base.Bytes.{Packet, byte_at, half_at, word_at, bytes_from, write, le_bytes}
use dram_pvt_mk.Base.Exchange.{exchange}
use dram_pvt_mk.Base.Xdp.{xdp_drop, xdp_pass, xdp_tx}
use dram_pvt_mk.Katran.{
  Address, no_address, address_at, PacketDescription, BalancerKernel, default_ttl, max_pckt_size,
  icmp_toobig_size, icmp6_toobig_size,
}
use dram_pvt_mk.Katran.Csum.{ipv4_csum_inline, ipv4_csum, ipv6_csum}

-- The packet that is left and the verdict.
pub record Answer : Type 0 where
  pub packet : Packet
  pub verdict : ℕ

unfoldable pub swap_mac_and_send : Packet → Answer
swap_mac_and_send p = record { packet = exchange p 0 6; verdict = xdp_tx }

-- `orig_eth` is the position of the old header.
unfoldable pub swap_mac : Packet → ℕ → Packet
swap_mac p orig_eth =
    let a = write p 6 (bytes_from p orig_eth 6) in
    let b = write a 0 (bytes_from a (orig_eth + 6) 6) in write b 12 (bytes_from b (orig_eth + 12) 2)

unfoldable pub send_icmp_reply : Packet → Answer
send_icmp_reply p =
    if ltb (length p) 42
    then record { packet = p; verdict = xdp_drop }
    else let a = write p 34 (0 ∷ []) in
      let b = write a 36 (le_bytes 2 ((half_at a 36 + 8) % 2 ^ 16)) in
      let c = exchange (write b 22 (default_ttl ∷ [])) 26 4 in
      let z = write c 24 (le_bytes 2 0) in
      swap_mac_and_send (write z 24 (le_bytes 2 (ipv4_csum_inline z 14)))

unfoldable pub send_icmp6_reply : Packet → Answer
send_icmp6_reply p =
    if ltb (length p) 62
    then record { packet = p; verdict = xdp_drop }
    else let a = write p 54 (129 ∷ []) in
      let b = write a 56 (le_bytes 2 ((half_at a 56 + 2 ^ 16 - 1) % 2 ^ 16)) in
      swap_mac_and_send (exchange (write b 21 (default_ttl ∷ [])) 22 16)

-- The bytes of the headroom that the code does not set stay as they are.
unfoldable pub send_icmp4_too_big : BalancerKernel → Packet → Answer
send_icmp4_too_big k p =
    or_return (k.grow_head p 28) (record { packet = p; verdict = xdp_drop })
      λ q.
        if ltb (length q) (icmp_toobig_size + 28)
        then record { packet = q; verdict = xdp_drop }
        else let a = swap_mac q 28 in
          let b = write a 34 (3 ∷ 4 ∷ 0 ∷ 0 ∷ []) in
          let c = write b 40 (le_bytes 2 (swap16 (max_pckt_size - 14))) in
          let d = write c 36 (le_bytes 2 (ipv4_csum k c 34 (icmp_toobig_size - 6))) in
          let e = write (write d 22 (default_ttl ∷ 1 ∷ [])) 30 (bytes_from d 54 4) in
          let f = write e 26 (bytes_from e 58 4) in
          let g = write f 14 (0x45 ∷ 0 ∷ le_bytes 2 (swap16 (icmp_toobig_size + 28 - 14))) in
          let z = write g 24 (le_bytes 2 0) in
          record { packet = write z 24 (le_bytes 2 (ipv4_csum k z 14 20)); verdict = xdp_tx }

unfoldable pub send_icmp6_too_big : BalancerKernel → Packet → Answer
send_icmp6_too_big k p =
    or_return (k.grow_head p 48) (record { packet = p; verdict = xdp_drop })
      λ q.
        if ltb (length q) (icmp6_toobig_size + 48)
        then record { packet = q; verdict = xdp_drop }
        else let size = icmp6_toobig_size - 6 in
          let a = swap_mac q 48 in
          let b = write a 14 (0x60 ∷ 0 ∷ 0 ∷ 0 ∷ []) in
          let c = write (write b 20 (58 ∷ default_ttl ∷ [])) 18 (le_bytes 2 (swap16 size)) in
          let d = write c 38 (bytes_from c 70 16) in
          let e = write d 22 (bytes_from d 86 16) in
          let f = write e 54 (2 ∷ 0 ∷ 0 ∷ 0 ∷ 0 ∷ 0 ∷ le_bytes 2 (swap16 (max_pckt_size - 14))) in
          record { packet = write f 56 (le_bytes 2 (ipv6_csum k f 54 size 14)); verdict = xdp_tx }

unfoldable pub send_icmp_too_big : BalancerKernel → Bool → Packet → Answer
send_icmp_too_big k is_ipv6 p =
    let size = if is_ipv6 then icmp6_toobig_size else icmp_toobig_size in
    or_return (k.shrink_tail p (length p - size)) (record { packet = p; verdict = xdp_drop })
      λ q. if is_ipv6 then send_icmp6_too_big k q else send_icmp4_too_big k q

-- A verdict, or the description with which the packet is processed further.
pub record Parsed : Type 0 where
  pub action : Option ℕ
  pub packet : Packet
  pub pckt : PacketDescription

abbrev pub done : Answer → PacketDescription → Parsed
done r d = record { action = some r.verdict; packet = r.packet; pckt = d }

abbrev pub refused : Packet → PacketDescription → ℕ → Parsed
refused p d verdict = record { action = some verdict; packet = p; pckt = d }

-- The flow of a packet from `src` to `dst`, found in an ICMP message about it.
abbrev pub about : PacketDescription → ℕ → Address → Address → PacketDescription
about d next dst src =
    let f = d.flow in
    record d { flow = record f { proto = next; src = dst; dst = src }; icmp = true }

unfoldable pub parse_icmpv6 : Packet → ℕ → PacketDescription → Parsed
parse_icmpv6 p off d =
    if ltb (length p) (off + 8)
    then refused p d xdp_drop
    else if byte_at p off == 128
    then done (send_icmp6_reply p) d
    else if not (byte_at p off == 2 || byte_at p off == 1)
    then refused p d xdp_pass
    else if ltb (length p) (off + 48)
    then refused p d xdp_drop
    else record {
      action = none;
      packet = p;
      pckt = about d (byte_at p (off + 14)) (address_at p (off + 32)) (address_at p (off + 16));
    }

-- An IPv4 address in the union; the other words keep their values.
abbrev pub set_v4 : Address → ℕ → Address
set_v4 a v = record a { w0 = v }

unfoldable pub parse_icmp : Packet → ℕ → PacketDescription → Parsed
parse_icmp p off d =
    let f = d.flow in
    if ltb (length p) (off + 8)
    then refused p d xdp_drop
    else if byte_at p off == 8
    then done (send_icmp_reply p) d
    else if not (byte_at p off == 3)
    then refused p d xdp_pass
    else if ltb (length p) (off + 28)
    then refused p d xdp_drop
    else if not (byte_at p (off + 8) % 16 == 5)
    then refused p d xdp_drop
    else record {
      action = none;
      packet = p;
      pckt =
          about d (byte_at p (off + 17)) (set_v4 f.src (word_at p (off + 24)))
            (set_v4 f.dst (word_at p (off + 20)));
    }
