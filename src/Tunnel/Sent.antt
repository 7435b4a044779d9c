-- ===== src/Tunnel/Sent.antt =====
-- The packet that the tunnel sends.
use dram_pvt_mk.Base.{
  ℕ, ◌+◌, ◌/◌, ◌%◌, ◌≤◌, ◌<◌, ◌≡◌, ◌↔◌, ◌∙◌, ap, arith, List, length, swap16, u16, IsBytes,
  All-take, All-drop, get_or-drop, drop, length-drop,
}
use dram_pvt_mk.Base.Outer.{Outer, Outer-write}
use dram_pvt_mk.Base.Bytes.{
  Packet, half_at, bytes_from, get_or-bytes_from, length-bytes_from, write, le_bytes, length-write,
  byte_at-write, byte_at-write_start, byte_at-write_below, byte_at-write_above,
}
use dram_pvt_mk.Checksum.{sum_halves, fold_once}
use dram_pvt_mk.Checksum.Laws.{
  plain_sum, plain_sum-le, sum_halves-eq-plain_sum, fold_once_iff, IsBytes-write,
}
use dram_pvt_mk.Checksum.Sums.{half_at-write, plain_sum-append, plain_sum-eq, plain_sum-write}
use dram_pvt_mk.Checksum.Header.{
  Header4, write_header, write_header-Header4, write_header-IsBytes, write_header-check,
  length-write_header, byte_at-write_header_below,
}
use dram_pvt_mk.Tunnel.{IptnlInfo, eth_p_ip, ipproto_ipip, set_ethhdr, encapsulate}

module _ (p : Packet) (mac : List ℕ) (proto : ℕ) (long : 34 ≤ length p)
    (mac_size : length mac ≡ 6) where
  old : List ℕ
  old = bytes_from p 20 6

  size_old : length old ≡ 6
  unfolding old
  size_old = length-bytes_from p 20 6 (omega arith)

  a : Packet
  a = write p 6 old

  set_ethhdr-Outer : Outer 20 (drop 20 p) (set_ethhdr p 20 mac proto) mac
  unfolding set_ethhdr a old
  set_ethhdr-Outer =
      let b = write a 0 mac in
      let room : length a ≡ length p = length-write p 6 old in
      record {
        size = omega (
          arith,
          length-write b 12 (le_bytes 2 proto),
          length-write a 0 mac,
          room,
          length-drop 20 p,
        );
        dest = λ i h.
            byte_at-write_below b 12 (le_bytes 2 proto) i (omega arith)
            ∙ byte_at-write_start a mac i (omega arith) (omega arith);
        source = λ i h.
            byte_at-write_below b 12 (le_bytes 2 proto) (6 + i) (omega arith)
            ∙ byte_at-write_above a 0 mac (6 + i) (omega arith)
            ∙ byte_at-write p 6 old i (omega (arith, size_old)) (omega (arith, size_old))
            ∙ get_or-bytes_from p 20 6 i h
            ∙ (let e = get_or-drop 20 p i 0 in omega (arith, e));
        inner = λ i h.
            byte_at-write_above b 12 (le_bytes 2 proto) (20 + i) (omega arith)
            ∙ byte_at-write_above a 0 mac (20 + i) (omega arith)
            ∙ byte_at-write_above p 6 old (20 + i) (omega (arith, size_old))
            ∙ (let e = get_or-drop 20 p i 0 in omega (arith, e));
      }

  set_ethhdr-IsBytes : IsBytes p → IsBytes mac → IsBytes (set_ethhdr p 20 mac proto)
  unfolding set_ethhdr a old
  set_ethhdr-IsBytes bytes mac_bytes =
      let old_bytes =
        All-take (λ (x : ℕ). x < 256) 6 _ (All-drop (λ (x : ℕ). x < 256) 20 p bytes) in
      IsBytes-write _ 12 (le_bytes 2 proto)
        (IsBytes-write a 0 mac (IsBytes-write p 6 old bytes old_bytes) mac_bytes) (omega arith)

-- A header at 14 whose checksum field is zero, and then the single fold of its words: the ten words
-- add up to zero when the fold of the other nine does not overflow.
plain_sum-fold_once :
    (h : Packet)
    → IsBytes h
    → 34 ≤ length h
    → half_at h 24 ≡ 0
    → let r = write h 24 (le_bytes 2 (fold_once (sum_halves h 10 14 0))) in
      let s = plain_sum r 5 14 + plain_sum r 4 26 in
      (plain_sum r 10 14 % 65535 ≡ 0) ↔ (s % 65536 + s / 65536 < 65536)
plain_sum-fold_once h bytes room clear =
    let small = plain_sum-le h 10 14 bytes in
    let sum = plain_sum h 10 14 in
    let e = sum_halves-eq-plain_sum h 10 14 0 (omega arith) in
    let check = fold_once (sum_halves h 10 14 0) in
    let r = write h 24 (le_bytes 2 check) in
    let fits : check < 65536 = unfold fold_once in omega arith in
    let front = plain_sum-eq h r 5 14 λ i l u. byte_at-write_below h 24 (le_bytes 2 check) i u in
    let back = plain_sum-eq h r 4 26 λ i l u. byte_at-write_above h 24 (le_bytes 2 check) i l in
    let split = plain_sum-append h 5 5 14 in
    let whole = plain_sum-write h 5 4 14 check (omega arith) clear fits in
    let folded : sum_halves h 10 14 0 ≡ sum = omega (arith, e) in
    let same : check ≡ fold_once sum = ap fold_once folded in
    let rest : plain_sum r 5 14 + plain_sum r 4 26 ≡ sum =
      omega (arith, front, back, split, clear) in
    let total : plain_sum r 10 14 ≡ fold_once sum + sum = omega (arith, whole, same) in
    rw (rest, total) (fold_once_iff sum (omega arith))

-- The packet sent: an outer header over the first 34 bytes, in front of what is left behind the
-- first 20.
pub record Encapsulated (p r : Packet) (tnl : IptnlInfo) : Type 0 where
  pub outer : Outer 20 (drop 20 p) r tnl.dmac
  pub kind : half_at r 12 ≡ 8
  pub header : Header4 r 0 (swap16 (u16 (swap16 (half_at p 16) + 20))) 8 4 tnl.saddr tnl.daddr
  pub sum :
      let s = plain_sum r 5 14 + plain_sum r 4 26 in
      (plain_sum r 10 14 % 65535 ≡ 0) ↔ (s % 65536 + s / 65536 < 65536)

-- A hardware address of a tunnel has six bytes.
abbrev pub IsTunnel : IptnlInfo → Type 0
IsTunnel tnl = IsBytes tnl.dmac × (length tnl.dmac ≡ 6)

-- The packet before the Ethernet type is stored.
abbrev set_kind : Packet → IptnlInfo → Packet
set_kind p tnl = write (write p 6 (bytes_from p 20 6)) 0 tnl.dmac

set_kind-size : (p : Packet) (tnl : IptnlInfo) → length (set_kind p tnl) ≡ length p
set_kind-size p tnl =
    length-write (write p 6 (bytes_from p 20 6)) 0 tnl.dmac ∙ length-write p 6 (bytes_from p 20 6)

pub encapsulate-Encapsulated :
    (p : Packet) (tnl : IptnlInfo)
    → 34 ≤ length p
    → IsBytes p
    → IsTunnel tnl
    → Encapsulated p (encapsulate p tnl (swap16 (half_at p 16))) tnl
unfolding encapsulate set_ethhdr
encapsulate-Encapsulated p tnl long bytes (mac_bytes, mac_size) =
    let e = set_ethhdr p 20 tnl.dmac (swap16 eth_p_ip) in
    let total = swap16 (u16 (swap16 (half_at p 16) + 20)) in
    let o = set_ethhdr-Outer p tnl.dmac (swap16 eth_p_ip) long mac_size in
    let room : 34 ≤ length e = omega (arith, o.size, length-drop 20 p) in
    let h = write_header e 14 0 total 8 ipproto_ipip tnl.saddr tnl.daddr in
    let check = le_bytes 2 (fold_once (sum_halves h 10 14 0)) in
    let e_bytes = set_ethhdr-IsBytes p tnl.dmac (swap16 eth_p_ip) long mac_size bytes mac_bytes in
    record {
      outer = Outer-write 20 _ h tnl.dmac 24 _ (omega arith) (omega arith) (
          unfold write_header in
          Outer-write 20 _ _ tnl.dmac 20 _ (omega arith) (omega arith)
            (Outer-write 20 _ e tnl.dmac 14 _ (omega arith) (omega arith) o));
      kind = omega (
        arith,
        half_at-write (set_kind p tnl) 12 8 (omega (arith, set_kind-size p tnl)),
        byte_at-write_below h 24 check 12 (omega arith),
        byte_at-write_below h 24 check 13 (omega arith),
        byte_at-write_header_below e 0 total 8 ipproto_ipip tnl.saddr tnl.daddr room 12
            (omega arith),
        byte_at-write_header_below e 0 total 8 ipproto_ipip tnl.saddr tnl.daddr room 13
            (omega arith),
      );
      header =
          write_header-Header4 e 0 total 8 ipproto_ipip tnl.saddr tnl.daddr room
            (fold_once (sum_halves h 10 14 0));
      sum =
          plain_sum-fold_once h
            (write_header-IsBytes e 0 total 8 ipproto_ipip tnl.saddr tnl.daddr room e_bytes
              (omega arith) (omega arith) (omega arith))
            (omega (arith, length-write_header e 0 total 8 ipproto_ipip tnl.saddr tnl.daddr room))
            (write_header-check e 0 total 8 ipproto_ipip tnl.saddr tnl.daddr room);
    }
