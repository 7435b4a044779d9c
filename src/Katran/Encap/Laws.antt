-- ===== src/Katran/Encap/Laws.antt =====
-- What encapsulation keeps of a packet, and that decapsulation gives it back.
use dram_pvt_mk.Base.{ℕ, ◌+◌, ◌≤◌, ◌<◌, ◌≡◌, ◌∙◌, arith, List, length, get_or}
use dram_pvt_mk.Base.Bytes.{
  Packet, byte_at, bytes_from, get_or-bytes_from, length-bytes_from, write, le_bytes, length-write,
  byte_at-write, byte_at-write_start, byte_at-write_below, byte_at-write_above,
}
use dram_pvt_mk.Base.Outer.{Outer, Outer-write}
use dram_pvt_mk.Katran.{Address}
use dram_pvt_mk.Katran.Encap.{create_v4_hdr, create_v6_hdr, create_udp_hdr, new_eth}

module _ (n : ℕ) (p q : Packet) (mac : List ℕ) (proto : ℕ) (long : 14 ≤ n) (wide : 14 ≤ length p)
    (grown : length q ≡ n + length p) (kept : (i : ℕ) → byte_at q (n + i) ≡ byte_at p i)
    (mac_size : length mac ≡ 6) where
  a : Packet
  a = write q 0 mac

  old : List ℕ
  old = bytes_from a n 6

  size_old : length old ≡ 6
  unfolding old a
  size_old = length-bytes_from a n 6 (omega (arith, length-write q 0 mac))

  old_byte : (i : ℕ) → i < 6 → get_or old i 0 ≡ byte_at p i
  unfolding old a
  old_byte i h =
      get_or-bytes_from a n 6 i h ∙ byte_at-write_above q 0 mac (n + i) (omega arith) ∙ kept i

  pub new_eth-Outer : Outer n p (new_eth q mac n proto) mac
  unfolding old a
  new_eth-Outer =
      let b = write a 6 old in
      let room : length a ≡ n + length p = length-write q 0 mac ∙ grown in
      record {
        size =
            length-write b 12 (le_bytes 2 proto)
            ∙ length-write a 6 old
            ∙ length-write q 0 mac
            ∙ grown;
        dest = λ i h.
            byte_at-write_below b 12 (le_bytes 2 proto) i (omega arith)
            ∙ byte_at-write_below a 6 old i h
            ∙ byte_at-write_start q mac i (omega arith) (omega arith);
        source = λ i h.
            byte_at-write_below b 12 (le_bytes 2 proto) (6 + i) (omega arith)
            ∙ byte_at-write a 6 old i (omega (arith, size_old)) (omega (arith, size_old, room))
            ∙ old_byte i h;
        inner = λ i h.
            byte_at-write_above b 12 (le_bytes 2 proto) (n + i) (omega arith)
            ∙ byte_at-write_above a 6 old (n + i) (omega (arith, size_old))
            ∙ byte_at-write_above q 0 mac (n + i) (omega arith)
            ∙ kept i;
      }

pub create_v4_hdr-Outer :
    (n : ℕ) (p r : Packet) (mac : List ℕ) (tos saddr daddr pkt_bytes proto : ℕ)
    → 20 ≤ n
    → Outer n p r mac
    → Outer n p (create_v4_hdr r 14 tos saddr daddr pkt_bytes proto) mac
unfolding create_v4_hdr
create_v4_hdr-Outer n p r mac tos saddr daddr pkt_bytes proto h o =
    Outer-write n p _ mac 24 _ (omega arith) (omega arith) (
      Outer-write n p _ mac 20 _ (omega arith) (omega arith)
        (Outer-write n p r mac 14 _ (omega arith) (omega arith) o))

pub create_v6_hdr-Outer :
    (n : ℕ) (p r : Packet) (mac : List ℕ) (tc : ℕ) (saddr daddr : Address) (len proto : ℕ)
    → 40 ≤ n
    → Outer n p r mac
    → Outer n p (create_v6_hdr r 14 tc saddr daddr len proto) mac
unfolding create_v6_hdr
create_v6_hdr-Outer n p r mac tc saddr daddr len proto h o =
    Outer-write n p r mac 14 _ (omega arith) (omega arith) o

pub create_udp_hdr-Outer :
    (n : ℕ) (p r : Packet) (mac : List ℕ) (udph sport dport len csum : ℕ)
    → 14 ≤ udph
    → udph + 8 ≤ n + 14
    → Outer n p r mac
    → Outer n p (create_udp_hdr r udph sport dport len csum) mac
unfolding create_udp_hdr
create_udp_hdr-Outer n p r mac udph sport dport len csum low high o =
    Outer-write n p r mac udph _ low (omega arith) o
