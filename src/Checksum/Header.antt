-- ===== src/Checksum/Header.antt =====
-- The IPv4 header that two programs put in front of a packet: create_v4_hdr of examples/katran and
-- handle_ipv4 of examples/linux-samples-lifting-test/xdp_tx_iptunnel.c set the same fields.
use dram_pvt_mk.Base.{
  ℕ, ◌+◌, ◌%◌, ◌^◌, ◌≤◌, ◌<◌, ◌≡◌, ◌∙◌, arith, List, ◌∷◌, ◌++◌, length, IsBytes, get_or,
}
use dram_pvt_mk.Base.Bytes.{
  Packet, byte_at, half_at, word_at, write, le_bytes, length-write, byte_at-write,
  byte_at-write_below, byte_at-write_above,
}
use dram_pvt_mk.Checksum.Laws.{IsBytes-write}

-- Of the 20 bytes the identification is not set; the checksum is set to 0.
unfoldable pub write_header : Packet → ℕ → ℕ → ℕ → ℕ → ℕ → ℕ → ℕ → Packet
write_header p iph tos tot_len ttl proto saddr daddr =
    write (write p iph (0x45 ∷ tos ∷ le_bytes 2 tot_len)) (iph + 6)
      (0 ∷ 0 ∷ ttl ∷ proto ∷ 0 ∷ 0 ∷ (le_bytes 4 saddr ++ le_bytes 4 daddr))

-- The fields of an IPv4 header at 14.
pub record Header4 (r : Packet) (tos tot_len ttl proto saddr daddr : ℕ) : Type 0 where
  pub version : byte_at r 14 ≡ 0x45
  pub service : byte_at r 15 ≡ tos
  pub total_len : half_at r 16 ≡ tot_len % 2 ^ 16
  pub frag_off : half_at r 20 ≡ 0
  pub time_to_live : byte_at r 22 ≡ ttl
  pub protocol : byte_at r 23 ≡ proto
  pub source : word_at r 26 ≡ saddr % 2 ^ 32
  pub dest : word_at r 30 ≡ daddr % 2 ^ 32

module _ (p : Packet) (tos tot_len ttl proto saddr daddr : ℕ) (room : 34 ≤ length p) where
  first : List ℕ
  first = 0x45 ∷ tos ∷ le_bytes 2 tot_len

  second : List ℕ
  second = 0 ∷ 0 ∷ ttl ∷ proto ∷ 0 ∷ 0 ∷ (le_bytes 4 saddr ++ le_bytes 4 daddr)

  a : Packet
  a = write p 14 first

  b : Packet
  b = write_header p 14 tos tot_len ttl proto saddr daddr

  in_second : (i : ℕ) → i < 14 → byte_at b (20 + i) ≡ get_or second i 0
  unfolding b a first second write_header
  in_second i h = byte_at-write a 20 second i (omega arith) (omega (arith, length-write p 14 first))

  pub write_header-check : half_at (write_header p 14 tos tot_len ttl proto saddr daddr) 24 ≡ 0
  unfolding b a first second write_header
  write_header-check = omega (arith, in_second 4 (omega arith), in_second 5 (omega arith))

  pub length-write_header : length (write_header p 14 tos tot_len ttl proto saddr daddr) ≡ length p
  unfolding a first second write_header
  length-write_header = length-write a 20 second ∙ length-write p 14 first

  pub write_header-IsBytes :
      IsBytes p
      → tos < 256
      → ttl < 256
      → proto < 256
      → IsBytes (write_header p 14 tos tot_len ttl proto saddr daddr)
  unfolding a first second write_header
  write_header-IsBytes bytes small_tos small_ttl small_proto =
      IsBytes-write a 20 second (IsBytes-write p 14 first bytes (omega arith)) (omega arith)

  pub byte_at-write_header :
      (i : ℕ)
      → 34 ≤ i
      → byte_at (write_header p 14 tos tot_len ttl proto saddr daddr) i ≡ byte_at p i
  unfolding a first second write_header
  byte_at-write_header i h =
      byte_at-write_above a 20 second i (omega arith)
      ∙ byte_at-write_above p 14 first i (omega arith)

  pub byte_at-write_header_below :
      (i : ℕ)
      → i < 14
      → byte_at (write_header p 14 tos tot_len ttl proto saddr daddr) i ≡ byte_at p i
  unfolding a first second write_header
  byte_at-write_header_below i h =
      byte_at-write_below a 20 second i (omega arith) ∙ byte_at-write_below p 14 first i h

  -- The checksum that is stored in the end.
  module _ (check : ℕ) where
    r : Packet
    r = write b 24 (le_bytes 2 check)

    at_start : (i : ℕ) → i < 4 → byte_at r (14 + i) ≡ get_or first i 0
    unfolding r b a first second write_header
    at_start i h =
        byte_at-write_below b 24 _ (14 + i) (omega arith)
        ∙ byte_at-write_below a 20 second (14 + i) (omega arith)
        ∙ byte_at-write p 14 first i (omega arith) (omega arith)

    middle : (i : ℕ) → i < 4 → byte_at r (20 + i) ≡ get_or second i 0
    unfolding r b a first second write_header
    middle i h = byte_at-write_below b 24 _ (20 + i) (omega arith) ∙ in_second i (omega arith)

    at_end : (i : ℕ) → 6 ≤ i → i < 14 → byte_at r (20 + i) ≡ get_or second i 0
    unfolding r b a first second write_header
    at_end i l h = byte_at-write_above b 24 _ (20 + i) (omega arith) ∙ in_second i h

    source_bytes : word_at r 26 ≡ saddr % 2 ^ 32
    unfolding second
    source_bytes = omega (
      arith,
      at_end 6 (omega arith) (omega arith),
      at_end 7 (omega arith) (omega arith),
      at_end 8 (omega arith) (omega arith),
      at_end 9 (omega arith) (omega arith),
    )

    dest_bytes : word_at r 30 ≡ daddr % 2 ^ 32
    unfolding second
    dest_bytes = omega (
      arith,
      at_end 10 (omega arith) (omega arith),
      at_end 11 (omega arith) (omega arith),
      at_end 12 (omega arith) (omega arith),
      at_end 13 (omega arith) (omega arith),
    )

    pub write_header-Header4 :
        Header4
          (write (write_header p 14 tos tot_len ttl proto saddr daddr) 24 (le_bytes 2 check))
          tos
          tot_len
          ttl
          proto
          saddr
          daddr
    unfolding r b a first second write_header
    write_header-Header4 = record {
      version = at_start 0 (omega arith);
      service = at_start 1 (omega arith);
      total_len = omega (arith, at_start 2 (omega arith), at_start 3 (omega arith));
      frag_off = omega (arith, middle 0 (omega arith), middle 1 (omega arith));
      time_to_live = middle 2 (omega arith);
      protocol = middle 3 (omega arith);
      source = source_bytes;
      dest = dest_bytes;
    }
