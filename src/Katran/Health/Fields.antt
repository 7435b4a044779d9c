-- ===== src/Katran/Health/Fields.antt =====
-- The fields of the headers that the health checker writes.
use dram_pvt_mk.Base.{
  ℕ, ◌+◌, ◌*◌, ◌%◌, ◌^◌, ◌≤◌, ◌<◌, ◌≡◌, ◌∙◌, arith, List, ◌∷◌, ◌++◌, length, swap16, u16, get_or,
  take, drop, ap, sym, refl,
}
use dram_pvt_mk.Base.Bytes.{
  Packet, byte_at, half_at, word_at, write, le_bytes, byte_at-write, byte_at-write_below,
  byte_at-write_above, get_or-bytes_from,
}
use dram_pvt_mk.Checksum.Header.{Header4, write_header, write_header-Header4, byte_at-write_header}
use dram_pvt_mk.Katran.{Address}
use dram_pvt_mk.Katran.Csum.{ipv4_csum_inline}
use dram_pvt_mk.Katran.Encap.{create_v4_hdr, create_v6_hdr, create_udp_hdr, address_bytes}

-- The sixteen bytes of an address, from `off` on.
pub record AddressAt (r : Packet) (off : ℕ) (a : Address) : Type 0 where
  pub w0 : word_at r off ≡ a.w0 % 2 ^ 32
  pub w1 : word_at r (off + 4) ≡ a.w1 % 2 ^ 32
  pub w2 : word_at r (off + 8) ≡ a.w2 % 2 ^ 32
  pub w3 : word_at r (off + 12) ≡ a.w3 % 2 ^ 32

-- An Ethernet type of IPv6, and the fields of an IPv6 header at 14.
pub record Header6 (r : Packet) (payload next : ℕ) (saddr daddr : Address) : Type 0 where
  pub kind : half_at r 12 ≡ swap16 0x86DD
  pub version : byte_at r 14 ≡ 0x60
  pub payload_len : half_at r 18 ≡ swap16 (u16 payload)
  pub next_header : byte_at r 20 ≡ next
  pub hop_limit : byte_at r 21 ≡ 64
  pub source : AddressAt r 22 saddr
  pub dest : AddressAt r 38 daddr

-- A UDP header to the port of GUE, without a checksum.
pub record GueHeader (r : Packet) (off len : ℕ) : Type 0 where
  pub port : half_at r (off + 2) ≡ swap16 6080
  pub length_of : half_at r (off + 4) ≡ swap16 (u16 len)
  pub no_check : half_at r (off + 6) ≡ 0

module _ (p r : Packet) (same : (i : ℕ) → 12 ≤ i → byte_at r i ≡ byte_at p i) where
  AddressAt-same : (off : ℕ) (a : Address) → 12 ≤ off → AddressAt p off a → AddressAt r off a
  AddressAt-same off a h x =
      let word : (i : ℕ) → 12 ≤ i → word_at r i ≡ word_at p i = λ i l. omega (
        arith,
        same i l,
        same (i + 1) (omega arith),
        same (i + 2) (omega arith),
        same (i + 2 + 1) (omega arith),
      ) in
      record {
        w0 = word off h ∙ x.w0;
        w1 = word (off + 4) (omega arith) ∙ x.w1;
        w2 = word (off + 8) (omega arith) ∙ x.w2;
        w3 = word (off + 12) (omega arith) ∙ x.w3;
      }

  half-same : (i : ℕ) → 12 ≤ i → half_at r i ≡ half_at p i
  half-same i l = omega (arith, same i l, same (i + 1) (omega arith))

  pub Header6-same :
      (payload next : ℕ) (saddr daddr : Address)
      → Header6 p payload next saddr daddr
      → Header6 r payload next saddr daddr
  Header6-same payload next saddr daddr x = record {
    kind = half-same 12 (omega arith) ∙ x.kind;
    version = same 14 (omega arith) ∙ x.version;
    payload_len = half-same 18 (omega arith) ∙ x.payload_len;
    next_header = same 20 (omega arith) ∙ x.next_header;
    hop_limit = same 21 (omega arith) ∙ x.hop_limit;
    source = AddressAt-same 22 saddr (omega arith) x.source;
    dest = AddressAt-same 38 daddr (omega arith) x.dest;
  }

  pub Header4-same :
      (tos tot_len ttl proto saddr daddr : ℕ)
      → Header4 p tos tot_len ttl proto saddr daddr
      → Header4 r tos tot_len ttl proto saddr daddr
  Header4-same tos tot_len ttl proto saddr daddr x = record {
    version = same 14 (omega arith) ∙ x.version;
    service = same 15 (omega arith) ∙ x.service;
    total_len = half-same 16 (omega arith) ∙ x.total_len;
    frag_off = half-same 20 (omega arith) ∙ x.frag_off;
    time_to_live = same 22 (omega arith) ∙ x.time_to_live;
    protocol = same 23 (omega arith) ∙ x.protocol;
    source = omega (arith, half-same 26 (omega arith), half-same 28 (omega arith), x.source);
    dest = omega (arith, half-same 30 (omega arith), half-same 32 (omega arith), x.dest);
  }

  pub GueHeader-same : (off len : ℕ) → 12 ≤ off → GueHeader p off len → GueHeader r off len
  GueHeader-same off len h x = record {
    port = half-same (off + 2) (omega arith) ∙ x.port;
    length_of = half-same (off + 4) (omega arith) ∙ x.length_of;
    no_check = half-same (off + 6) (omega arith) ∙ x.no_check;
  }

pub half_at-written :
    (p : Packet) (off : ℕ) (bs : List ℕ) (k : ℕ)
    → k + 2 ≤ length bs
    → off + length bs ≤ length p
    → half_at (write p off bs) (off + k) ≡ get_or bs k 0 + 256 * get_or bs (k + 1) 0
half_at-written p off bs k h room =
    let at : off + k + 1 ≡ off + (k + 1) = omega arith in
    rw
      (
        at,
        byte_at-write p off bs k (omega arith) room,
        byte_at-write p off bs (k + 1) (omega arith) room,
      )
      refl

-- An address in what is written: the bytes from `k` on.
AddressAt-written :
    (p : Packet) (off : ℕ) (bs : List ℕ) (k : ℕ) (a : Address)
    → k + 16 ≤ length bs
    → off + length bs ≤ length p
    → take 16 (drop k bs) ≡ address_bytes a
    → AddressAt (write p off bs) (off + k) a
AddressAt-written p off bs k a h room copied =
    let read : (i j : ℕ)
        → i < 16
        → j ≡ off + (k + i)
        → byte_at (write p off bs) j ≡ get_or (address_bytes a) i 0 =
      λ i j l e.
        ap (byte_at (write p off bs)) e
        ∙ byte_at-write p off bs (k + i) (omega arith) room
        ∙ sym (get_or-bytes_from bs k 16 i l)
        ∙ ap (λ (l : List ℕ). get_or l i 0) copied in
    let at = off + k in
    record {
      w0 = omega (
        arith,
        read 0 at (omega arith) (omega arith),
        read 1 (at + 1) (omega arith) (omega arith),
        read 2 (at + 2) (omega arith) (omega arith),
        read 3 (at + 2 + 1) (omega arith) (omega arith),
      );
      w1 = omega (
        arith,
        read 4 (at + 4) (omega arith) (omega arith),
        read 5 ((at + 4) + 1) (omega arith) (omega arith),
        read 6 ((at + 4) + 2) (omega arith) (omega arith),
        read 7 ((at + 4) + 2 + 1) (omega arith) (omega arith),
      );
      w2 = omega (
        arith,
        read 8 (at + 8) (omega arith) (omega arith),
        read 9 ((at + 8) + 1) (omega arith) (omega arith),
        read 10 ((at + 8) + 2) (omega arith) (omega arith),
        read 11 ((at + 8) + 2 + 1) (omega arith) (omega arith),
      );
      w3 = omega (
        arith,
        read 12 (at + 12) (omega arith) (omega arith),
        read 13 ((at + 12) + 1) (omega arith) (omega arith),
        read 14 ((at + 12) + 2) (omega arith) (omega arith),
        read 15 ((at + 12) + 2 + 1) (omega arith) (omega arith),
      );
    }

-- A header from `off` on reads nothing in front of it.
pub GueHeader-from :
    (p r : Packet) (off : ℕ) {len : ℕ}
    → ((i : ℕ) → off ≤ i → byte_at r i ≡ byte_at p i)
    → GueHeader p off len
    → GueHeader r off len
GueHeader-from p r off same x = record {
  port = omega (arith, same (off + 2) (omega arith), same (off + 2 + 1) (omega arith), x.port);
  length_of =
      omega (arith, same (off + 4) (omega arith), same (off + 4 + 1) (omega arith), x.length_of);
  no_check =
      omega (arith, same (off + 6) (omega arith), same (off + 6 + 1) (omega arith), x.no_check);
}

pub create_udp_hdr-GueHeader :
    (p : Packet) (off sport len : ℕ)
    → off + 8 ≤ length p
    → GueHeader (create_udp_hdr p off sport 6080 len 0) off len
unfolding create_udp_hdr
create_udp_hdr-GueHeader p off sport len room = record {
  port = half_at-written p off _ 2 (omega arith) room;
  length_of = half_at-written p off _ 4 (omega arith) room ∙ omega arith;
  no_check = half_at-written p off _ 6 (omega arith) room;
}

abbrev ip6_bytes : Address → Address → ℕ → ℕ → List ℕ
ip6_bytes s d len n =
    0x60
    ∷ 0
    ∷ 0
    ∷ 0
    ∷ (le_bytes 2 (swap16 (u16 len)) ++ (n ∷ 64 ∷ (address_bytes s ++ address_bytes d)))

pub create_v6_hdr-Header6 :
    (p : Packet) (saddr daddr : Address) (payload next : ℕ)
    → 54 ≤ length p
    → half_at p 12 ≡ swap16 0x86DD
    → Header6 (create_v6_hdr p 14 0 saddr daddr payload next) payload next saddr daddr
unfolding create_v6_hdr
create_v6_hdr-Header6 p saddr daddr payload next room kind = record {
  kind = omega (
    arith,
    kind,
    byte_at-write_below p 14 (ip6_bytes saddr daddr payload next) 12 (omega arith),
    byte_at-write_below p 14 (ip6_bytes saddr daddr payload next) 13 (omega arith),
  );
  version = byte_at-write p 14 (ip6_bytes saddr daddr payload next) 0 (omega arith) room;
  payload_len =
      half_at-written p 14 (ip6_bytes saddr daddr payload next) 4 (omega arith) room ∙ omega arith;
  next_header = byte_at-write p 14 (ip6_bytes saddr daddr payload next) 6 (omega arith) room;
  hop_limit = byte_at-write p 14 (ip6_bytes saddr daddr payload next) 7 (omega arith) room;
  source =
      AddressAt-written p 14 (ip6_bytes saddr daddr payload next) 8 saddr (omega arith) room refl;
  dest =
      AddressAt-written p 14 (ip6_bytes saddr daddr payload next) 24 daddr (omega arith) room refl;
}

pub create_v4_hdr-Header4 :
    (p : Packet) (saddr daddr payload proto : ℕ)
    → 34 ≤ length p
    → Header4
        (create_v4_hdr p 14 0 saddr daddr payload proto)
        0
        (swap16 (u16 (payload + 20)))
        64
        proto
        saddr
        daddr
unfolding create_v4_hdr
create_v4_hdr-Header4 p saddr daddr payload proto room =
    let total = swap16 (u16 (payload + 20)) in
    let b = write_header p 14 0 total 64 proto saddr daddr in
    write_header-Header4 p 0 total 64 proto saddr daddr room (ipv4_csum_inline b 14)

-- What stands behind an IPv4 header that is written at 14 is as before.
pub byte_at-create_v4_hdr :
    (p : Packet) (saddr daddr payload proto i : ℕ)
    → 34 ≤ length p
    → 34 ≤ i
    → byte_at (create_v4_hdr p 14 0 saddr daddr payload proto) i ≡ byte_at p i
unfolding create_v4_hdr
byte_at-create_v4_hdr p saddr daddr payload proto i room h =
    let total = swap16 (u16 (payload + 20)) in
    let b = write_header p 14 0 total 64 proto saddr daddr in
    byte_at-write_above b 24 (le_bytes 2 (ipv4_csum_inline b 14)) i (omega arith)
    ∙ byte_at-write_header p 0 total 64 proto saddr daddr room i h
