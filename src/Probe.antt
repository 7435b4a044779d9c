-- ===== src/Probe.antt =====
-- A probe for segment-routing flows: main.c, xdp_map.h, xdp_struct.h and xdp_consts.h of
-- examples/fluvia.
pub mod Laws
use dram_pvt_mk.Base.{
  ℕ, zero, suc, ◌+◌, ◌*◌, ◌≡◌, ◌≢◌, ◌⊎◌, List, [], ◌∷◌, Bool, not, ◌||◌, ◌==◌, ltb, if◌then◌else◌,
  Option, none, some, length, swap16,
}
use dram_pvt_mk.Base.Table.{or_return}
use dram_pvt_mk.Base.Bytes.{Packet, byte_at, half_at, bytes_from}
use dram_pvt_mk.Base.Xdp.{xdp_pass, ethhdr_size}

abbrev pub max_segmentlist_entries : ℕ
max_segmentlist_entries = 10

abbrev pub ipproto_ipv6route : ℕ
ipproto_ipv6route = 43

-- The fixed part of the segment routing header.
pub record SrhHdr : Type 0 where
  pub next_hdr : ℕ
  pub hdr_ext_len : ℕ
  pub routing_type : ℕ
  pub segments_left : ℕ
  pub last_entry : ℕ
  pub flags : ℕ
  pub tag : ℕ

abbrev pub srh_at : Packet → ℕ → SrhHdr
srh_at p off = record {
  next_hdr = byte_at p off;
  hdr_ext_len = byte_at p (off + 1);
  routing_type = byte_at p (off + 2);
  segments_left = byte_at p (off + 3);
  last_entry = byte_at p (off + 4);
  flags = byte_at p (off + 5);
  tag = half_at p (off + 6);
}

-- Addresses are lists of bytes.
pub record ProbeData : Type 0 where
  pub h_dest : List ℕ
  pub h_source : List ℕ
  pub h_proto : ℕ
  pub v6_srcaddr : List ℕ
  pub v6_dstaddr : List ℕ
  pub srh : SrhHdr
  pub segments : List (List ℕ)

abbrev pub ProbeMap : Type 0
ProbeMap = ProbeData → Option ℕ

abbrev pub zeros : ℕ → List ℕ
zeros zero = []
zeros (suc n) = 0 ∷ zeros n

-- The segments that no round stored to.
abbrev pub unset : ℕ → List (List ℕ)
unset zero = []
unset (suc n) = zeros 16 ∷ unset n

-- The segments from `i` on; the first argument counts the rounds left, and `data` is the packet.
unfoldable pub segments_loop : ℕ → Packet → ℕ → ℕ → List (List ℕ)
segments_loop zero p last_entry i = []
segments_loop (suc left) p last_entry i =
    let rest = segments_loop left p last_entry (i + 1) in
    if not (ltb i (last_entry + 1))
    then unset (suc left)
    else if ltb (length p) (62 + 16 * (i + 1) + 1)
    then unset (suc left)
    else bytes_from p (62 + 16 * i) 16 ∷ rest

unfoldable pub key_of : Packet → ProbeData
key_of p =
    let srh = srh_at p 54 in
    record {
      h_dest = bytes_from p 0 6;
      h_source = bytes_from p 6 6;
      h_proto = half_at p 12;
      v6_srcaddr = bytes_from p 22 16;
      v6_dstaddr = bytes_from p 38 16;
      srh = srh;
      segments = segments_loop max_segmentlist_entries p srh.last_entry 0;
    }

-- No IPv6 packet with a segment routing header of type 4.
unfoldable pub no_srv6 : Packet → Bool
no_srv6 p =
    ltb (length p) ethhdr_size
    || (not (half_at p 12 == swap16 0x86DD)
        || (ltb (length p) 54
            || (not (byte_at p 20 == ipproto_ipv6route)
                || (ltb (length p) 62 || not (byte_at p 56 == 4)))))

-- `bpf_map_update_elem` with BPF_NOEXIST on an LRU map, and what is relied on: when it succeeds, the
-- key has the value, and every other key's entry is as before, or was evicted.
pub record LruUpdate : Type 0 where
  pub update : ProbeMap → ProbeData → ℕ → Option ProbeMap
  pub finds : (t t' : ProbeMap) (k : ProbeData) (v : ℕ) → update t k v ≡ some t' → t' k ≡ some v
  pub others :
      (t t' : ProbeMap) (k j : ProbeData) (v : ℕ)
      → update t k v ≡ some t'
      → (k ≡ j) ⊎ (t' j ≡ t j) ⊎ (t' j ≡ none)

-- The result of the update is not tested, and the value of the second lookup is not used.
unfoldable pub xdp_prog : LruUpdate → ProbeMap → Packet → ProbeMap × ℕ
xdp_prog u t p =
    if no_srv6 p
    then (t, xdp_pass)
    else let key = key_of p in
      elim (t key) [
        | some value ↦ (t, xdp_pass)
        | none ↦ elim (u.update t key 0) [ some t' ↦ (t', xdp_pass) | none ↦ (t, xdp_pass) ]
      ]
