-- ===== src/Router.antt =====
-- An IPv4 router: examples/linux-sample-ipv4-router/xdp_router_ipv4.c.
pub mod Laws
use dram_pvt_mk.Base.{
  ℕ, ◌+◌, ◌/◌, ◌%◌, ◌^◌, List, [], ◌∷◌, Bool, not, ◌&&◌, ◌||◌, ◌==◌, ltb, if◌then◌else◌, Option,
  none, some, length, u64, swap16,
}
use dram_pvt_mk.Base.Table.{Table, or_return}
use dram_pvt_mk.Base.Bytes.{Packet, half_at, word_at, write, le_bytes}
use dram_pvt_mk.Base.Xdp.{xdp_drop, xdp_pass, ethhdr_size}

abbrev pub xdp_redirect_verdict : ℕ
xdp_redirect_verdict = 4

-- `prefix` is left out: the program does not read it.
pub record TrieValue : Type 0 where
  pub value : ℕ
  pub ifindex : ℕ
  pub metric : ℕ
  pub gw : ℕ

pub record DirectMap : Type 0 where
  pub arp_mac : ℕ
  pub arp_dst : ℕ
  pub ifindex : ℕ
  pub mac : ℕ

-- `xdp_pass` shares its place with `info`, which the program does not use.
pub record DataRec : Type 0 where
  pub processed : ℕ
  pub dropped : ℕ
  pub issue : ℕ
  pub xdp_pass : ℕ
  pub xdp_drop : ℕ
  pub xdp_redirect : ℕ

-- `lpm_map` is what a lookup in the trie gives for a prefix length and four bytes, `rx_cnt` the
-- map's only entry, and `redirect_map` what `bpf_redirect_map(&tx_port, forward_to, 0)` returns.
pub record RouterMaps : Type 0 where
  pub lpm_map : ℕ → List ℕ → Option TrieValue
  pub arp_table : Table ℕ
  pub exact_match : Table DirectMap
  pub redirect_map : ℕ → ℕ

pub record RouterRun : Type 0 where
  pub rx_cnt : Option DataRec
  pub packet : Packet
  pub verdict : ℕ

-- `if (rec) ...`
abbrev pub count : (DataRec → DataRec) → Option DataRec → Option DataRec
count f none = none
count f (some r) = some (f r)

abbrev pub count_processed : DataRec → DataRec
count_processed r = record r { processed = u64 (r.processed + 1) }

abbrev pub count_pass : DataRec → DataRec
count_pass r = record r { xdp_pass = u64 (r.xdp_pass + 1) }

abbrev pub count_drop : DataRec → DataRec
count_drop r = record r { xdp_drop = u64 (r.xdp_drop + 1) }

abbrev pub count_redirect : DataRec → DataRec
count_redirect r = record r { xdp_redirect = u64 (r.xdp_redirect + 1) }

-- `h_proto` behind a VLAN tag, if there is one, and where the next header begins; `none` where the
-- packet is too short.
unfoldable pub find_proto : Packet → Option (ℕ × ℕ)
find_proto p =
    if ltb (length p) ethhdr_size
    then none
    else let h_proto = half_at p 12 in
      if h_proto == swap16 0x8100 || h_proto == swap16 0x88A8
      then (if ltb (length p) 18 then none else some (half_at p 16, 18))
      else some (h_proto, 14)

-- What becomes of an IPv4 packet: `forward src_mac dest_mac forward_to`, or one of the two `goto`s.
pub data Route : Type 0 where
  to_drop : Route
  to_kernel : Route
  forward : ℕ → ℕ → ℕ → Route

abbrev pub key_4 : ℕ → List ℕ
key_4 daddr = le_bytes 4 daddr

unfoldable pub lookup_prefix : RouterMaps → ℕ → Route
lookup_prefix m daddr = or_return (m.lpm_map 32 (key_4 daddr)) to_drop λ prefix_value.
    elim (m.arp_table daddr) [
      | some dest_mac ↦ forward prefix_value.value dest_mac prefix_value.ifindex
      | none ↦
          if prefix_value.gw == 0
          then to_drop
          else or_return (m.arp_table prefix_value.gw) to_kernel
              λ dest_mac. forward prefix_value.value dest_mac prefix_value.ifindex
    ]

-- The entry for the very address is used when both of its addresses are set.
unfoldable pub find_route : RouterMaps → ℕ → Route
find_route m daddr = or_return (m.exact_match daddr) (lookup_prefix m daddr) λ direct_entry.
    if not (direct_entry.mac == 0) && not (direct_entry.arp_mac == 0)
    then forward direct_entry.mac direct_entry.arp_mac direct_entry.ifindex
    else lookup_prefix m daddr

-- `drop:`
abbrev pub drop : Option DataRec → Packet → RouterRun
drop rec p = record { rx_cnt = count count_drop rec; packet = p; verdict = xdp_drop }

abbrev pub pass : Option DataRec → Packet → RouterRun
pass rec p = record { rx_cnt = count count_pass rec; packet = p; verdict = xdp_pass }

unfoldable pub send : RouterMaps → Option DataRec → Packet → Route → RouterRun
send m rec p to_drop = drop rec p
send m rec p to_kernel = pass rec p
send m rec p (forward src_mac dest_mac forward_to) =
    let q = write (write p 0 (le_bytes 6 dest_mac)) 6 (le_bytes 6 src_mac) in
    let ret = m.redirect_map forward_to in
    if ret == xdp_redirect_verdict
    then record { rx_cnt = count count_redirect rec; packet = q; verdict = ret }
    else drop rec q

unfoldable pub xdp_router_ipv4_prog : RouterMaps → Option DataRec → Packet → RouterRun
xdp_router_ipv4_prog m rx_cnt p =
    let rec = count count_processed rx_cnt in
    or_return (find_proto p) (drop rec p) λ proto.
      if swap16 proto.0 == 0x0806
      then pass rec p
      else if swap16 proto.0 == 0x0800
      then (if ltb (length p) (proto.1 + 20)
          then drop rec p
          else send m rec p (find_route m (word_at p (proto.1 + 16))))
      else drop rec p
