-- ===== src/Katran/Process.antt =====
-- balancer_kern.h of examples/katran: a packet from its headers to its real.
pub mod Affinity
pub mod Connection
pub mod Headers
pub mod Verdicts
pub mod Errors
use dram_pvt_mk.Base.{
  ℕ, ◌+◌, ◌*◌, ◌/◌, ◌%◌, ◌^◌, List, Bool, true, false, not, ◌&&◌, ◌||◌, ◌==◌, ltb, if◌then◌else◌,
  Option, none, some, length, swap16, bit_and, u64,
}
use dram_pvt_mk.Base.Table.{Table, store, or_return}
use dram_pvt_mk.Base.Bytes.{Packet, ◌>>=◌, byte_at, half_at, word_at}
use dram_pvt_mk.Base.Xdp.{xdp_drop, xdp_pass, xdp_tx, ipproto_tcp, ipproto_udp}
use dram_pvt_mk.Katran.{
  Address, no_address, address_at, FlowKey, PacketDescription, VipDefinition, same_vip, VipMeta,
  VipMap, RealDefinition, LbStats, BalancerMaps, BalancerKernel, BuildFlags, has_flag, f_ipv6,
  f_hash_no_src_port, f_lru_bypass, f_quic_vip, f_hash_dport_only, max_vips, max_pckt_size,
  pckt_fragmented, be_eth_p_ip, be_eth_p_ipv6, raise_v1, raise_v2,
}
use dram_pvt_mk.Katran.Parse.{parse_udp, parse_tcp, parse_quic}
use dram_pvt_mk.Katran.Icmp.{
  Answer, Parsed, refused, set_v4, parse_icmp, parse_icmpv6, send_icmp_too_big,
}
use dram_pvt_mk.Katran.Encap.{Moved, encap_v4, encap_v6, gue_encap_v4, gue_encap_v6}
use dram_pvt_mk.Katran.Route.{Found, get_packet_dst, connection_table_lookup}

-- `struct packet_description pckt = {};`
abbrev pub no_pckt : PacketDescription
no_pckt = record {
  flow = record { src = no_address; dst = no_address; sport = 0; dport = 0; proto = 0 };
  real_index = 0;
  icmp = false;
  syn_set = false;
  tos = 0;
}

abbrev pub with_header : PacketDescription → ℕ → ℕ → PacketDescription
with_header d tos proto =
    let f = d.flow in record d { flow = record f { proto = proto }; tos = tos }

abbrev pub with_addresses : PacketDescription → Address → Address → PacketDescription
with_addresses d src dst = let f = d.flow in record d { flow = record f { src = src; dst = dst } }

-- `*pkt_bytes`, which is not set where the header does not fit.
unfoldable pub pkt_bytes : Packet → ℕ → Bool → ℕ
pkt_bytes p off is_ipv6 = swap16 (half_at p (if is_ipv6 then off + 4 else off + 2))

unfoldable pub process_l3_headers : Packet → ℕ → Bool → PacketDescription → Parsed
process_l3_headers p off is_ipv6 d =
    if is_ipv6
    then (let next = byte_at p (off + 6) in
        let e = with_header d (byte_at p off % 16 * 16 + byte_at p (off + 1) / 16) next in
        if ltb (length p) (off + 40)
        then refused p d xdp_drop
        else if next == 44
        then refused p e xdp_drop
        else if next == 58
        then parse_icmpv6 p (off + 40) e
        else record {
          action = none;
          packet = p;
          pckt = with_addresses e (address_at p (off + 8)) (address_at p (off + 24));
        })
    else let proto = byte_at p (off + 9) in
      let e = with_header d (byte_at p (off + 1)) proto in
      let f = e.flow in
      if ltb (length p) (off + 20)
      then refused p d xdp_drop
      else if not (byte_at p off % 16 == 5)
      then refused p d xdp_drop
      else if not (bit_and (half_at p (off + 6)) pckt_fragmented == 0)
      then refused p e xdp_drop
      else if proto == 1
      then parse_icmp p (off + 20) e
      else record {
        action = none;
        packet = p;
        pckt =
            with_addresses e (set_v4 f.src (word_at p (off + 12)))
              (set_v4 f.dst (word_at p (off + 16)));
      }

pub record BalancerRun : Type 0 where
  pub maps : BalancerMaps
  pub packet : Packet
  pub verdict : ℕ

abbrev pub ends : BalancerMaps → Packet → ℕ → BalancerRun
ends m p verdict = record { maps = m; packet = p; verdict = verdict }

unfoldable pub increment_quic_cid_version_stats : Table LbStats → ℕ → Table LbStats
increment_quic_cid_version_stats t host_id =
    if ltb 0xFFFF host_id then raise_v2 t (max_vips + 8) 1 else raise_v1 t (max_vips + 8) 1

unfoldable pub increment_quic_cid_drop_no_real : Table LbStats → Table LbStats
increment_quic_cid_drop_no_real t = raise_v1 t (max_vips + 9) 1

unfoldable pub increment_quic_cid_drop_real_0 : Table LbStats → Table LbStats
increment_quic_cid_drop_real_0 t = raise_v2 t (max_vips + 9) 1

-- The service of a packet, by its port or by port 0; the key under which it was found.
pub record Service : Type 0 where
  pub key : VipDefinition
  pub meta : VipMeta
  pub pckt : PacketDescription

unfoldable pub find_vip : VipMap → PacketDescription → Option Service
find_vip t d =
    let f = d.flow in
    let exact : VipDefinition = record { vip = f.dst; port = f.dport; proto = f.proto } in
    let any : VipDefinition = record exact { port = 0 } in
    elim (t exact) [
      | some meta ↦ some (record { key = exact; meta = meta; pckt = d })
      | none ↦ or_return (t any) none λ meta. some (record {
        key = any;
        meta = meta;
        pckt =
            if not (has_flag meta.flags f_hash_dport_only)
            then (record d { flow = record f { dport = 0 } })
            else d;
      })
    ]

-- `vip_info->vip_num = 7;` writes to the map.
unfoldable pub number_vip : BalancerMaps → Service → BalancerMaps
number_vip m s =
    let v = s.meta in
    let t = m.vip_map in
    record m {
      vip_map = λ key. if same_vip s.key key then some (record v { vip_num = 7 }) else t key;
    }

abbrev pub lru_cntrs : ℕ
lru_cntrs = max_vips

abbrev pub lru_miss_cntr : ℕ
lru_miss_cntr = max_vips + 1

abbrev pub icmp_toobig_cntrs : ℕ
icmp_toobig_cntrs = max_vips + 4

abbrev pub quic_route_stats : ℕ
quic_route_stats = max_vips + 7

-- `if (data_end - data > MAX_PCKT_SIZE)`
unfoldable pub too_big : BuildFlags → BalancerKernel → BalancerMaps → Packet → Bool → BalancerRun
too_big b k m p is_ipv6 =
    if not b.icmp_toobig_generation
    then ends m p xdp_drop
    else or_return (m.stats icmp_toobig_cntrs) (ends m p xdp_drop) λ _.
      let r = send_icmp_too_big k is_ipv6 p in
      let t = m.stats in
      let raised =
        if is_ipv6 then raise_v2 t icmp_toobig_cntrs 1 else raise_v1 t icmp_toobig_cntrs 1 in
      ends (record m { stats = raised }) r.packet r.verdict

-- The real that a QUIC packet names; `none` drops the packet, with the maps that are left.
pub record Routed : Type 0 where
  pub maps : BalancerMaps
  pub pckt : PacketDescription
  pub real : Option RealDefinition
  pub dropped : Bool

unfoldable pub quic_route : BalancerMaps → Packet → Bool → PacketDescription → VipMeta → Routed
quic_route m p is_ipv6 d vip =
    let t = m.stats in
    let hashing : Table LbStats → Routed = λ u. record {
      maps = record m { stats = raise_v1 u quic_route_stats 1 };
      pckt = d;
      real = none;
      dropped = false;
    } in
    if not (d.flow.proto == ipproto_udp && has_flag vip.flags f_quic_vip)
    then record { maps = m; pckt = d; real = none; dropped = false }
    else or_return (t quic_route_stats) (record { maps = m; pckt = d; real = none; dropped = true })
        λ _. or_return (parse_quic p is_ipv6 d) (hashing t) λ index.
          let t1 = increment_quic_cid_version_stats t index in
          or_return (m.quic_mapping index) (hashing t1) λ key.
            let t2 = if key == 0 then increment_quic_cid_drop_real_0 t1 else t1 in
            let e = record d { real_index = key } in
            or_return (m.reals key)
              (record {
                maps = record m { stats = increment_quic_cid_drop_no_real t2 };
                pckt = e;
                real = none;
                dropped = true;
              })
              λ real. record {
                maps = record m { stats = raise_v2 t2 quic_route_stats 1 };
                pckt = e;
                real = some real;
                dropped = false;
              }

-- `none` drops the packet. A miss of the connection table is counted for TCP.
unfoldable pub count_miss : BalancerMaps → PacketDescription → Option BalancerMaps
count_miss m d =
    let t = m.stats in
    if d.flow.proto == ipproto_tcp
    then (or_return (t lru_miss_cntr) none λ _. some (record m {
      stats = if d.syn_set then raise_v1 t lru_miss_cntr 1 else raise_v2 t lru_miss_cntr 1;
    }))
    else some m

-- Services that send all ports of a client to one real.
abbrev pub keyed : PacketDescription → VipMeta → PacketDescription
keyed d vip =
    let f = d.flow in
    if has_flag vip.flags f_hash_no_src_port
    then (record d { flow = record f { sport = 0 } })
    else d

-- The connection table is not asked for a new TCP connection.
abbrev pub known_real : BalancerKernel → BalancerMaps → PacketDescription → VipMeta → Found
known_real k m d vip =
    if not d.syn_set && not (has_flag vip.flags f_lru_bypass)
    then connection_table_lookup k m d
    else record { maps = m; pckt = d; real = none; dropped = false }

-- A real that the ring gave is counted as a miss of the table.
abbrev pub count_new : Option RealDefinition → BalancerMaps → BalancerMaps
count_new none m = m
count_new (some real) m = record m { stats = raise_v2 m.stats lru_cntrs 1 }

-- `if (!dst)`: the connection table, and the ring where it has no real.
unfoldable pub find_real :
    BalancerKernel → BalancerMaps → Bool → PacketDescription → VipMeta → Option Found
find_real k m is_ipv6 d vip =
    let old = known_real k m (keyed d vip) vip in
    or_return old.real
      (or_return (count_miss old.maps old.pckt) (some (record old { dropped = true })) λ n.
        get_packet_dst k n old.pckt vip is_ipv6 >>= λ r.
        some (record r { maps = count_new r.real r.maps }))
      λ real. some old

-- PCKT_ENCAP_V4 and PCKT_ENCAP_V6.
unfoldable pub pckt_encap :
    BuildFlags
    → BalancerKernel
    → BalancerMaps
    → Packet
    → List ℕ
    → Bool
    → PacketDescription
    → RealDefinition
    → ℕ
    → Moved
pckt_encap b k m p mac is_ipv6 d real size =
    if is_ipv6 && has_flag real.flags f_ipv6
    then (if b.gue_encap
        then gue_encap_v6 k m p mac is_ipv6 d real size
        else encap_v6 k p mac is_ipv6 d real size)
    else if b.gue_encap
    then gue_encap_v4 k m p mac d real size
    else encap_v4 k p mac d real size

-- One packet of `size` bytes.
abbrev pub count_bytes : Table LbStats → ℕ → ℕ → Table LbStats
count_bytes t key size = raise_v2 (raise_v1 t key 1) key size

-- From the lookup of the router's hardware address on.
unfoldable pub transmit :
    BuildFlags
    → BalancerKernel
    → BalancerMaps
    → Packet
    → Bool
    → PacketDescription
    → RealDefinition
    → ℕ
    → ℕ
    → BalancerRun
transmit b k m p is_ipv6 d real vip_num size = or_return (m.ctl_array 0) (ends m p xdp_drop) λ mac.
    let r = pckt_encap b k m p mac is_ipv6 d real size in
    if not r.moved
    then ends m r.packet xdp_drop
    else or_return (m.stats vip_num) (ends m r.packet xdp_drop) λ _.
      let n = record m { stats = count_bytes m.stats vip_num size } in
      or_return (n.reals_stats d.real_index) (ends n r.packet xdp_drop) λ _.
        let t = n.reals_stats in
        ends (record n { reals_stats = count_bytes t d.real_index size }) r.packet xdp_tx

-- From the QUIC identifier on, with the service's metadata as the map has them by then. The real is
-- dereferenced without a test: NULL is a fault, `none`.
unfoldable pub deliver :
    BuildFlags
    → BalancerKernel
    → BalancerMaps
    → Packet
    → Bool
    → PacketDescription
    → VipMeta
    → ℕ
    → Option BalancerRun
deliver b k m p is_ipv6 d vip size =
    let q = quic_route m p is_ipv6 d vip in
    if q.dropped
    then some (ends q.maps p xdp_drop)
    else or_return q.real
        (find_real k q.maps is_ipv6 q.pckt vip >>= λ r.
          if r.dropped
          then some (ends r.maps p xdp_drop)
          else (r.real >>= λ real.
              some (transmit b k r.maps p is_ipv6 r.pckt real vip.vip_num size)))
        λ real. some (transmit b k q.maps p is_ipv6 q.pckt real vip.vip_num size)

-- From the lookup of the service on.
unfoldable pub balance :
    BuildFlags
    → BalancerKernel
    → BalancerMaps
    → Packet
    → Bool
    → PacketDescription
    → ℕ
    → Option BalancerRun
balance b k m p is_ipv6 d size = or_return (find_vip m.vip_map d) (some (ends m p xdp_pass)) λ s.
    let n = number_vip m s in
    let v = s.meta in
    if ltb max_pckt_size (length p)
    then some (too_big b k n p is_ipv6)
    else or_return (n.stats lru_cntrs) (some (ends n p xdp_drop)) λ _.
      deliver b k (record n { stats = raise_v1 n.stats lru_cntrs 1 }) p is_ipv6 s.pckt
        (record v { vip_num = 7 }) size

unfoldable pub process_packet :
    BuildFlags → BalancerKernel → BalancerMaps → Packet → ℕ → Bool → Option BalancerRun
process_packet b k m p off is_ipv6 =
    let l3 = process_l3_headers p off is_ipv6 no_pckt in
    let proto = l3.pckt.flow.proto in
    let size = pkt_bytes p off is_ipv6 in
    or_return l3.action
      (if proto == ipproto_tcp
        then or_return (parse_tcp p is_ipv6 l3.pckt) (some (ends m p xdp_drop))
            (λ d. balance b k m p is_ipv6 d size)
        else if proto == ipproto_udp
        then or_return (parse_udp p is_ipv6 l3.pckt) (some (ends m p xdp_drop))
            (λ d. balance b k m p is_ipv6 d size)
        else some (ends m p xdp_pass))
      λ action. some (ends m l3.packet action)

unfoldable pub balancer_ingress :
    BuildFlags → BalancerKernel → BalancerMaps → Packet → Option BalancerRun
balancer_ingress b k m p =
    if ltb (length p) 14
    then some (ends m p xdp_drop)
    else if half_at p 12 == be_eth_p_ip
    then process_packet b k m p 14 false
    else if half_at p 12 == be_eth_p_ipv6
    then process_packet b k m p 14 true
    else some (ends m p xdp_pass)
