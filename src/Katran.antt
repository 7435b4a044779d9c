-- ===== src/Katran.antt =====
-- The load balancer of examples/katran: balancer_kern.h and the headers that it includes, with the
-- changes of this repository, built without KLEE_VERIFICATION, LPM_SRC_LOOKUP and INLINE_DECAP.
-- Here: balancer_structs.h, balancer_consts.h, balancer_maps.h and control_data_maps.h.
pub mod Csum
pub mod Parse
pub mod Icmp
pub mod Encap
pub mod Route
pub mod Process
pub mod Spec
pub mod Health
pub mod Inline
use dram_pvt_mk.Base.{
  ℕ, ◌+◌, ◌*◌, ◌/◌, ◌%◌, ◌^◌, ◌-◌, List, Bool, ◌&&◌, ◌==◌, if◌then◌else◌, Option, none, some, u64,
}
use dram_pvt_mk.Base.Table.{Table, store, or_return}
use dram_pvt_mk.Base.Bytes.{Packet, word_at}

abbrev pub be_eth_p_ip : ℕ
be_eth_p_ip = 8

abbrev pub be_eth_p_ipv6 : ℕ
be_eth_p_ipv6 = 56710

-- More fragments or a fragment offset, in network order.
abbrev pub pckt_fragmented : ℕ
pckt_fragmented = 65343

abbrev pub ring_size : ℕ
ring_size = 127

abbrev pub max_vips : ℕ
max_vips = 32

abbrev pub one_sec : ℕ
one_sec = 1000000000

abbrev pub lru_udp_timeout : ℕ
lru_udp_timeout = 30000000000

abbrev pub default_ttl : ℕ
default_ttl = 64

abbrev pub max_pckt_size : ℕ
max_pckt_size = 1514

abbrev pub icmp_toobig_size : ℕ
icmp_toobig_size = 98

abbrev pub icmp6_toobig_size : ℕ
icmp6_toobig_size = 262

abbrev pub max_conn_rate : ℕ
max_conn_rate = 125000

abbrev pub concrete_quic_real_id : ℕ
concrete_quic_real_id = 3

abbrev pub ipip_v4_prefix : ℕ
ipip_v4_prefix = 4268

-- Bits of the flags: F_IPV6 of a real, and those of a service.
abbrev pub has_flag : ℕ → ℕ → Bool
has_flag flags flag = flags / flag % 2 == 1

abbrev pub f_ipv6 : ℕ
f_ipv6 = 1

abbrev pub f_hash_no_src_port : ℕ
f_hash_no_src_port = 1

abbrev pub f_lru_bypass : ℕ
f_lru_bypass = 2

abbrev pub f_quic_vip : ℕ
f_quic_vip = 4

abbrev pub f_hash_dport_only : ℕ
f_hash_dport_only = 8

-- `__be32 [4]`, which shares its first word with the IPv4 address.
pub record Address : Type 0 where
  pub w0 : ℕ
  pub w1 : ℕ
  pub w2 : ℕ
  pub w3 : ℕ

abbrev pub no_address : Address
no_address = record { w0 = 0; w1 = 0; w2 = 0; w3 = 0 }

abbrev pub same_address : Address → Address → Bool
same_address a b = a.w0 == b.w0 && (a.w1 == b.w1 && (a.w2 == b.w2 && a.w3 == b.w3))

-- 16 bytes copied from the packet.
abbrev pub address_at : Packet → ℕ → Address
address_at p off = record {
  w0 = word_at p off;
  w1 = word_at p (off + 4);
  w2 = word_at p (off + 8);
  w3 = word_at p (off + 12);
}

-- `port16[0]` and `port16[1]` are the source and the destination port.
pub record FlowKey : Type 0 where
  pub src : Address
  pub dst : Address
  pub sport : ℕ
  pub dport : ℕ
  pub proto : ℕ

abbrev pub same_flow : FlowKey → FlowKey → Bool
same_flow a b =
    same_address a.src b.src
    && (same_address a.dst b.dst
        && (a.sport == b.sport && (a.dport == b.dport && a.proto == b.proto)))

-- `flags` has two bits, F_ICMP and F_SYN_SET.
pub record PacketDescription : Type 0 where
  pub flow : FlowKey
  pub real_index : ℕ
  pub icmp : Bool
  pub syn_set : Bool
  pub tos : ℕ

pub record VipDefinition : Type 0 where
  pub vip : Address
  pub port : ℕ
  pub proto : ℕ

abbrev pub same_vip : VipDefinition → VipDefinition → Bool
same_vip a b = same_address a.vip b.vip && (a.port == b.port && a.proto == b.proto)

pub record VipMeta : Type 0 where
  pub flags : ℕ
  pub vip_num : ℕ

pub record RealPosLru : Type 0 where
  pub pos : ℕ
  pub atime : ℕ

pub record RealDefinition : Type 0 where
  pub dst : Address
  pub flags : ℕ

pub record LbStats : Type 0 where
  pub v1 : ℕ
  pub v2 : ℕ

abbrev pub VipMap : Type 0
VipMap = VipDefinition → Option VipMeta

abbrev pub LruMap : Type 0
LruMap = FlowKey → Option RealPosLru

-- `ctl_array` holds the hardware address of the router under 0. The arrays of a processor are its own.
pub record BalancerMaps : Type 0 where
  pub vip_map : VipMap
  pub lru_mapping : LruMap
  pub ch_rings : Table ℕ
  pub reals : Table RealDefinition
  pub reals_stats : Table LbStats
  pub stats : Table LbStats
  pub quic_mapping : Table ℕ
  pub ctl_array : Table (List ℕ)
  pub pckt_srcs : Table RealDefinition

-- What the kernel does. `grow_head p n` is `bpf_xdp_adjust_head(xdp, -n)`, `shrink_head p n` is
-- `bpf_xdp_adjust_head(xdp, n)` and `shrink_tail p n` is `bpf_xdp_adjust_tail(xdp, -n)`, `none` where
-- they fail. `csum_diff p off n seed` is `bpf_csum_diff(0, 0, p + off, n, seed)`. `lru_update` is
-- `bpf_map_update_elem` on the LRU map. The two readings of the clock are those of the lookup in the
-- connection table and of the rate of new connections.
pub record BalancerKernel : Type 0 where
  pub grow_head : Packet → ℕ → Option Packet
  pub shrink_head : Packet → ℕ → Option Packet
  pub shrink_tail : Packet → ℕ → Option Packet
  pub csum_diff : Packet → ℕ → ℕ → ℕ → ℕ
  pub lru_update : LruMap → FlowKey → RealPosLru → LruMap
  pub lookup_time : ℕ
  pub rate_time : ℕ

-- Optional features, which are defined on the command line.
pub record BuildFlags : Type 0 where
  pub icmp_toobig_generation : Bool
  pub gue_encap : Bool

-- `a - b` on `__u64`.
abbrev pub sub64 : ℕ → ℕ → ℕ
sub64 a b = u64 (a + 2 ^ 64 - b)

-- A counter that was found is raised.
abbrev pub raise_v1 : Table LbStats → ℕ → ℕ → Table LbStats
raise_v1 t k n = or_return (t k) t λ s. store t k (record s { v1 = u64 (s.v1 + n) })

abbrev pub raise_v2 : Table LbStats → ℕ → ℕ → Table LbStats
raise_v2 t k n = or_return (t k) t λ s. store t k (record s { v2 = u64 (s.v2 + n) })
