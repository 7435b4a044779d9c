-- ===== src/Katran/Route.antt =====
-- balancer_kern.h of examples/katran: the real of a packet, by the connection table or by
-- consistent hashing, and the rate of new connections.
pub mod Flood
pub mod Affinity
use dram_pvt_mk.Base.{
  ℕ, ◌+◌, ◌*◌, ◌/◌, ◌%◌, ◌^◌, ◌-◌, List, Bool, true, false, not, ◌&&◌, ◌||◌, ◌==◌, ltb,
  if◌then◌else◌, Option, none, some, u64, u32,
}
use dram_pvt_mk.Base.Table.{Table, store, or_return}
use dram_pvt_mk.Base.Bytes.{◌>>=◌}
use dram_pvt_mk.Base.Xdp.{ipproto_udp}
use dram_pvt_mk.Hash.Jhash.{jhash, jhash_2words}
use dram_pvt_mk.Katran.{
  Address, no_address, FlowKey, same_flow, PacketDescription, VipMeta, RealDefinition, LbStats,
  LruMap, BalancerMaps, BalancerKernel, has_flag, f_lru_bypass, f_hash_dport_only, ring_size,
  max_vips, one_sec, max_conn_rate, lru_udp_timeout, sub64, raise_v1,
}
use dram_pvt_mk.Katran.Encap.{address_bytes}

-- The seeds are CH_RINGS_SIZE and MAX_VIPS.
unfoldable pub get_packet_hash : PacketDescription → Bool → Option ℕ
get_packet_hash d hash_16bytes =
    let ports = d.flow.sport + 2 ^ 16 * d.flow.dport in
    if hash_16bytes
    then (jhash (address_bytes d.flow.src) 16 max_vips >>= λ h.
        some (jhash_2words h ports (max_vips * ring_size)))
    else some (jhash_2words d.flow.src.w0 ports (max_vips * ring_size))

-- The statistics, the answer, and what is left in `cur_time`.
pub record Rate : Type 0 where
  pub stats : Table LbStats
  pub under_flood : Bool
  pub cur_time : ℕ

abbrev pub conn_rate_key : ℕ
conn_rate_key = max_vips + 2

unfoldable pub is_under_flood : Table LbStats → ℕ → Rate
is_under_flood t now =
    or_return (t conn_rate_key) (record { stats = t; under_flood = true; cur_time = 0 })
      λ s.
        if ltb one_sec (sub64 now s.v2)
        then record {
          stats = store t conn_rate_key (record { v1 = 1; v2 = now });
          under_flood = false;
          cur_time = now;
        }
        else record {
          stats = store t conn_rate_key (record s { v1 = u64 (s.v1 + 1) });
          under_flood = ltb max_conn_rate (u64 (s.v1 + 1));
          cur_time = now;
        }

-- What a search for a real leaves; `real` is the pointer, `none` for NULL. `dropped` is whether the
-- packet is dropped, as it is where `get_packet_dst` returns false.
pub record Found : Type 0 where
  pub maps : BalancerMaps
  pub pckt : PacketDescription
  pub real : Option RealDefinition
  pub dropped : Bool

-- Services that hash the destination port alone overwrite the source.
abbrev pub hashed : PacketDescription → VipMeta → PacketDescription
hashed d vip =
    let f = d.flow in
    if has_flag vip.flags f_hash_dport_only
    then (record d { flow = record f { sport = f.dport; src = no_address } })
    else d

-- The new entry of the connection table.
abbrev pub remembered :
    BalancerKernel → BalancerMaps → PacketDescription → VipMeta → Rate → ℕ → LruMap
remembered k m d vip rate pos =
    if not (has_flag vip.flags f_lru_bypass) && not rate.under_flood
    then k.lru_update m.lru_mapping d.flow
        (record { pos = pos; atime = if d.flow.proto == ipproto_udp then rate.cur_time else 0 })
    else m.lru_mapping

-- The function returns true exactly when a real is found.
unfoldable pub get_packet_dst :
    BalancerKernel → BalancerMaps → PacketDescription → VipMeta → Bool → Option Found
get_packet_dst k m d vip is_ipv6 =
    let rate = is_under_flood m.stats k.rate_time in
    let n = record m { stats = rate.stats } in
    let e = hashed d vip in
    get_packet_hash e is_ipv6 >>= λ hash. some (
      or_return (n.ch_rings (u32 (ring_size * vip.vip_num + hash % ring_size)))
        (record { maps = n; pckt = e; real = none; dropped = true })
        λ key.
          let r = record e { real_index = key } in
          or_return (n.reals key) (record { maps = n; pckt = r; real = none; dropped = true })
            λ real. record {
              maps = record n { lru_mapping = remembered k n r vip rate key };
              pckt = r;
              real = some real;
              dropped = false;
            })

-- The value under the key is overwritten in place.
abbrev pub touched : LruMap → FlowKey → ℕ → LruMap
touched t key now flow =
    if same_flow key flow
    then or_return (t flow) none (λ e. some (record e { atime = now }))
    else t flow

unfoldable pub connection_table_lookup : BalancerKernel → BalancerMaps → PacketDescription → Found
connection_table_lookup k m d =
    let miss : Found = record { maps = m; pckt = d; real = none; dropped = false } in
    or_return (m.lru_mapping d.flow) miss λ entry.
      let hit : BalancerMaps → Found = λ n. record {
        maps = n;
        pckt = record d { real_index = entry.pos };
        real = n.reals entry.pos;
        dropped = false;
      } in
      if d.flow.proto == ipproto_udp
      then (if ltb lru_udp_timeout (sub64 k.lookup_time entry.atime)
          then miss
          else hit (record m { lru_mapping = touched m.lru_mapping d.flow k.lookup_time }))
      else hit m
