-- ===== src/Katran/Route/Affinity.antt =====
-- Packets of one connection go to one real: the connection table.
use dram_pvt_mk.Base.{
  ℕ, ◌+◌, ◌*◌, ◌%◌, ◌^◌, ◌≤◌, ◌≡◌, ◌∙◌, refl, sym, ap, arith, inl, inr, Bool, true, false, ◌==◌,
  if◌then◌else◌, ltb, ltb-eq-false, some, Option-cases, Bool-cases, ==_self, some_inj,
}
use dram_pvt_mk.Base.Xdp.{ipproto_udp}
use dram_pvt_mk.Katran.{
  FlowKey, same_flow, PacketDescription, VipMeta, RealDefinition, RealPosLru, LruMap, BalancerMaps,
  BalancerKernel, has_flag, f_lru_bypass, f_hash_dport_only, lru_udp_timeout, sub64,
}
use dram_pvt_mk.Katran.Route.{
  Found, is_under_flood, get_packet_hash, get_packet_dst, hashed, remembered,
  connection_table_lookup,
}

-- What is relied on of `bpf_map_update_elem` on the LRU map: a lookup of the key finds the value.
abbrev pub LruFinds : (LruMap → FlowKey → RealPosLru → LruMap) → Type 0
LruFinds update = (t : LruMap) (flow : FlowKey) (v : RealPosLru) → update t flow v flow ≡ some v

-- The connection table has an entry that leads to the real with this index, and that a UDP packet at
-- the time `now` still accepts.
pub record Remembers (t : LruMap) (flow : FlowKey) (index now : ℕ) : Type 0 where
  pub entry : RealPosLru
  pub found : t flow ≡ some entry
  pub index_of : entry.pos ≡ index
  pub fresh : (flow.proto == ipproto_udp) ≡ true → sub64 now entry.atime ≤ lru_udp_timeout

-- A remembered connection goes to its real, whatever the ring says.
pub connection_table_lookup-real :
    (k : BalancerKernel) (m : BalancerMaps) (d : PacketDescription) (index : ℕ)
    → Remembers m.lru_mapping d.flow index k.lookup_time
    → ((connection_table_lookup k m d).real ≡ m.reals index)
      × ((connection_table_lookup k m d).pckt ≡ record d { real_index = index })
unfolding connection_table_lookup
connection_table_lookup-real k m d index r = elim (Bool-cases (d.flow.proto == ipproto_udp)) [
  | inl udp ↦
      let late = ltb-eq-false lru_udp_timeout (sub64 k.lookup_time r.entry.atime) (r.fresh udp) in
      rw (r.found, udp, late)
        (ap m.reals r.index_of, ap (λ (i : ℕ). record d { real_index = i }) r.index_of)
  | inr other ↦
      rw (r.found, other)
        (ap m.reals r.index_of, ap (λ (i : ℕ). record d { real_index = i }) r.index_of)
]

pub same_flow_self : (f : FlowKey) → same_flow f f ≡ true
same_flow_self f =
    rw
      (
        ==_self f.src.w0,
        ==_self f.src.w1,
        ==_self f.src.w2,
        ==_self f.src.w3,
        ==_self f.dst.w0,
        ==_self f.dst.w1,
        ==_self f.dst.w2,
        ==_self f.dst.w3,
        ==_self f.sport,
        ==_self f.dport,
        ==_self f.proto,
      )
      refl

-- A real of the connection table is still remembered.
pub record Kept (m : BalancerMaps) (d : PacketDescription) (r : Found) (real : RealDefinition)
    (now : ℕ) : Type 0 where
  pub remembers : Remembers r.maps.lru_mapping d.flow r.pckt.real_index now
  pub flow : r.pckt.flow ≡ d.flow
  pub real_of : m.reals r.pckt.real_index ≡ some real

pub connection_table_lookup-Kept :
    (k : BalancerKernel) (m : BalancerMaps) (d : PacketDescription) (real : RealDefinition)
    (now : ℕ)
    → (connection_table_lookup k m d).real ≡ some real
    → sub64 now k.lookup_time ≤ lru_udp_timeout
    → Kept m d (connection_table_lookup k m d) real now
unfolding connection_table_lookup
connection_table_lookup-Kept k m d real now h soon = elim (Option-cases (m.lru_mapping d.flow)) [
  | inl e ↦ absurd (ground (arith, h, e))
  | inr (entry, e) ↦ elim (Bool-cases (d.flow.proto == ipproto_udp)) [
    | inr other ↦
        rw (e, other)
          (record {
            remembers = record {
              entry = entry;
              found = e;
              index_of = refl;
              fresh = λ u. ground (arith, u, other);
            };
            flow = refl;
            real_of = rw (e, other) at h;
          })
    | inl udp ↦ elim (Bool-cases (ltb lru_udp_timeout (sub64 k.lookup_time entry.atime))) [
      | inl late ↦ absurd (ground (arith, h, e, udp, late))
      | inr early ↦
          rw (e, udp, early)
            (record {
              remembers = record {
                entry = record entry { atime = k.lookup_time };
                found = rw (same_flow_self d.flow, e) refl;
                index_of = refl;
                fresh = λ u. soon;
              };
              flow = refl;
              real_of = rw (e, udp, early) at h;
            })
    ]
  ]
]

calm_time :
    (k : BalancerKernel) (m : BalancerMaps)
    → (is_under_flood m.stats k.rate_time).under_flood ≡ false
    → (is_under_flood m.stats k.rate_time).cur_time ≡ k.rate_time
unfolding is_under_flood
calm_time k m h = ground (arith, h)

get_packet_dst-found :
    (k : BalancerKernel) (m : BalancerMaps) (d : PacketDescription) (vip : VipMeta) (is_ipv6 : Bool)
    (r : Found) (real : RealDefinition)
    → get_packet_dst k m d vip is_ipv6 ≡ some r
    → r.real ≡ some real
    → let n = record m { stats = (is_under_flood m.stats k.rate_time).stats } in
      let e = hashed d vip in
      (key : ℕ) × (m.reals key ≡ some real)
      × (r.pckt ≡ record e { real_index = key })
      × (r.maps.lru_mapping
          ≡ remembered k n
              (record e { real_index = key })
              vip
              (is_under_flood m.stats k.rate_time)
              key)
unfolding get_packet_dst
get_packet_dst-found k m d vip is_ipv6 r real run found =
    elim (Option-cases (get_packet_hash (hashed d vip) is_ipv6)) [
      | inl e ↦ absurd (ground (arith, run, e))
      | inr (hash, e) ↦ elim (Option-cases (m.ch_rings (place hash))) [
        | inl f ↦ absurd (ground (arith, run, found, e, f))
        | inr (key, f) ↦ elim (Option-cases (m.reals key)) [
          | inl g ↦ absurd (ground (arith, run, found, e, f, g))
          | inr (other, g) ↦
              let is = some_inj (rw (e, f, g) at run) in
              (
                key,
                g ∙ ap (λ (x : Found). x.real) is ∙ found,
                sym (ap (λ (x : Found). x.pckt) is),
                sym (ap (λ (x : Found). x.maps.lru_mapping) is),
              )
        ]
      ]
    ]
  where
    place : ℕ → ℕ
    place hash = (127 * vip.vip_num + hash % 127) % 2 ^ 32

-- A new connection that the ring gave a real is remembered, unless new connections come too fast.
pub get_packet_dst-Kept :
    (k : BalancerKernel) (m : BalancerMaps) (d : PacketDescription) (vip : VipMeta) (is_ipv6 : Bool)
    (r : Found) (real : RealDefinition) (now : ℕ)
    → LruFinds k.lru_update
    → has_flag vip.flags f_lru_bypass ≡ false
    → has_flag vip.flags f_hash_dport_only ≡ false
    → (is_under_flood m.stats k.rate_time).under_flood ≡ false
    → sub64 now k.rate_time ≤ lru_udp_timeout
    → get_packet_dst k m d vip is_ipv6 ≡ some r
    → r.real ≡ some real
    → Kept m d r real now
get_packet_dst-Kept k m d vip is_ipv6 r real now finds keep source calm soon run found =
    let rate = is_under_flood m.stats k.rate_time in
    let (key, real_of, pckt, lru) = get_packet_dst-found k m d vip is_ipv6 r real run found in
    let same : hashed d vip ≡ d = rw source refl in
    let index : r.pckt.real_index ≡ key = ap (λ (x : PacketDescription). x.real_index) pckt in
    let flow : r.pckt.flow ≡ d.flow =
      ap (λ (x : PacketDescription). x.flow) pckt ∙ ap (λ (x : PacketDescription). x.flow) same in
    let entry : RealPosLru = record {
      pos = key;
      atime = if d.flow.proto == ipproto_udp then rate.cur_time else 0;
    } in
    let stored : r.maps.lru_mapping ≡ k.lru_update m.lru_mapping d.flow entry =
      lru ∙ rw (source, keep, calm) refl in
    record {
      remembers = record {
        entry = entry;
        found = rw stored (finds m.lru_mapping d.flow entry);
        index_of = sym index;
        fresh = λ u. rw (u, calm_time k m calm) soon;
      };
      flow = flow;
      real_of = rw index real_of;
    }
