-- ===== src/Katran/Process/Affinity.antt =====
-- Packets of one connection go to one real: find_real, whichever way the first of them went.
use dram_pvt_mk.Base.{
  ℕ, ◌≤◌, ◌≡◌, ◌∙◌, refl, sym, ap, arith, inl, inr, Bool, false, not, ◌&&◌, ◌==◌, ltb, Option, none,
  some, Option-cases, Bool-cases, some_inj,
}
use mathlib.Core.Path.{subst}
use dram_pvt_mk.Base.Table.{Table}
use dram_pvt_mk.Base.Xdp.{ipproto_tcp, ipproto_udp}
use dram_pvt_mk.Katran.{
  FlowKey, PacketDescription, VipMeta, RealDefinition, LbStats, BalancerMaps, BalancerKernel,
  has_flag, f_lru_bypass, f_hash_dport_only, lru_udp_timeout, sub64,
}
use dram_pvt_mk.Katran.Route.{
  Found, is_under_flood, conn_rate_key, get_packet_dst, connection_table_lookup,
}
use dram_pvt_mk.Katran.Route.Affinity.{
  LruFinds, Remembers, Kept, connection_table_lookup-Kept, get_packet_dst-Kept,
}
use dram_pvt_mk.Katran.Process.{lru_miss_cntr, count_new, count_miss, keyed, known_real, find_real}

-- A counter of misses is not the counter of new connections.
is_under_flood-eq :
    (t u : Table LbStats) (now : ℕ)
    → u conn_rate_key ≡ t conn_rate_key
    → (is_under_flood u now).under_flood ≡ (is_under_flood t now).under_flood
unfolding is_under_flood
is_under_flood-eq t u now e = elim (Option-cases (t conn_rate_key)) [
  | inl f ↦ rw (e, f) refl
  | inr (s, f) ↦ rw (e, f) (ground arith)
]

count_miss_lem :
    (m n : BalancerMaps) (d : PacketDescription)
    → count_miss m d ≡ some n
    → (n.stats conn_rate_key ≡ m.stats conn_rate_key)
      × (n.lru_mapping ≡ m.lru_mapping)
      × (n.reals ≡ m.reals)
unfolding count_miss
count_miss_lem m n d e = elim (Bool-cases (d.flow.proto == ipproto_tcp)) [
  | inr other ↦ same (some_inj (rw other at e)) refl
  | inl tcp ↦ elim (Option-cases (m.stats lru_miss_cntr)) [
    | inl f ↦ absurd (ground (arith, e, tcp, f))
    | inr (s, f) ↦ elim (Bool-cases d.syn_set) [
      | inl syn ↦ same (some_inj (rw (tcp, f, syn) at e)) refl
      | inr old ↦ same (some_inj (rw (tcp, f, old) at e)) refl
    ]
  ]
]
  where
    same :
        {t : Table LbStats}
        → record m { stats = t } ≡ n
        → t conn_rate_key ≡ m.stats conn_rate_key
        → (n.stats conn_rate_key ≡ m.stats conn_rate_key)
          × (n.lru_mapping ≡ m.lru_mapping)
          × (n.reals ≡ m.reals)
    same {t} is k = (
      sym (ap (λ (x : BalancerMaps). x.stats conn_rate_key) is) ∙ k,
      sym (ap (λ (x : BalancerMaps). x.lru_mapping) is),
      sym (ap (λ (x : BalancerMaps). x.reals) is),
    )

lookup_keeps :
    (k : BalancerKernel) (m : BalancerMaps) (d : PacketDescription)
    → let r = connection_table_lookup k m d in
      (r.maps.stats ≡ m.stats) × (r.maps.reals ≡ m.reals) × (r.pckt.flow ≡ d.flow)
unfolding connection_table_lookup
lookup_keeps k m d = elim (Option-cases (m.lru_mapping d.flow)) [
  | inl e ↦ rw e (refl, refl, refl)
  | inr (entry, e) ↦ elim (Bool-cases (d.flow.proto == ipproto_udp)) [
    | inr other ↦ rw (e, other) (refl, refl, refl)
    | inl udp ↦ elim (Bool-cases (ltb lru_udp_timeout (sub64 k.lookup_time entry.atime))) [
      | inl late ↦ rw (e, udp, late) (refl, refl, refl)
      | inr early ↦ rw (e, udp, early) (refl, refl, refl)
    ]
  ]
]

-- Whether the connection table is asked, and what that leaves.
known_real_lem :
    (k : BalancerKernel) (m : BalancerMaps) (d : PacketDescription) (vip : VipMeta)
    → let r = known_real k m d vip in
      (r.maps.stats ≡ m.stats) × (r.maps.reals ≡ m.reals) × (r.pckt.flow ≡ d.flow)
known_real_lem k m d vip =
    elim (Bool-cases (not d.syn_set && not (has_flag vip.flags f_lru_bypass))) [
      | inl asked ↦ rw asked (lookup_keeps k m d)
      | inr new ↦ rw new (refl, refl, refl)
    ]

known_real-Kept :
    (k : BalancerKernel) (m : BalancerMaps) (d : PacketDescription) (vip : VipMeta)
    (real : RealDefinition) (now : ℕ)
    → (known_real k m d vip).real ≡ some real
    → sub64 now k.lookup_time ≤ lru_udp_timeout
    → Kept m d (known_real k m d vip) real now
known_real-Kept k m d vip real now h soon =
    elim (Bool-cases (not d.syn_set && not (has_flag vip.flags f_lru_bypass))) [
      | inl asked ↦ rw asked (connection_table_lookup-Kept k m d real now (rw asked at h) soon)
      | inr new ↦ absurd (ground (arith, h, new))
    ]

module _ (k : BalancerKernel) (m : BalancerMaps) (is_ipv6 : Bool) (d : PacketDescription)
    (vip : VipMeta) (r : Found) (real : RealDefinition) (now : ℕ) (finds : LruFinds k.lru_update)
    (keep : has_flag vip.flags f_lru_bypass ≡ false)
    (source : has_flag vip.flags f_hash_dport_only ≡ false)
    (calm : (is_under_flood m.stats k.rate_time).under_flood ≡ false)
    (soon_lookup : sub64 now k.lookup_time ≤ lru_udp_timeout)
    (soon_rate : sub64 now k.rate_time ≤ lru_udp_timeout) (found : r.real ≡ some real) where
  old : Found
  old = known_real k m (keyed d vip) vip

  from_ring :
      (n : BalancerMaps) (g : Found)
      → count_miss old.maps old.pckt ≡ some n
      → get_packet_dst k n old.pckt vip is_ipv6 ≡ some g
      → g.real ≡ some real
      → Kept m (keyed d vip) g real now
  unfolding old
  from_ring n g e f h =
      let a = known_real_lem k m (keyed d vip) vip in
      let b = count_miss_lem old.maps n old.pckt e in
      let calm' =
        is_under_flood-eq m.stats n.stats k.rate_time
          (b.0 ∙ ap (λ (t : Table LbStats). t conn_rate_key) a.0)
        ∙ calm in
      let kept =
        get_packet_dst-Kept k n old.pckt vip is_ipv6 g real now finds keep source calm' soon_rate f
          h in
      record {
        remembers =
            subst (λ (x : FlowKey). Remembers g.maps.lru_mapping x g.pckt.real_index now) a.2
              kept.remembers;
        flow = kept.flow ∙ a.2;
        real_of =
            sym (ap (λ (t : Table RealDefinition). t g.pckt.real_index) (b.2 ∙ a.1)) ∙ kept.real_of;
      }

  hit : old.real ≡ some real → some old ≡ some r → Kept m (keyed d vip) r real now
  unfolding old
  hit e run =
      subst (λ x. Kept m (keyed d vip) x real now) (some_inj run)
        (known_real-Kept k m (keyed d vip) vip real now e soon_lookup)

  counted_lem :
      (o : Option RealDefinition) (n : BalancerMaps) → (count_new o n).lru_mapping ≡ n.lru_mapping
  counted_lem none n = refl
  counted_lem (some x) n = refl

  counted-Kept :
      (g : Found)
      → (g.real ≡ some real → Kept m (keyed d vip) g real now)
      → record g { maps = count_new g.real g.maps } ≡ r
      → Kept m (keyed d vip) r real now
  counted-Kept g kept is =
      let h = kept (ap (λ (y : Found). y.real) is ∙ found) in
      subst (λ y. Kept m (keyed d vip) y real now) is
        (record {
          remembers =
              subst (λ t. Remembers t (keyed d vip).flow g.pckt.real_index now)
                (sym (counted_lem g.real g.maps)) h.remembers;
          flow = h.flow;
          real_of = h.real_of;
        })

  pub find_real-Kept : find_real k m is_ipv6 d vip ≡ some r → Kept m (keyed d vip) r real now
  unfolding find_real old
  find_real-Kept run = elim (Option-cases old.real) [
    | inr (x, e) ↦ let is = rw e at run in hit (ap (λ (y : Found). y.real) (some_inj is) ∙ found) is
    | inl e ↦ elim (Option-cases (count_miss old.maps old.pckt)) [
      | inl f ↦
          let is = rw (e, f) at run in
          absurd (ground (arith, e, found, ap (λ (x : Found). x.real) (some_inj is)))
      | inr (n, f) ↦ elim (Option-cases (get_packet_dst k n old.pckt vip is_ipv6)) [
        | inl h ↦ absurd (ground (arith, run, e, f, h))
        | inr (g, h) ↦
            let is = rw (e, f, h) at run in counted-Kept g (from_ring n g f h) (some_inj is)
      ]
    ]
  ]
