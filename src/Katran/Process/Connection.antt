-- ===== src/Katran/Process/Connection.antt =====
-- The connections of examples/katran: a packet behind the first one of its connection.
use dram_pvt_mk.Base.{
  ℕ, ◌≤◌, ◌≡◌, ◌∙◌, refl, sym, ap, arith, inl, inr, Bool, true, false, not, ◌&&◌, some, Bool-cases,
}
use mathlib.Core.Path.{subst}
use dram_pvt_mk.Base.Bytes.{Returns}
use dram_pvt_mk.Katran.{
  FlowKey, PacketDescription, VipMeta, RealDefinition, BalancerMaps, BalancerKernel, has_flag,
  f_lru_bypass, f_hash_dport_only, f_hash_no_src_port, lru_udp_timeout, sub64,
}
use dram_pvt_mk.Katran.Route.{Found, is_under_flood}
use dram_pvt_mk.Katran.Route.Affinity.{LruFinds, Remembers, connection_table_lookup-real}
use dram_pvt_mk.Katran.Process.{keyed, known_real, find_real}
use dram_pvt_mk.Katran.Process.Affinity.{find_real-Kept}

keyed-flow :
    (d e : PacketDescription) (vip : VipMeta)
    → e.flow ≡ d.flow
    → ((keyed e vip).flow ≡ (keyed d vip).flow) × ((keyed e vip).syn_set ≡ e.syn_set)
keyed-flow d e vip same = elim (Bool-cases (has_flag vip.flags f_hash_no_src_port)) [
  | inl one ↦ rw one (ap (λ (f : FlowKey). record f { sport = 0 }) same, refl)
  | inr all ↦ rw all (same, refl)
]

known_real-remembered :
    (k : BalancerKernel) (m : BalancerMaps) (d : PacketDescription) (vip : VipMeta) (index : ℕ)
    → d.syn_set ≡ false
    → has_flag vip.flags f_lru_bypass ≡ false
    → Remembers m.lru_mapping d.flow index k.lookup_time
    → ((known_real k m d vip).real ≡ m.reals index)
      × ((known_real k m d vip).pckt.real_index ≡ index)
known_real-remembered k m d vip index old keep r =
    let h = connection_table_lookup-real k m d index r in
    let asked : (not d.syn_set && not (has_flag vip.flags f_lru_bypass)) ≡ true =
      ground (arith, old, keep) in
    rw asked (h.0, ap (λ (x : PacketDescription). x.real_index) h.1)

-- The connection table and the ring lead a connection to one real, whatever happens to the ring: after
-- a packet for which `find_real` found a real, `find_real` gives a later packet of the same flow
-- without SYN this real, when the connection table still has the flow's entry and the real is still
-- defined. For a service with F_QUIC_VIP a UDP packet's connection id is asked before, and nothing is
-- said of packets that it decides; for all others `find_real` alone decides. The first packet's
-- real came from the connection table or, with the rate of new connections within its bound, from
-- the ring; the service has neither F_LRU_BYPASS nor F_HASH_DPORT_ONLY; the second packet comes
-- within 30 seconds by the clock that the first one read, on which UDP depends; and a lookup in the
-- LRU map finds what was stored.
pub find_real-connection :
    (k k' : BalancerKernel) (m m' : BalancerMaps) (is_ipv6 : Bool) (d d' : PacketDescription)
    (vip : VipMeta) (r : Found) (real : RealDefinition)
    → LruFinds k.lru_update
    → has_flag vip.flags f_lru_bypass ≡ false
    → has_flag vip.flags f_hash_dport_only ≡ false
    → (is_under_flood m.stats k.rate_time).under_flood ≡ false
    → sub64 k'.lookup_time k.lookup_time ≤ lru_udp_timeout
    → sub64 k'.lookup_time k.rate_time ≤ lru_udp_timeout
    → find_real k m is_ipv6 d vip ≡ some r
    → r.real ≡ some real
    → d'.flow ≡ d.flow
    → d'.syn_set ≡ false
    → m'.lru_mapping (keyed d vip).flow ≡ r.maps.lru_mapping (keyed d vip).flow
    → m'.reals r.pckt.real_index ≡ m.reals r.pckt.real_index
    → Returns
        (λ s. (s.real ≡ some real) × (s.pckt.real_index ≡ r.pckt.real_index))
        (find_real k' m' is_ipv6 d' vip)
unfolding find_real
find_real-connection k k' m m' is_ipv6 d d' vip r real finds keep source calm soon soon' run found
      same old entry defined =
    let kept =
      find_real-Kept k m is_ipv6 d vip r real k'.lookup_time finds keep source calm soon soon' found
        run in
    let key = keyed-flow d d' vip same in
    let h = kept.remembers in
    let remembers : Remembers m'.lru_mapping (keyed d' vip).flow r.pckt.real_index k'.lookup_time =
      subst (λ f. Remembers m'.lru_mapping f r.pckt.real_index k'.lookup_time) (sym key.0)
        (record {
          entry = h.entry;
          found = entry ∙ h.found;
          index_of = h.index_of;
          fresh = h.fresh;
        }) in
    let known =
      known_real-remembered k' m' (keyed d' vip) vip r.pckt.real_index (key.1 ∙ old) keep
        remembers in
    let there = known.0 ∙ defined ∙ kept.real_of in rw there (there, known.1)
