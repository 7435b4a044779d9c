-- ===== src/Fw/Laws.antt =====
-- Which packets from outside the firewall tells from the others.
use dram_pvt_mk.Base.{
  ℕ, ◌≡◌, ◌≢◌, refl, sym, ap, ◌∙◌, arith, false, ◌==◌, ltb, if◌then◌else◌, Option, none, some,
  length, ltb-eq-false, ◌⊎◌, ◌≤◌, Option-cases, Bool-cases, inl, inr,
}
use dram_pvt_mk.Base.Bytes.{Packet, byte_at, half_at, word_at}
use dram_pvt_mk.Base.Xdp.{xdp_drop}
use dram_pvt_mk.Fw.{
  a_port, b_port, FlowKey, FlowLeaf, FlowTable, biflow, is_other, flow_of, xdp_fw_prog,
}

-- The flow of an answer.
abbrev pub reverse : FlowKey → FlowKey
reverse k = record {
  ip_proto = k.ip_proto;
  l4_src = k.l4_dst;
  l4_dst = k.l4_src;
  ip_src = k.ip_dst;
  ip_dst = k.ip_src;
}

sorted_low : ℕ → ℕ → ℕ
sorted_low a b = if ltb b a then b else a

sorted_high : ℕ → ℕ → ℕ
sorted_high a b = if ltb b a then a else b

sorted_low_comm : (a b : ℕ) → sorted_low a b ≡ sorted_low b a
unfolding sorted_low
sorted_low_comm a b = ground arith

sorted_high_comm : (a b : ℕ) → sorted_high a b ≡ sorted_high b a
unfolding sorted_high
sorted_high_comm a b = ground arith

sorted : FlowKey → FlowKey
sorted k = record {
  ip_proto = k.ip_proto;
  l4_src = sorted_low k.l4_src k.l4_dst;
  l4_dst = sorted_high k.l4_src k.l4_dst;
  ip_src = sorted_low k.ip_src k.ip_dst;
  ip_dst = sorted_high k.ip_src k.ip_dst;
}

biflow-eq-sorted : (k : FlowKey) → biflow k ≡ sorted k
unfolding biflow sorted sorted_low sorted_high
biflow-eq-sorted k = elim (Bool-cases (ltb k.ip_dst k.ip_src)) [
  | inl a ↦
      rw a (elim (Bool-cases (ltb k.l4_dst k.l4_src)) [ inl b ↦ rw b refl | inr b ↦ rw b refl ])
  | inr a ↦
      rw a (elim (Bool-cases (ltb k.l4_dst k.l4_src)) [ inl b ↦ rw b refl | inr b ↦ rw b refl ])
]

biflow-reverse : (k : FlowKey) → biflow (reverse k) ≡ biflow k
unfolding sorted
biflow-reverse k =
    biflow-eq-sorted (reverse k)
    ∙ rw
        (
          sorted_low_comm k.l4_dst k.l4_src,
          sorted_high_comm k.l4_dst k.l4_src,
          sorted_low_comm k.ip_dst k.ip_src,
          sorted_high_comm k.ip_dst k.ip_src,
        )
        refl
    ∙ sym (biflow-eq-sorted k)

-- The flow with its ports alone exchanged.
abbrev pub cross : FlowKey → FlowKey
cross k = record k { l4_src = k.l4_dst; l4_dst = k.l4_src }

biflow-cross : (k : FlowKey) → biflow (cross k) ≡ biflow k
unfolding sorted
biflow-cross k =
    biflow-eq-sorted (cross k)
    ∙ rw (sorted_low_comm k.l4_dst k.l4_src, sorted_high_comm k.l4_dst k.l4_src) refl
    ∙ sym (biflow-eq-sorted k)

abbrev pub new_flow : FlowLeaf
new_flow = record { out_port = a_port; in_port = b_port }

-- What is relied on of `bpf_map_update_elem`: when it succeeds, a lookup of the key finds the value.
abbrev pub Updates : (FlowTable → FlowKey → FlowLeaf → Option FlowTable) → Type 0
Updates update =
    (t t' : FlowTable) (k : FlowKey) (l : FlowLeaf) → update t k l ≡ some t' → t' k ≡ some l

-- An IPv4 packet with a TCP or UDP header.
pub record IsTraffic (p : Packet) : Type 0 where
  pub size : 42 ≤ length p
  pub ip : half_at p 12 ≡ 8
  pub transport : (byte_at p 23 ≡ 6) ⊎ (byte_at p 23 ≡ 17)

-- `q` answers `p`: its protocol is the same, its addresses and ports are exchanged.
pub record IsAnswer (p q : Packet) : Type 0 where
  pub protocol : byte_at q 23 ≡ byte_at p 23
  pub source : word_at q 26 ≡ word_at p 30
  pub dest : word_at q 30 ≡ word_at p 26
  pub source_port : half_at q 34 ≡ half_at p 36
  pub dest_port : half_at q 36 ≡ half_at p 34

traffic-is_other : (p : Packet) → IsTraffic p → is_other p ≡ false
unfolding is_other
traffic-is_other p t =
    let size = t.size in
    let l14 = ltb-eq-false (length p) 14 (omega arith) in
    let l34 = ltb-eq-false (length p) 34 (omega arith) in
    let l42 = ltb-eq-false (length p) 42 size in
    elim t.transport [
      | inl tcp ↦ rw (l14, l34, l42, t.ip, tcp) refl
      | inr udp ↦ rw (l14, l34, l42, t.ip, udp) refl
    ]

answer-flow_of : (p q : Packet) → IsAnswer p q → flow_of q ≡ reverse (flow_of p)
answer-flow_of p q a = rw (a.protocol, a.source, a.dest, a.source_port, a.dest_port) refl

module _ (update : FlowTable → FlowKey → FlowLeaf → Option FlowTable) (updates : Updates update)
    (succeeds : (t : FlowTable) (k : FlowKey) (l : FlowLeaf)
      → (t' : FlowTable) × (update t k l ≡ some t'))
    (table : FlowTable) (ingress : ℕ) (p q : Packet) (inside : ingress ≢ b_port)
    (p_flow : is_other p ≡ false) (q_flow : is_other q ≡ false) where
  is_inside : (ingress == 7) ≡ false
  is_inside = ground arith

  -- The table after a packet from inside.
  open_flow :
      (leaf : FlowLeaf) × ((xdp_fw_prog update table ingress p).0 (biflow (flow_of p)) ≡ some leaf)
  unfolding xdp_fw_prog
  open_flow = elim (Option-cases (table (biflow (flow_of p)))) [
    | inl e ↦
        let (room, opens) = succeeds table (biflow (flow_of p)) new_flow in
        rw (p_flow, is_inside) (rw (e, opens) (new_flow, updates table room _ new_flow opens))
    | inr (leaf, e) ↦ rw (p_flow, is_inside) (rw e (leaf, e))
  ]

  pub let_in :
      biflow (flow_of q) ≡ biflow (flow_of p)
      → let t = (xdp_fw_prog update table ingress p).0 in xdp_fw_prog update t b_port q ≡ (t, 0)
  let_in same =
      let t = (xdp_fw_prog update table ingress p).0 in
      let e = open_flow.1 in unfold xdp_fw_prog in rw q_flow (rw same (rw e refl))

  closed_lem :
      (t : FlowTable)
      → t (biflow (flow_of q)) ≡ none
      → xdp_fw_prog update t b_port q ≡ (t, xdp_drop)
  unfolding xdp_fw_prog
  closed_lem t e = rw q_flow (rw e refl)

-- A packet from inside opens its flow for the answer: a TCP or UDP packet that comes from outside gets
-- XDP_DROP while the table has no entry for its flow, and the same packet gets 0, with the table
-- unchanged, after a TCP or UDP packet from inside that it answers, with the addresses and the ports
-- exchanged. 0 is what the program has in place of the redirection to the inside, which is commented
-- out. This needs that `bpf_map_update_elem` succeeds and that a lookup finds what it stored.
pub xdp_fw_prog-reverse :
    (update : FlowTable → FlowKey → FlowLeaf → Option FlowTable)
    → Updates update
    → ((t : FlowTable) (k : FlowKey) (l : FlowLeaf) → (t' : FlowTable) × (update t k l ≡ some t'))
    → (table : FlowTable) (ingress : ℕ) (p q : Packet) → ingress ≢ b_port
    → IsTraffic p
    → IsTraffic q
    → IsAnswer p q
    → table (biflow (flow_of q)) ≡ none
    → let t = (xdp_fw_prog update table ingress p).0 in
      (xdp_fw_prog update table b_port q ≡ (table, xdp_drop))
      × (xdp_fw_prog update t b_port q ≡ (t, 0))
xdp_fw_prog-reverse update updates succeeds table ingress p q inside tp tq a unknown =
    let p_flow = traffic-is_other p tp in
    let q_flow = traffic-is_other q tq in
    (
      closed_lem update updates succeeds table ingress p q inside p_flow q_flow table unknown,
      let_in update updates succeeds table ingress p q inside p_flow q_flow
          (ap biflow (answer-flow_of p q a) ∙ biflow-reverse (flow_of p)),
    )

-- After a packet from inside, a packet from outside that has its addresses unreversed, and its ports
-- exchanged, gets 0 too, though it answers no packet.
pub xdp_fw_prog-cross :
    (update : FlowTable → FlowKey → FlowLeaf → Option FlowTable)
    → Updates update
    → ((t : FlowTable) (k : FlowKey) (l : FlowLeaf) → (t' : FlowTable) × (update t k l ≡ some t'))
    → (table : FlowTable) (ingress : ℕ) (p q : Packet) → ingress ≢ b_port
    → IsTraffic p
    → IsTraffic q
    → flow_of q ≡ cross (flow_of p)
    → let t = (xdp_fw_prog update table ingress p).0 in xdp_fw_prog update t b_port q ≡ (t, 0)
xdp_fw_prog-cross update updates succeeds table ingress p q inside tp tq e =
    let_in update updates succeeds table ingress p q inside (traffic-is_other p tp)
      (traffic-is_other q tq) (ap biflow e ∙ biflow-cross (flow_of p))
