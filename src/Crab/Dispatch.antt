-- ===== src/Crab/Dispatch.antt =====
-- Which packets the load balancer touches, and where handling a SYN packet fails.
use dram_pvt_mk.Base.{
  ℕ, ◌+◌, ◌/◌, ◌%◌, ◌≢◌, ◌≤◌, ◌≡◌, ◌⊎◌, refl, arith, Bool-cases, Option-cases, length, inl, inr,
  Option, some, none, ltb-eq-false, true, ◌==◌, ==_iff,
}
use dram_pvt_mk.Base.Bytes.{Packet, byte_at, Returns, ◌>>=◌}
use dram_pvt_mk.Base.Xdp.{xdp_aborted, xdp_pass}
use dram_pvt_mk.Crab.{
  LbMaps, Header, Kernel, LbRun, get_target_idx_rr, get_target, update_macs, handle_syn, ack, syn,
  xdp_prog_simple,
}

-- The headers of a packet that the parsers take for the SYN of a new connection.
pub record NewConnection (k : Kernel) (p : Packet) (eth ip tcp : Header) : Type 0 where
  pub parsed_eth : k.parse_ethhdr p 0 ≡ some eth
  pub is_ip : eth.kind ≡ 8
  pub parsed_ip : k.parse_iphdr p eth.pos ≡ some ip
  pub is_tcp : ip.kind ≡ 6
  pub parsed_tcp : k.parse_tcphdr p ip.pos ≡ some tcp
  pub no_ack : byte_at p (tcp.start + 13) / 16 % 2 ≡ 0
  pub has_syn : byte_at p (tcp.start + 13) / 2 % 2 ≡ 1

-- The packet is of another kind: not Ethernet, not IPv4, not TCP, with ACK or without SYN.
abbrev pub IsPassed : Kernel → Packet → Type 0
IsPassed k p =
    (k.parse_ethhdr p 0 ≡ none)
    ⊎ ((eth : Header) × (k.parse_ethhdr p 0 ≡ some eth)
        × ((eth.kind ≢ 8)
            ⊎ (k.parse_iphdr p eth.pos ≡ none)
            ⊎ ((ip : Header) × (k.parse_iphdr p eth.pos ≡ some ip)
                × ((ip.kind ≢ 6)
                    ⊎ ((tcp : Header) × (k.parse_tcphdr p ip.pos ≡ some tcp)
                        × ((byte_at p (tcp.start + 13) / 16 % 2 ≡ 1)
                            ⊎ (byte_at p (tcp.start + 13) / 2 % 2 ≡ 0)))))))

-- An IPv4 packet of TCP whose TCP header does not fit.
abbrev pub IsCut : Kernel → Packet → Type 0
IsCut k p =
    (eth : Header) × (ip : Header) × (k.parse_ethhdr p 0 ≡ some eth)
    × (eth.kind ≡ 8)
    × (k.parse_iphdr p eth.pos ≡ some ip)
    × (ip.kind ≡ 6)
    × (k.parse_tcphdr p ip.pos ≡ none)

abbrev left : LbMaps → Packet → ℕ → Option LbRun
left m p v = some (record { maps = m; packet = p; verdict = v })

abbrev pub Dispatched : Kernel → LbMaps → Packet → Type 0
Dispatched k m p =
    let r = xdp_prog_simple k m p in
    (IsPassed k p × (r ≡ some (record { maps = m; packet = p; verdict = xdp_pass })))
    ⊎ (IsCut k p × (r ≡ some (record { maps = m; packet = p; verdict = xdp_aborted })))
    ⊎ ((eth : Header) × (ip : Header) × (tcp : Header) × NewConnection k p eth ip tcp
        × (r ≡ handle_syn k m p eth.start ip.start tcp.start))

module _ (k : Kernel) (m : LbMaps) (p : Packet) where
  flags-Dispatched :
      (eth ip tcp : Header)
      → k.parse_ethhdr p 0 ≡ some eth
      → (eth.kind == 8) ≡ true
      → k.parse_iphdr p eth.pos ≡ some ip
      → (ip.kind == 6) ≡ true
      → k.parse_tcphdr p ip.pos ≡ some tcp
      → Dispatched k m p
  flags-Dispatched eth ip tcp a b c d f =
      let passes : (byte_at p (tcp.start + 13) / 16 % 2 ≡ 1)
            ⊎ (byte_at p (tcp.start + 13) / 2 % 2 ≡ 0)
          → xdp_prog_simple k m p ≡ left m p xdp_pass
          → Dispatched k m p =
        λ why e. inl (inr (eth, a, inr (inr (ip, c, inr (tcp, f, why)))), e) in
      elim (Bool-cases (ack p tcp.start)) [
        | inl g ↦
            passes (inl ((==_iff _ 1).0 g)) (unfold xdp_prog_simple in rw (a, b, c, d, f, g) refl)
        | inr g ↦ elim (Bool-cases (syn p tcp.start)) [
          | inr h ↦
              passes (inr (ground (arith, h)))
                (unfold xdp_prog_simple in rw (a, b, c, d, f, g, h) refl)
          | inl h ↦
              let n : NewConnection k p eth ip tcp = record {
                parsed_eth = a;
                is_ip = (==_iff eth.kind 8).0 b;
                parsed_ip = c;
                is_tcp = (==_iff ip.kind 6).0 d;
                parsed_tcp = f;
                no_ack = ground (arith, g);
                has_syn = (==_iff _ 1).0 h;
              } in
              inr (inr (eth, ip, tcp, n, unfold xdp_prog_simple in rw (a, b, c, d, f, g, h) refl))
        ]
      ]

  ip-Dispatched :
      (eth : Header) → k.parse_ethhdr p 0 ≡ some eth → (eth.kind == 8) ≡ true → Dispatched k m p
  ip-Dispatched eth a b = elim (Option-cases (k.parse_iphdr p eth.pos)) [
    | inl c ↦ inl (inr (eth, a, inr (inl c)), unfold xdp_prog_simple in rw (a, b, c) refl)
    | inr (ip, c) ↦ elim (Bool-cases (ip.kind == 6)) [
      | inr d ↦
          let other : ip.kind ≢ 6 = λ same. ground (arith, same, d) in
          inl (
            inr (eth, a, inr (inr (ip, c, inl other))),
            unfold xdp_prog_simple in rw (a, b, c, d) refl,
          )
      | inl d ↦ elim (Option-cases (k.parse_tcphdr p ip.pos)) [
        | inl f ↦
            let ip_kind = (==_iff eth.kind 8).0 b in
            let tcp_kind = (==_iff ip.kind 6).0 d in
            inr (
              inl (
                (eth, ip, a, ip_kind, c, tcp_kind, f),
                unfold xdp_prog_simple in rw (a, b, c, d, f) refl,
              ))
        | inr (tcp, f) ↦ flags-Dispatched eth ip tcp a b c d f
      ]
    ]
  ]

  -- Every packet goes one of three ways, as the parsers find its headers. An IPv4 packet with a TCP
  -- header that has SYN set and ACK not set is handled by `handle_syn`, with the headers that were
  -- found. One of TCP whose header does not fit is left with XDP_ABORTED, and every other one with
  -- XDP_PASS, and then the packet and the maps are as they were.
  pub xdp_prog_simple-Dispatched : Dispatched k m p
  xdp_prog_simple-Dispatched = elim (Option-cases (k.parse_ethhdr p 0)) [
    | inl a ↦ inl (inl a, unfold xdp_prog_simple in rw a refl)
    | inr (eth, a) ↦ elim (Bool-cases (eth.kind == 8)) [
      | inr b ↦
          let other : eth.kind ≢ 8 = λ same. ground (arith, same, b) in
          inl (inr (eth, a, inl other), unfold xdp_prog_simple in rw (a, b) refl)
      | inl b ↦ ip-Dispatched eth a b
    ]
  ]

get_target-no_targets :
    (m : LbMaps) (rr : ℕ)
    → m.targets_count 0 ≡ some 0
    → m.cpu_rr_idx 0 ≡ some rr
    → get_target m ≡ none
unfolding get_target get_target_idx_rr
get_target-no_targets m rr count counter = rw (count, counter) refl

-- A SYN packet that grows to 34 bytes or more makes the program divide by zero while `targets_count`
-- holds 0, when the counter's entry is there.
pub handle_syn-no_targets :
    (k : Kernel) (m : LbMaps) (p q : Packet) (ethh iph tcph rr : ℕ)
    → k.adjust_head p 8 ≡ some q
    → 34 ≤ length q
    → m.targets_count 0 ≡ some 0
    → m.cpu_rr_idx 0 ≡ some rr
    → handle_syn k m p ethh iph tcph ≡ none
unfolding handle_syn
handle_syn-no_targets k m p q ethh iph tcph rr grown size count counter =
    let fault = get_target-no_targets m rr count counter in
    rw (grown, ltb-eq-false (length q) 14 (omega arith), ltb-eq-false (length q) 34 size, fault)
      refl

-- A packet of a new connection is dropped with XDP_ABORTED, and the choice of its target has moved the
-- counter on all the same, when the chosen target's entry or its hardware address is missing.
pub handle_syn-unknown :
    (k : Kernel) (m m' : LbMaps) (p q : Packet) (ethh iph tcph : ℕ) (chosen : Option ℕ)
    → k.adjust_head p 8 ≡ some q
    → 34 ≤ length q
    → get_target m ≡ some (m', chosen)
    → (chosen >>= m'.macs_map) ≡ none
    → Returns (λ r. (r.verdict ≡ xdp_aborted) × (r.maps ≡ m')) (handle_syn k m p ethh iph tcph)
unfolding handle_syn update_macs
handle_syn-unknown k m m' p q ethh iph tcph none grown size target missing =
    rw (grown, ltb-eq-false (length q) 14 (omega arith), ltb-eq-false (length q) 34 size, target)
      (refl, refl)
handle_syn-unknown k m m' p q ethh iph tcph (some daddr) grown size target missing =
    rw
      (
        grown,
        ltb-eq-false (length q) 14 (omega arith),
        ltb-eq-false (length q) 34 size,
        target,
        missing,
      )
      (refl, refl)
