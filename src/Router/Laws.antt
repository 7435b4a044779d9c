-- ===== src/Router/Laws.antt =====
-- The router's counters, and what it changes in a packet.
use dram_pvt_mk.Base.{
  ℕ, ◌+◌, ◌%◌, ◌^◌, ◌≤◌, ◌≡◌, ◌⊎◌, refl, ap, ◌∙◌, arith, List, [], ◌∷◌, ◌==◌, ltb, if◌then◌else◌,
  Option, some, length, swap16, inl, inr, Bool-cases, Option-cases, ==_iff,
}
use dram_pvt_mk.Base.Bytes.{Packet, byte_at, word_at, write, le_bytes, byte_at-write_above}
use dram_pvt_mk.Base.Xdp.{xdp_drop, xdp_pass}
use dram_pvt_mk.Router.{
  RouterMaps, DataRec, RouterRun, xdp_redirect_verdict, count, count_processed, count_pass,
  count_drop, count_redirect, find_proto, Route, to_drop, to_kernel, forward, find_route, drop,
  pass, send, xdp_router_ipv4_prog,
}

-- The record after a packet with this verdict.
abbrev pub counted : ℕ → DataRec → DataRec
counted v r =
    if v == xdp_pass then count_pass r else if v == xdp_drop then count_drop r else count_redirect r

-- The verdict is one of three, and the record counts it.
pub record Counted (rec : Option DataRec) (r : RouterRun) : Type 0 where
  pub verdict : (r.verdict ≡ xdp_drop) ⊎ (r.verdict ≡ xdp_pass) ⊎ (r.verdict ≡ xdp_redirect_verdict)
  pub rx_cnt : r.rx_cnt ≡ count (counted r.verdict) rec

drop-Counted : (rec : Option DataRec) (p : Packet) → Counted rec (drop rec p)
drop-Counted rec p = record { verdict = inl refl; rx_cnt = refl }

pass-Counted : (rec : Option DataRec) (p : Packet) → Counted rec (pass rec p)
pass-Counted rec p = record { verdict = inr (inl refl); rx_cnt = refl }

send-Counted :
    (m : RouterMaps) (rec : Option DataRec) (p : Packet) (route : Route)
    → Counted rec (send m rec p route)
unfolding send
send-Counted m rec p to_drop = drop-Counted rec p
send-Counted m rec p to_kernel = pass-Counted rec p
send-Counted m rec p (forward s d to) = elim (Bool-cases (m.redirect_map to == 4)) [
  | inl e ↦
      let four = (==_iff (m.redirect_map to) 4).0 e in
      rw (e, four) (record { verdict = inr (inr refl); rx_cnt = refl })
  | inr e ↦ rw e (drop-Counted rec _)
]

-- The ways in which the program ends.
prog_ends :
    (P : RouterRun → Type 0) (m : RouterMaps) (rx_cnt : Option DataRec) (p : Packet)
    → P (drop (count count_processed rx_cnt) p)
    → P (pass (count count_processed rx_cnt) p)
    → ((route : Route) → P (send m (count count_processed rx_cnt) p route))
    → P (xdp_router_ipv4_prog m rx_cnt p)
unfolding xdp_router_ipv4_prog
prog_ends P m rx_cnt p dropped passed sent = elim (Option-cases (find_proto p)) [
  | inl e ↦ rw e dropped
  | inr ((proto, off), e) ↦ rw e (elim (Bool-cases (swap16 proto == 0x0806)) [
    | inl arp ↦ rw arp passed
    | inr a ↦ rw a (elim (Bool-cases (swap16 proto == 0x0800)) [
      | inr other ↦ rw other dropped
      | inl ip ↦ rw ip (elim (Bool-cases (ltb (length p) (off + 20))) [
        | inl short ↦ rw short dropped
        | inr long ↦ rw long (sent (find_route m (word_at p (off + 16))))
      ])
    ])
  ])
]

-- Every packet is dropped, passed or redirected, and the record, where there is one, counts it as
-- processed and counts that verdict alone.
pub xdp_router_ipv4_prog-Counted :
    (m : RouterMaps) (rx_cnt : Option DataRec) (p : Packet)
    → Counted (count count_processed rx_cnt) (xdp_router_ipv4_prog m rx_cnt p)
xdp_router_ipv4_prog-Counted m rx_cnt p =
    let rec = count count_processed rx_cnt in
    prog_ends (λ r. Counted rec r) m rx_cnt p (drop-Counted rec p) (pass-Counted rec p)
      (send-Counted m rec p)

-- The record after the packets, one after the other.
abbrev pub after : RouterMaps → Option DataRec → List Packet → Option DataRec
after m rx_cnt [] = rx_cnt
after m rx_cnt (p ∷ ps) = after m (xdp_router_ipv4_prog m rx_cnt p).rx_cnt ps

-- The verdicts add up to the packets, in 64 bits.
abbrev pub Balanced : DataRec → Type 0
Balanced r = (r.xdp_pass + r.xdp_drop + r.xdp_redirect) % 2 ^ 64 ≡ r.processed % 2 ^ 64

counted-Balanced : (v : ℕ) (r : DataRec) → Balanced r → Balanced (counted v (count_processed r))
counted-Balanced v r h = elim (Bool-cases (v == xdp_pass)) [
  | inl a ↦ rw a (omega arith)
  | inr a ↦ rw a (elim (Bool-cases (v == xdp_drop)) [
    | inl b ↦ rw b (omega arith)
    | inr b ↦ rw b (omega arith)
  ])
]

-- From a record whose verdicts add up to its packets in 64 bits, as one of zeros does, any packets lead
-- to a record that does so too.
pub after-Balanced :
    (m : RouterMaps) (r : DataRec) (ps : List Packet)
    → Balanced r
    → (r' : DataRec) × (after m (some r) ps ≡ some r') × Balanced r'
after-Balanced m r [] h = (r, refl, h)
after-Balanced m r (p ∷ ps) h =
    let run = xdp_router_ipv4_prog m (some r) p in
    let next = counted run.verdict (count_processed r) in
    let rest = after-Balanced m next ps (counted-Balanced run.verdict r h) in
    (
      rest.0,
      ap (λ c. after m c ps) (xdp_router_ipv4_prog-Counted m (some r) p).rx_cnt ∙ rest.1,
      rest.2,
    )

-- The packet with its two hardware addresses replaced.
abbrev pub readdressed : Packet → ℕ → ℕ → Packet
readdressed p dest src = write (write p 0 (le_bytes 6 dest)) 6 (le_bytes 6 src)

-- What a run leaves of the packet.
pub record Kept (p : Packet) (r : RouterRun) : Type 0 where
  pub passed : r.verdict ≡ xdp_pass → r.packet ≡ p
  pub redirected :
      r.verdict ≡ xdp_redirect_verdict
      → (dest : ℕ) × (src : ℕ) × (r.packet ≡ readdressed p dest src)
  pub rest : (i : ℕ) → 12 ≤ i → byte_at r.packet i ≡ byte_at p i

readdressed-above :
    (p : Packet) (dest src i : ℕ) → 12 ≤ i → byte_at (readdressed p dest src) i ≡ byte_at p i
readdressed-above p dest src i h =
    byte_at-write_above (write p 0 (le_bytes 6 dest)) 6 (le_bytes 6 src) i h
    ∙ byte_at-write_above p 0 (le_bytes 6 dest) i (omega arith)

send-Kept :
    (m : RouterMaps) (rec : Option DataRec) (p : Packet) (route : Route)
    → Kept p (send m rec p route)
unfolding send
send-Kept m rec p to_drop = record {
  passed = λ e. absurd (omega (arith, e));
  redirected = λ e. absurd (omega (arith, e));
  rest = λ i h. refl;
}
send-Kept m rec p to_kernel = record {
  passed = λ e. refl;
  redirected = λ e. absurd (omega (arith, e));
  rest = λ i h. refl;
}
send-Kept m rec p (forward s d to) = elim (Bool-cases (m.redirect_map to == 4)) [
  | inl e ↦
      let four = (==_iff (m.redirect_map to) 4).0 e in
      rw (e, four)
        (record {
          passed = λ v. absurd (omega (arith, v));
          redirected = λ v. (d, s, refl);
          rest = λ i h. readdressed-above p d s i h;
        })
  | inr e ↦ rw e (record {
    passed = λ v. absurd (omega (arith, v));
    redirected = λ v. absurd (omega (arith, v));
    rest = λ i h. readdressed-above p d s i h;
  })
]

-- A packet that is passed is as it came, one that is redirected is changed in its two hardware addresses
-- alone, and every packet keeps its bytes from index 12 on.
pub xdp_router_ipv4_prog-Kept :
    (m : RouterMaps) (rx_cnt : Option DataRec) (p : Packet)
    → Kept p (xdp_router_ipv4_prog m rx_cnt p)
unfolding send
xdp_router_ipv4_prog-Kept m rx_cnt p =
    let rec = count count_processed rx_cnt in
    prog_ends (λ r. Kept p r) m rx_cnt p (send-Kept m rec p to_drop) (send-Kept m rec p to_kernel)
      (send-Kept m rec p)
