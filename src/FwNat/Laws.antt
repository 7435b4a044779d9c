-- ===== src/FwNat/Laws.antt =====
-- What the address translation promises, and how it changes what the firewall sees.
use dram_pvt_mk.Base.{
  ℕ, ◌+◌, ◌*◌, ◌%◌, ◌≡◌, ◌≢◌, ◌↔◌, refl, sym, ap, ◌∙◌, arith, false, none, some, Option-cases,
  Bool-cases, inl, inr, IsBytes,
}
use dram_pvt_mk.Base.Table.{Table, or_return}
use dram_pvt_mk.Base.Update.{MapUpdate}
use dram_pvt_mk.Base.Bytes.{Packet, half_at}
use dram_pvt_mk.Base.Xdp.{xdp_drop, xdp_pass}
use dram_pvt_mk.Checksum.Laws.{plain_sum}
use dram_pvt_mk.FwNat.{NatMaps, not_ipv4, saddr, xdp_fw, translated, xdp_nat}
use dram_pvt_mk.FwNat.Translated.{saddr-translated, plain_sum-translated, not_ipv4-translated}

sum_shift :
    (s s' low high low' high' : ℕ)
    → s % 65535 ≡ 0
    → s' + low + high ≡ s + low' + high'
    → (s' % 65535 ≡ 0) ↔ ((low' + 65536 * high') % 65535 ≡ (low + 65536 * high) % 65535)
sum_shift s s' low high low' high' valid e = (λ c. omega arith, λ c. omega arith)

-- A run of the translation that passes.
record Passed (u : MapUpdate ℕ ℕ) (m : NatMaps) (p : Packet) : Type 0 where
  pub address : ℕ
  pub ip : not_ipv4 p ≡ false
  pub entry : (xdp_nat u m p).maps.outer2inner (saddr p) ≡ some address
  pub run : xdp_nat u m p ≡ translated (xdp_nat u m p).maps p address

xdp_nat-known :
    (u : MapUpdate ℕ ℕ) (m : NatMaps) (p : Packet) (a : ℕ)
    → not_ipv4 p ≡ false
    → m.outer2inner (saddr p) ≡ some a
    → xdp_nat u m p ≡ translated m p a
unfolding xdp_nat
xdp_nat-known u m p a ip e = rw ip (rw e refl)

xdp_nat-new :
    (u : MapUpdate ℕ ℕ) (m : NatMaps) (p : Packet) (o2i i2o : Table ℕ)
    → not_ipv4 p ≡ false
    → m.outer2inner (saddr p) ≡ none
    → u.update m.outer2inner (saddr p) 1 ≡ some o2i
    → u.update m.inner2outer 1 (saddr p) ≡ some i2o
    → xdp_nat u m p ≡ translated (record m { outer2inner = o2i; inner2outer = i2o }) p 1
unfolding xdp_nat
xdp_nat-new u m p o2i i2o ip e one two = rw ip (rw e (rw (one, two) refl))

translated-Passed :
    (u : MapUpdate ℕ ℕ) (m m' : NatMaps) (p : Packet) (a : ℕ)
    → not_ipv4 p ≡ false
    → m'.outer2inner (saddr p) ≡ some a
    → xdp_nat u m p ≡ translated m' p a
    → Passed u m p
unfolding translated
translated-Passed u m m' p a ip e run = record {
  address = a;
  ip = ip;
  entry = rw run e;
  run = rw run refl;
}

xdp_nat-Passed :
    (u : MapUpdate ℕ ℕ) (m : NatMaps) (p : Packet)
    → (xdp_nat u m p).verdict ≡ xdp_pass
    → Passed u m p
unfolding xdp_nat
xdp_nat-Passed u m p h = elim (Bool-cases (not_ipv4 p)) [
  | inl other ↦ absurd (ground (arith, h, other))
  | inr ip ↦ elim (Option-cases (m.outer2inner (saddr p))) [
    | inr (a, e) ↦ translated-Passed u m m p a ip e (xdp_nat-known u m p a ip e)
    | inl e ↦ elim (Option-cases (u.update m.outer2inner (saddr p) 1)) [
      | inl f ↦ absurd (ground (arith, h, ip, e, f))
      | inr (o2i, one) ↦ elim (Option-cases (u.update m.inner2outer 1 (saddr p))) [
        | inl f ↦ absurd (ground (arith, h, ip, e, one, f))
        | inr (i2o, two) ↦
            translated-Passed u m (record m { outer2inner = o2i; inner2outer = i2o }) p 1 ip
              (u.finds m.outer2inner o2i (saddr p) 1 one) (xdp_nat-new u m p o2i i2o ip e one two)
      ]
    ]
  ]
]

-- After a packet passed, a later packet of the same source, with room for the headers and the protocol
-- of IPv4, passes and gets the same translated source, with the maps unchanged.
pub xdp_nat-stable :
    (u : MapUpdate ℕ ℕ) (m : NatMaps) (p q : Packet)
    → (xdp_nat u m p).verdict ≡ xdp_pass
    → not_ipv4 q ≡ false
    → saddr q ≡ saddr p
    → let first = xdp_nat u m p in
      let second = xdp_nat u first.maps q in
      (second.maps ≡ first.maps)
      × (second.verdict ≡ xdp_pass)
      × (saddr second.packet ≡ saddr first.packet)
unfolding translated
xdp_nat-stable u m p q h ip same =
    let d = xdp_nat-Passed u m p h in
    let m' = (xdp_nat u m p).maps in
    let run = xdp_nat-known u m' q d.address ip (ap m'.outer2inner same ∙ d.entry) in
    (
      ap (λ r. r.maps) run,
      ap (λ r. r.verdict) run,
      ap (λ r. saddr r.packet) run
          ∙ saddr-translated m' q d.address ip
          ∙ sym (ap (λ r. saddr r.packet) d.run ∙ saddr-translated m' p d.address d.ip),
    )

-- A packet that passes, and whose header adds up to zero in one's-complement arithmetic, leaves with
-- a header that does so exactly when its new source address has the old one's remainder modulo
-- 65535: the checksum is not computed again.
pub xdp_nat-plain_sum :
    (u : MapUpdate ℕ ℕ) (m : NatMaps) (p : Packet)
    → IsBytes p
    → (xdp_nat u m p).verdict ≡ xdp_pass
    → plain_sum p 10 14 % 65535 ≡ 0
    → let out = (xdp_nat u m p).packet in
      (plain_sum out 10 14 % 65535 ≡ 0) ↔ (saddr out % 65535 ≡ saddr p % 65535)
xdp_nat-plain_sum u m p bytes h valid =
    let d = xdp_nat-Passed u m p h in
    let m' = (xdp_nat u m p).maps in
    let out = (translated m' p d.address).packet in
    rw (ap (λ r. r.packet) d.run) (
      sum_shift (plain_sum p 10 14) (plain_sum out 10 14) (half_at p 26) (half_at p 28)
        (half_at out 26) (half_at out 28) valid (plain_sum-translated m' p d.address d.ip bytes))

-- A run for a source that is not in `outer2inner`, which passes.
record New (u : MapUpdate ℕ ℕ) (m : NatMaps) (p : Packet) : Type 0 where
  pub source : saddr (xdp_nat u m p).packet ≡ 1
  pub entry : (xdp_nat u m p).maps.outer2inner (saddr p) ≡ some 1
  pub keeps : (j : ℕ) → saddr p ≢ j → (xdp_nat u m p).maps.outer2inner j ≡ m.outer2inner j
  pub back : (xdp_nat u m p).maps.inner2outer 1 ≡ some (saddr p)
  pub whitelist : (xdp_nat u m p).maps.whitelist_addresses ≡ m.whitelist_addresses

translated-New :
    (u : MapUpdate ℕ ℕ) (m : NatMaps) (p : Packet) (o2i i2o : Table ℕ)
    → not_ipv4 p ≡ false
    → u.update m.outer2inner (saddr p) 1 ≡ some o2i
    → u.update m.inner2outer 1 (saddr p) ≡ some i2o
    → xdp_nat u m p ≡ translated (record m { outer2inner = o2i; inner2outer = i2o }) p 1
    → New u m p
unfolding translated
translated-New u m p o2i i2o ip one two run =
    let m' = record m { outer2inner = o2i; inner2outer = i2o } in
    record {
      source = ap (λ r. saddr r.packet) run ∙ saddr-translated m' p 1 ip;
      entry = rw run (u.finds m.outer2inner o2i (saddr p) 1 one);
      keeps = λ j ne. rw run (u.keeps m.outer2inner o2i (saddr p) j 1 one ne);
      back = rw run (u.finds m.inner2outer i2o 1 (saddr p) two);
      whitelist = rw run refl;
    }

xdp_nat-New :
    (u : MapUpdate ℕ ℕ) (m : NatMaps) (p : Packet)
    → (xdp_nat u m p).verdict ≡ xdp_pass
    → m.outer2inner (saddr p) ≡ none
    → New u m p
unfolding xdp_nat
xdp_nat-New u m p h e = elim (Bool-cases (not_ipv4 p)) [
  | inl other ↦ absurd (ground (arith, h, other))
  | inr ip ↦ elim (Option-cases (u.update m.outer2inner (saddr p) 1)) [
    | inl f ↦ absurd (ground (arith, h, ip, e, f))
    | inr (o2i, one) ↦ elim (Option-cases (u.update m.inner2outer 1 (saddr p))) [
      | inl f ↦ absurd (ground (arith, h, ip, e, one, f))
      | inr (i2o, two) ↦
          translated-New u m p o2i i2o ip one two (xdp_nat-new u m p o2i i2o ip e one two)
    ]
  ]
]

-- Two new sources that pass one after the other share the one translated address: both are
-- translated to it, and `inner2outer` has the second source alone.
pub xdp_nat-shared :
    (u : MapUpdate ℕ ℕ) (m : NatMaps) (p q : Packet)
    → (xdp_nat u m p).verdict ≡ xdp_pass
    → let first = xdp_nat u m p in
      let second = xdp_nat u first.maps q in
      second.verdict ≡ xdp_pass
      → m.outer2inner (saddr p) ≡ none
      → m.outer2inner (saddr q) ≡ none
      → saddr p ≢ saddr q
      → (saddr first.packet ≡ 1)
        × (saddr second.packet ≡ 1)
        × (second.maps.outer2inner (saddr p) ≡ some 1)
        × (second.maps.outer2inner (saddr q) ≡ some 1)
        × (second.maps.inner2outer 1 ≡ some (saddr q))
xdp_nat-shared u m p q hp hq np nq ne =
    let m' = (xdp_nat u m p).maps in
    let one = xdp_nat-New u m p hp np in
    let two = xdp_nat-New u m' q hq (one.keeps (saddr q) ne ∙ nq) in
    (one.source, two.source, two.keeps (saddr p) (λ e. ne (sym e)) ∙ one.entry, two.entry, two.back)

-- Behind the translation the firewall looks the translated address up: a new source that the
-- translation passes is let through exactly when address 1 is in `whitelist_addresses`, whatever
-- that map says of the packet's own source.
pub xdp_nat-xdp_fw :
    (u : MapUpdate ℕ ℕ) (m : NatMaps) (p : Packet)
    → IsBytes p
    → (xdp_nat u m p).verdict ≡ xdp_pass
    → m.outer2inner (saddr p) ≡ none
    → let r = xdp_nat u m p in
      xdp_fw r.maps r.packet ≡ (or_return (m.whitelist_addresses 1) xdp_drop λ value. xdp_pass)
unfolding xdp_fw
xdp_nat-xdp_fw u m p bytes h new =
    let d = xdp_nat-Passed u m p h in
    let r = xdp_nat-New u m p h new in
    let ip =
      ap (λ t. not_ipv4 t.packet) d.run
      ∙ not_ipv4-translated (xdp_nat u m p).maps p d.address bytes d.ip in
    rw (ip, r.source, r.whitelist) refl
