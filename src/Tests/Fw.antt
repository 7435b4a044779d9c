-- ===== src/Tests/Fw.antt =====
-- A UDP packet from inside, its answer, and a packet with the ports alone exchanged.
use dram_pvt_mk.Base.{
  ℕ, zero, suc, inr, ◌≡◌, refl, ap, sym, arith, List, [], ◌∷◌, ◌++◌, Bool, ◌&&◌, ◌==◌,
  if◌then◌else◌, Option, none, some, ==_self,
}
use dram_pvt_mk.Base.Bytes.{Packet}
use dram_pvt_mk.Base.Xdp.{xdp_drop}
use dram_pvt_mk.Fw.{FlowKey, FlowLeaf, FlowTable, b_port, xdp_fw_prog}
use dram_pvt_mk.Fw.Laws.{Updates, xdp_fw_prog-reverse}

abbrev zeros : ℕ → List ℕ
zeros zero = []
zeros (suc n) = 0 ∷ zeros n

-- A UDP packet of these addresses and ports, each below 256.
abbrev udp_packet : ℕ → ℕ → ℕ → ℕ → Packet
udp_packet s d sp dp =
    zeros 12
    ++ (8 ∷ (zeros 10 ++ (17 ∷ 0 ∷ 0 ∷ s ∷ 0 ∷ 0 ∷ 0 ∷ d ∷ 0 ∷ 0 ∷ 0 ∷ sp ∷ 0 ∷ dp ∷ 0 ∷ zeros 4)))

abbrev empty_table : FlowTable
empty_table k = none

abbrev same_flow : FlowKey → FlowKey → Bool
same_flow a b =
    a.ip_proto == b.ip_proto
    && (a.l4_src == b.l4_src
        && (a.l4_dst == b.l4_dst && (a.ip_src == b.ip_src && a.ip_dst == b.ip_dst)))

abbrev set_flow : FlowTable → FlowKey → FlowLeaf → FlowTable
set_flow t k l j = if same_flow k j then some l else t j

abbrev update : FlowTable → FlowKey → FlowLeaf → Option FlowTable
update t k l = some (set_flow t k l)

abbrev lookup : Option FlowTable → FlowKey → Option FlowLeaf
lookup none k = none
lookup (some t) k = t k

set_flow_self : (t : FlowTable) (k : FlowKey) (l : FlowLeaf) → set_flow t k l k ≡ some l
set_flow_self t k l =
    rw (==_self k.ip_proto, ==_self k.l4_src, ==_self k.l4_dst, ==_self k.ip_src, ==_self k.ip_dst)
      refl

update-Updates : Updates update
update-Updates t t' k l e = rw (ap (λ o. lookup o k) (sym e)) (set_flow_self t k l)

abbrev inner : Packet
inner = udp_packet 10 20 30 40

abbrev outer : Packet
outer = udp_packet 20 10 40 30

xdp_fw_prog-reverse_example :
    let t = (xdp_fw_prog update empty_table 6 inner).0 in
    (xdp_fw_prog update empty_table b_port outer ≡ (empty_table, xdp_drop))
    × (xdp_fw_prog update t b_port outer ≡ (t, 0))
xdp_fw_prog-reverse_example =
    xdp_fw_prog-reverse update update-Updates (λ t k l. (set_flow t k l, refl)) empty_table 6 inner
      outer (omega arith) (record { size = omega arith; ip = refl; transport = inr refl })
      (record { size = omega arith; ip = refl; transport = inr refl })
      (record { protocol = refl; source = refl; dest = refl; source_port = refl; dest_port = refl })
      refl
