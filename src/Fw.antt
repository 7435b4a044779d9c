-- ===== src/Fw.antt =====
-- The stateful firewall of examples/fw/xdp_fw_kern.h and xdp_fw_common.h: inside hosts open flows,
-- and packets from outside come in on open flows only.
--
-- `bpf_map_update_elem` is a parameter, which gives `none` when it fails.
pub mod Laws
use dram_pvt_mk.Base.{
  ℕ, Bool, not, ◌&&◌, ◌||◌, ◌==◌, ltb, if◌then◌else◌, Option, none, some, length,
}
use dram_pvt_mk.Base.Table.{or_return}
use dram_pvt_mk.Base.Bytes.{Packet, byte_at, half_at, word_at}
use dram_pvt_mk.Base.Xdp.{xdp_aborted, xdp_drop, ethhdr_size, ipproto_tcp, ipproto_udp}

abbrev pub a_port : ℕ
a_port = 6

abbrev pub b_port : ℕ
b_port = 7

pub record FlowKey : Type 0 where
  pub ip_proto : ℕ
  pub l4_src : ℕ
  pub l4_dst : ℕ
  pub ip_src : ℕ
  pub ip_dst : ℕ

pub record FlowLeaf : Type 0 where
  pub out_port : ℕ
  pub in_port : ℕ

abbrev pub FlowTable : Type 0
FlowTable = FlowKey → Option FlowLeaf

-- Addresses and ports are sorted, each for itself.
unfoldable pub biflow : FlowKey → FlowKey
biflow k =
    let k1 =
      if ltb k.ip_dst k.ip_src then (record k { ip_src = k.ip_dst; ip_dst = k.ip_src }) else k in
    if ltb k1.l4_dst k1.l4_src then (record k1 { l4_src = k1.l4_dst; l4_dst = k1.l4_src }) else k1

-- Whether the packet is left at a check on the way to the flow table.
unfoldable pub is_other : Packet → Bool
is_other p =
    ltb (length p) ethhdr_size
    || (not (half_at p 12 == 8)
        || (ltb (length p) 34
            || (not (byte_at p 23 == ipproto_tcp || byte_at p 23 == ipproto_udp)
                || ltb (length p) 42)))

abbrev pub flow_of : Packet → FlowKey
flow_of p = record {
  ip_proto = byte_at p 23;
  l4_src = half_at p 34;
  l4_dst = half_at p 36;
  ip_src = word_at p 26;
  ip_dst = word_at p 30;
}

-- The redirections are commented out in the source, which returns 0 for them.
unfoldable pub xdp_fw_prog :
    (FlowTable → FlowKey → FlowLeaf → Option FlowTable) → FlowTable → ℕ → Packet → FlowTable × ℕ
unfolding biflow is_other
xdp_fw_prog update table ingress p =
    let key = biflow (flow_of p) in
    if is_other p
    then (table, xdp_drop)
    else if ingress == b_port
    then or_return (table key) (table, xdp_drop) (λ leaf. (table, xdp_aborted))
    else elim (table key) [
      | some leaf ↦ (table, xdp_aborted)
      | none ↦
          or_return (update table key (record { out_port = a_port; in_port = b_port }))
            (table, xdp_aborted) (λ table'. (table', xdp_aborted))
    ]
