-- ===== src/Tunnel.antt =====
-- A tunnel: examples/linux-samples-lifting-test/xdp_tx_iptunnel.c. Its call of
-- `bpf_xdp_adjust_head` is commented out, so that the packet does not grow.
pub mod Laws
pub mod Sent
use dram_pvt_mk.Base.{
  ℕ, ◌+◌, ◌%◌, ◌^◌, List, ◌==◌, ltb, if◌then◌else◌, Option, none, some, length, swap16, u16,
}
use dram_pvt_mk.Base.Table.{or_return}
use dram_pvt_mk.Base.Bytes.{Packet, byte_at, half_at, word_at, bytes_from, write, le_bytes}
use dram_pvt_mk.Base.Xdp.{
  xdp_drop, xdp_pass, xdp_tx, ethhdr_size, iphdr_size, ipproto_tcp, ipproto_udp,
}
use dram_pvt_mk.Checksum.{sum_halves, fold_once}
use dram_pvt_mk.Checksum.Header.{write_header}

-- Of a `union` the member `v4` is kept, which is all that the program uses; the other words of a key
-- are 0.
pub record Vip : Type 0 where
  pub daddr : ℕ
  pub dport : ℕ
  pub family : ℕ
  pub protocol : ℕ

pub record IptnlInfo : Type 0 where
  pub saddr : ℕ
  pub daddr : ℕ
  pub family : ℕ
  pub dmac : List ℕ

-- `vip2tnl`
abbrev pub TunnelMap : Type 0
TunnelMap = Vip → Option IptnlInfo

pub record TunnelRun : Type 0 where
  pub packet : Packet
  pub verdict : ℕ

abbrev pub af_inet : ℕ
af_inet = 2

abbrev pub ipproto_ipip : ℕ
ipproto_ipip = 4

abbrev pub eth_p_ip : ℕ
eth_p_ip = 0x0800

-- `none` is the result -1.
unfoldable pub get_dport : Packet → ℕ → ℕ → Option ℕ
get_dport p trans_data protocol =
    if protocol == ipproto_tcp
    then (if ltb (length p) (trans_data + 20) then none else some (half_at p (trans_data + 2)))
    else if protocol == ipproto_udp
    then (if ltb (length p) (trans_data + 8) then none else some (half_at p (trans_data + 2)))
    else some 0

-- The new header is in front, the old one at `old_eth`.
unfoldable pub set_ethhdr : Packet → ℕ → List ℕ → ℕ → Packet
set_ethhdr p old_eth dmac h_proto =
    let a = write p 6 (bytes_from p old_eth 6) in write (write a 0 dmac) 12 (le_bytes 2 h_proto)

-- `vip`
unfoldable pub vip_of : Packet → ℕ → Vip
vip_of p dport = record {
  daddr = word_at p 30;
  dport = dport;
  family = af_inet;
  protocol = byte_at p 23;
}

-- The lines from `new_eth = data` on, where the packet is long enough.
unfoldable pub encapsulate : Packet → IptnlInfo → ℕ → Packet
encapsulate p tnl payload_len =
    let e = set_ethhdr p iphdr_size tnl.dmac (swap16 eth_p_ip) in
    let h =
      write_header e ethhdr_size 0 (swap16 (u16 (payload_len + 20))) 8 ipproto_ipip tnl.saddr
        tnl.daddr in
    write h 24 (le_bytes 2 (fold_once (sum_halves h 10 ethhdr_size 0)))

unfoldable pub handle_ipv4 : TunnelMap → Packet → TunnelRun
handle_ipv4 vip2tnl p =
    let drop : TunnelRun = record { packet = p; verdict = xdp_drop } in
    let pass : TunnelRun = record { packet = p; verdict = xdp_pass } in
    if ltb (length p) 34
    then drop
    else or_return (get_dport p 34 (byte_at p 23)) drop λ dport.
      or_return (vip2tnl (vip_of p dport)) pass λ tnl.
        if tnl.family == af_inet
        then (if ltb (length p) 34
            then drop
            else record { packet = encapsulate p tnl (swap16 (half_at p 16)); verdict = xdp_tx })
        else pass

unfoldable pub xdp_tx_iptunnel : TunnelMap → Packet → TunnelRun
xdp_tx_iptunnel vip2tnl p =
    if ltb (length p) ethhdr_size
    then record { packet = p; verdict = xdp_drop }
    else if half_at p 12 == swap16 eth_p_ip
    then handle_ipv4 vip2tnl p
    else record { packet = p; verdict = xdp_pass }
