-- ===== src/Forward.antt =====
-- A forwarder: examples/linux-samples-lifting-test/xdp_fwd_kernel.c. Its route lookup is commented
-- out, with `rc = 0` in its place: the fields of `fib_params` that the lookup would read are left
-- out, and the addresses that it would set are zeros.
pub mod Laws
use dram_pvt_mk.Base.{
  ℕ, ◌+◌, ◌%◌, ◌^◌, List, [], ◌∷◌, ◌==◌, ltb, leb, if◌then◌else◌, Option, length, swap16,
}
use dram_pvt_mk.Base.Table.{Table, or_return}
use dram_pvt_mk.Base.Bytes.{Packet, byte_at, half_at, write, le_bytes}
use dram_pvt_mk.Base.Xdp.{xdp_drop, xdp_pass, ethhdr_size}

pub record FwdRun : Type 0 where
  pub packet : Packet
  pub verdict : ℕ

-- The IP header begins at 14.
unfoldable pub ip_decrease_ttl : Packet → Packet
ip_decrease_ttl p =
    let check = half_at p 24 + swap16 0x0100 in
    let carry = if leb 0xFFFF check then 1 else 0 in
    write (write p 24 (le_bytes 2 ((check + carry) % 2 ^ 16))) 22
      (((byte_at p 22 + 255) % 256) ∷ [])

-- `ip6h->hop_limit--`
unfoldable pub decrease_hop_limit : Packet → Packet
decrease_hop_limit p = write p 21 (((byte_at p 21 + 255) % 256) ∷ [])

abbrev pub no_mac : List ℕ
no_mac = 0 ∷ 0 ∷ 0 ∷ 0 ∷ 0 ∷ 0 ∷ []

-- `xdp_tx_ports` is looked up with the port that the packet came in by; `q` is the packet with one hop
-- less.
unfoldable pub redirect : Table ℕ → ℕ → Packet → Packet → FwdRun
redirect xdp_tx_ports ifindex p q =
    or_return (xdp_tx_ports ifindex) (record { packet = p; verdict = xdp_pass })
      λ port. record { packet = write (write q 0 no_mac) 6 no_mac; verdict = 4 }

unfoldable pub xdp_fwd_flags : Table ℕ → ℕ → Packet → FwdRun
xdp_fwd_flags xdp_tx_ports ingress_ifindex p =
    let drop : FwdRun = record { packet = p; verdict = xdp_drop } in
    let pass : FwdRun = record { packet = p; verdict = xdp_pass } in
    if ltb (length p) ethhdr_size
    then drop
    else if half_at p 12 == swap16 0x0800
    then (if ltb (length p) 34
        then drop
        else if leb (byte_at p 22) 1
        then pass
        else redirect xdp_tx_ports ingress_ifindex p (ip_decrease_ttl p))
    else if half_at p 12 == swap16 0x86DD
    then (if ltb (length p) 54
        then drop
        else if leb (byte_at p 21) 1
        then pass
        else redirect xdp_tx_ports ingress_ifindex p (decrease_hop_limit p))
    else pass
