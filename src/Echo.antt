-- ===== src/Echo.antt =====
-- Two programs that answer UDP packets with their own bytes: examples/ebpf_aas/xdp1.bpf.h.
pub mod Laws
use dram_pvt_mk.Base.{
  ℕ, ◌+◌, ◌*◌, ◌%◌, [], ◌∷◌, Bool, not, ◌||◌, ◌==◌, ltb, if◌then◌else◌, length, swap16,
}
use dram_pvt_mk.Base.Bytes.{Packet, byte_at, half_at, write, le_bytes}
use dram_pvt_mk.Base.Exchange.{exchange}
use dram_pvt_mk.Base.Xdp.{xdp_pass, xdp_tx, ethhdr_size, ipproto_udp}
use dram_pvt_mk.Checksum.{sum_halves, fold_once}

pub record EchoRun : Type 0 where
  pub packet : Packet
  pub verdict : ℕ

-- `ip` is where the header begins.
unfoldable pub ip_checksum : Packet → ℕ → ℕ
ip_checksum p ip = fold_once (sum_halves p 10 ip 0)

-- `data + sizeof(struct ethhdr) + (ip->ihl * 4)`
abbrev pub udph : Packet → ℕ
udph p = 14 + byte_at p 14 % 16 * 4

-- The packet is not answered: too short, no UDP, or another port.
unfoldable pub ignored : ℕ → Packet → Bool
ignored port p =
    ltb (length p) ethhdr_size
    || (ltb (length p) 34
        || (not (byte_at p 23 == ipproto_udp)
            || (ltb (length p) (udph p + 8) || not (swap16 (half_at p (udph p + 2)) == port))))

unfoldable pub answer : Packet → Packet
answer p =
    let q = exchange (exchange (exchange p 0 6) 26 4) (udph p) 2 in
    let z = write q 24 (le_bytes 2 0) in
    let c = write z 24 (le_bytes 2 (ip_checksum z 14)) in write c (udph p + 6) (le_bytes 2 0)

-- What the two programs share.
unfoldable pub udp_echo : ℕ → Packet → EchoRun
udp_echo port p =
    if ignored port p
    then record { packet = p; verdict = xdp_pass }
    else record { packet = answer p; verdict = xdp_tx }

abbrev pub udp_echo_prog_1 : Packet → EchoRun
udp_echo_prog_1 p = udp_echo 12345 p

abbrev pub udp_echo_prog_2 : Packet → EchoRun
udp_echo_prog_2 p = udp_echo 13245 p
