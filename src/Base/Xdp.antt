-- ===== src/Base/Xdp.antt =====
-- Verdicts of an XDP or tc program, and the sizes and numbers of the packet headers.
use Prim.Native.Nat.{ℕ}

abbrev pub xdp_aborted : ℕ
xdp_aborted = 0

abbrev pub xdp_drop : ℕ
xdp_drop = 1

abbrev pub xdp_pass : ℕ
xdp_pass = 2

abbrev pub xdp_tx : ℕ
xdp_tx = 3

abbrev pub tc_act_ok : ℕ
tc_act_ok = 0

abbrev pub ethhdr_size : ℕ
ethhdr_size = 14

abbrev pub iphdr_size : ℕ
iphdr_size = 20

abbrev pub udphdr_size : ℕ
udphdr_size = 8

abbrev pub tcphdr_size : ℕ
tcphdr_size = 20

abbrev pub ipproto_tcp : ℕ
ipproto_tcp = 6

abbrev pub ipproto_udp : ℕ
ipproto_udp = 17
