-- ===== src/Tests/Crab.antt =====
-- The load balancer with three targets, on the SYN packet of a new connection.
use dram_pvt_mk.Base.{
  ℕ, ◌+◌, ◌*◌, ◌/◌, ◌%◌, ◌<◌, ◌≡◌, refl, arith, List, [], ◌∷◌, ◌++◌, length, Option, none, some,
  ltb, if◌then◌else◌,
}
use dram_pvt_mk.Base.Table.{Table, store}
use dram_pvt_mk.Base.Bytes.{Packet, byte_at, half_at, Returns}
use dram_pvt_mk.Base.Xdp.{xdp_tx}
use dram_pvt_mk.Checksum.Laws.{plain_sum}
use dram_pvt_mk.Crab.{LbMaps, Header, Kernel, get_target_idx_rr, get_target, handle_syn}
use dram_pvt_mk.Crab.Balance.{nth_index, nth_index-each}
use dram_pvt_mk.Crab.Checksums.{CsumDiff, tcp_sum}
use dram_pvt_mk.Crab.Sent.{Redirected}
use dram_pvt_mk.Crab.Syn.{handle_syn-plain_sum, handle_syn-tcp_sum, handle_syn-Redirected}
use dram_pvt_mk.Tests.Adjust.{grow, zeros, grow-AdjustHead}
use dram_pvt_mk.Crab.Dispatch.{Dispatched, xdp_prog_simple-Dispatched}

add_words : Packet → ℕ → ℕ → ℕ → ℕ
add_words p off n seed = (plain_sum p (n / 2) off + seed) % 65535

add_words-CsumDiff : CsumDiff add_words
unfolding add_words
add_words-CsumDiff = record {
  sums = λ p off n seed room. let half : 4 * n / 2 ≡ 2 * n = omega arith in rw half (omega arith);
  bound = λ p off n seed. omega arith;
}

abbrev header : Packet → ℕ → ℕ → ℕ → Option Header
header p kind start size =
    if ltb (length p) (start + size)
    then none
    else some (record { kind = kind; start = start; pos = start + size })

abbrev kernel : Kernel
kernel = record {
  parse_ethhdr = λ p pos. header p (half_at p 12) pos 14;
  parse_iphdr = λ p pos. header p (byte_at p (pos + 9)) pos 20;
  parse_tcphdr = λ p pos. header p 0 pos 20;
  adjust_head = grow;
  csum_diff = add_words;
}

syn_packet : Packet
syn_packet = zeros 12 ++ (8 ∷ (zeros 10 ++ (6 ∷ (zeros 22 ++ (0x50 ∷ 2 ∷ zeros 6)))))

abbrev macs : List ℕ
macs = 1 ∷ 2 ∷ 3 ∷ 4 ∷ 5 ∷ 6 ∷ []

empty : Table ℕ
empty k = none

abbrev lb_maps : ℕ → LbMaps
lb_maps count = record {
  targets_map = λ k. some (7 + k);
  macs_map = λ k. some macs;
  targets_count = store empty 0 count;
  cpu_rr_idx = store empty 0 4;
}

abbrev next_maps : LbMaps
next_maps = record (lb_maps 3) { cpu_rr_idx = store (store empty 0 4) 0 5 }

nth_index-each_example :
    (n : ℕ) × (n < 3)
    × (nth_index n (lb_maps 3) ≡ some 2)
    × ((n' : ℕ) → n' < 3 → nth_index n' (lb_maps 3) ≡ some 2 → n' ≡ n)
nth_index-each_example = nth_index-each (lb_maps 3) 3 4 2 refl refl (omega arith) (omega arith)

handle_syn-plain_sum_example :
    Returns
      (λ r. (r.verdict ≡ xdp_tx) × (r.maps ≡ next_maps) × (plain_sum r.packet 10 14 % 65535 ≡ 0))
      (handle_syn kernel (lb_maps 3) syn_packet 0 14 34)
unfolding get_target get_target_idx_rr grow zeros syn_packet
handle_syn-plain_sum_example =
    handle_syn-plain_sum kernel grow-AdjustHead add_words-CsumDiff (lb_maps 3) next_maps syn_packet
      (zeros 8 ++ syn_packet) 0 14 34 8 macs refl (omega arith) (omega arith) (omega arith)
      (omega arith) refl refl refl

handle_syn-tcp_sum_example :
    Returns
      (λ r. (r.verdict ≡ xdp_tx) × (tcp_sum r.packet 0 % 65535 ≡ 0))
      (handle_syn kernel (lb_maps 3) syn_packet 0 14 34)
unfolding get_target get_target_idx_rr grow zeros syn_packet
handle_syn-tcp_sum_example =
    handle_syn-tcp_sum kernel grow-AdjustHead add_words-CsumDiff (lb_maps 3) next_maps syn_packet
      (zeros 8 ++ syn_packet) 0 14 34 8 macs refl (omega arith) (omega arith) (omega arith)
      (omega arith) refl refl refl 0 (omega arith) refl

handle_syn-Redirected_example :
    Returns
      (λ r. (r.verdict ≡ xdp_tx) × Redirected syn_packet r.packet 0 14 34 8 macs)
      (handle_syn kernel (lb_maps 3) syn_packet 0 14 34)
unfolding get_target get_target_idx_rr grow zeros syn_packet
handle_syn-Redirected_example =
    handle_syn-Redirected kernel grow-AdjustHead add_words-CsumDiff (lb_maps 3) next_maps syn_packet
      (zeros 8 ++ syn_packet) 0 14 34 8 macs refl (omega arith) (omega arith) (omega arith)
      (omega arith) refl refl refl

-- It is handled as a new connection: its run is that of handle_syn, with the headers of the parsers.
xdp_prog_simple-Dispatched_example : Dispatched kernel (lb_maps 3) syn_packet
xdp_prog_simple-Dispatched_example = xdp_prog_simple-Dispatched kernel (lb_maps 3) syn_packet

-- No target's hardware address is known.
abbrev no_macs : LbMaps
no_macs = record (lb_maps 3) { macs_map = λ k. none }
