-- ===== src/Tests/Kinds.antt =====
-- The router, the probe, the echo programs and the summaries on small inputs.
use dram_pvt_mk.Base.{ℕ, zero, suc, ◌≡◌, ◌↔◌, refl, arith, List, [], ◌∷◌, ◌++◌, none, some}
use dram_pvt_mk.Base.Table.{store}
use dram_pvt_mk.Base.Bytes.{Packet}
use dram_pvt_mk.Hash.Gather.{do_gather, GatherStub, GatherStubGen}
use dram_pvt_mk.Hash.Gather.Summary.{do_gather-GatherStub_iff}
use dram_pvt_mk.Hash.Synth.{
  main, real, returned, failed_p1, failed_p2, failed_p3, Callees, RoughStubs,
}
use dram_pvt_mk.Hash.Synth.Laws.{main-real}
use dram_pvt_mk.Router.{RouterMaps, DataRec}
use dram_pvt_mk.Router.Laws.{after, Balanced, after-Balanced}
use dram_pvt_mk.Forward.{xdp_fwd_flags, redirect}
use dram_pvt_mk.Forward.Laws.{Hop, xdp_fwd_flags-Hop}

abbrev zeros : ℕ → List ℕ
zeros zero = []
zeros (suc n) = 0 ∷ zeros n

do_gather-GatherStub_iff_example :
    (GatherStub 66 ↔ ((tbl : ℕ → ℕ) × (start : ℕ) × (do_gather 128 (λ k. some (tbl k)) start ≡ 66)))
    × (GatherStubGen 66 ↔ GatherStub 66)
do_gather-GatherStub_iff_example = do_gather-GatherStub_iff 127 66

abbrev request : List ℕ
request = b'R' ∷ b'E' ∷ b'Q' ∷ b'U' ∷ zeros 28

main-real_example :
    (main real request 2000 70000 ≡ returned)
    × ((c : Callees) × RoughStubs c × (main c request 2000 70000 ≡ failed_p1))
    × ((c : Callees) × RoughStubs c × (main c request 2000 70000 ≡ failed_p2))
    × ((c : Callees) × RoughStubs c × (main c request 2000 70000 ≡ failed_p3))
main-real_example = main-real request 2000 70000 refl

abbrev no_packets : DataRec
no_packets = record {
  processed = 0;
  dropped = 0;
  issue = 0;
  xdp_pass = 0;
  xdp_drop = 0;
  xdp_redirect = 0;
}

-- One address is known in full, and port 3 takes packets.
abbrev router_maps : RouterMaps
router_maps = record {
  lpm_map = λ n key. none;
  arp_table = λ k. none;
  exact_match = store (λ k. none) 7 (record { arp_mac = 1; arp_dst = 7; ifindex = 3; mac = 2 });
  redirect_map = λ to. 4;
}

-- An IPv4 packet to the address 7, and an ARP packet.
abbrev to_seven : Packet
to_seven = zeros 12 ++ (8 ∷ (zeros 17 ++ (7 ∷ zeros 3)))

abbrev arp_packet : Packet
arp_packet = zeros 12 ++ (8 ∷ 6 ∷ zeros 28)

after-Balanced_example :
    (r' : DataRec) × (after router_maps (some no_packets) (to_seven ∷ arp_packet ∷ []) ≡ some r')
    × Balanced r'
after-Balanced_example = after-Balanced router_maps no_packets (to_seven ∷ arp_packet ∷ []) refl

-- A header that announces two segments; the second one ends with the packet.
abbrev srv6_packet : Packet
srv6_packet =
    zeros 12
    ++ (0x86 ∷ 0xDD ∷ (zeros 6 ++ (43 ∷ (zeros 35 ++ (4 ∷ 1 ∷ 1 ∷ (zeros 3 ++ (5 ∷ zeros 31)))))))

-- A UDP packet to port 12345, 0x3039.
abbrev udp_packet : Packet
udp_packet =
    zeros 14 ++ (0x45 ∷ (zeros 8 ++ (17 ∷ (zeros 10 ++ (0x30 ∷ 0x40 ∷ 0x30 ∷ 0x39 ∷ zeros 4)))))

-- The packet to the address 7 with a time to live of 9.
abbrev living_packet : Packet
living_packet = zeros 12 ++ (8 ∷ (zeros 9 ++ (9 ∷ (zeros 7 ++ (7 ∷ zeros 3)))))

xdp_fwd_flags-Hop_example : Hop living_packet (xdp_fwd_flags (λ k. some 1) 2 living_packet).packet
unfolding xdp_fwd_flags redirect
xdp_fwd_flags-Hop_example = xdp_fwd_flags-Hop (λ k. some 1) 2 living_packet (omega arith) refl refl
