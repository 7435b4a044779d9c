-- ===== src/Tests/Katran.antt =====
-- The load balancer of examples/katran with one service and two reals.
use dram_pvt_mk.Base.{
  ℕ, ◌+◌, ◌*◌, ◌%◌, ◌^◌, ◌≡◌, ◌↔◌, refl, arith, inl, List, [], ◌∷◌, ◌++◌, true, false, none, some,
  ◌==◌, if◌then◌else◌,
}
use dram_pvt_mk.Base.Table.{Table, or_return}
use dram_pvt_mk.Base.Bytes.{byte_at, Packet, Returns, word_at, write}
use dram_pvt_mk.Base.Xdp.{xdp_tx}
use dram_pvt_mk.Katran.{
  FlowKey, same_flow, PacketDescription, VipDefinition, same_vip, VipMeta, RealDefinition, LbStats,
  RealPosLru, LruMap, BalancerMaps, BalancerKernel, BuildFlags, no_address, be_eth_p_ip,
}
use dram_pvt_mk.Hash.Jhash.{jhash_2words, jhash_final, final_line, rol32}
use dram_pvt_mk.Katran.Csum.{ipv4_csum_inline, sum_u16, csum_fold_helper, fold_step, CsumFoldStub}
use dram_pvt_mk.Katran.Csum.Laws.{IsFolded, csum_fold_helper-CsumFoldStub}
use dram_pvt_mk.Katran.Icmp.{send_icmp_reply}
use dram_pvt_mk.Katran.Icmp.Echo.{Answered, send_icmp_reply-Replied}
use dram_pvt_mk.Katran.Encap.{encap_v4, create_v4_hdr, decap, decrement_ttl}
use dram_pvt_mk.Katran.Inline.Laws.{Hopped}
use dram_pvt_mk.Katran.Inline.Roundtrip.{process_by, process_by-encap_by}
use dram_pvt_mk.Katran.Encap.Header.{Tunnelled, encap_v4-Tunnelled}
use dram_pvt_mk.Katran.Encap.Restore.{ipip_v4, encap_by}
use dram_pvt_mk.Katran.Route.{
  Found, is_under_flood, get_packet_hash, get_packet_dst, connection_table_lookup,
}
use dram_pvt_mk.Katran.Route.Affinity.{LruFinds, same_flow_self}
use dram_pvt_mk.Katran.Route.Flood.{admitted, is_under_flood-admitted}
use dram_pvt_mk.Katran.Process.{count_miss, find_real, balancer_ingress}
use dram_pvt_mk.Katran.Process.Connection.{find_real-connection}
use dram_pvt_mk.Katran.Process.Errors.{
  IsClient, client_flow, IsErrorFor, IsBalancedBy, process_packet-error,
}
use dram_pvt_mk.Katran.Process.Verdicts.{Outcome, balancer_ingress-Outcome}
use dram_pvt_mk.Katran.Spec.{spec, balancer_ingress-spec}
use dram_pvt_mk.Tests.Adjust.{
  grow, zeros, grow-AdjustHead, shrink, shrink-ShrinkHead, shrink-Succeeds,
}

abbrev lru_update : LruMap → FlowKey → RealPosLru → LruMap
lru_update t flow v g = if same_flow flow g then some v else t g

lru_update-LruFinds : LruFinds lru_update
lru_update-LruFinds t flow v = rw (same_flow_self flow) refl

abbrev kernel : BalancerKernel
kernel = record {
  grow_head = grow;
  shrink_head = shrink;
  shrink_tail = λ p n. none;
  csum_diff = λ p off n seed. seed;
  lru_update = lru_update;
  lookup_time = 5000;
  rate_time = 5000;
}

abbrev hardware : List ℕ
hardware = 2 ∷ 2 ∷ 2 ∷ 2 ∷ 2 ∷ 2 ∷ 7 ∷ 7 ∷ 7 ∷ 7 ∷ 7 ∷ 7 ∷ 8 ∷ 0 ∷ []

-- From 10.0.0.9 to 10.0.0.1, with the given protocol, and back.
abbrev ip_header : ℕ → List ℕ
ip_header proto =
    0x45 ∷ 0 ∷ 0 ∷ 40 ∷ 0 ∷ 0 ∷ 0 ∷ 0 ∷ 64 ∷ proto ∷ 0 ∷ 0 ∷ 10 ∷ 0 ∷ 0 ∷ 9 ∷ 10 ∷ 0 ∷ 0 ∷ 1 ∷ []

abbrev answer_header : ℕ → List ℕ
answer_header proto =
    0x45 ∷ 0 ∷ 0 ∷ 40 ∷ 0 ∷ 0 ∷ 0 ∷ 0 ∷ 64 ∷ proto ∷ 0 ∷ 0 ∷ 10 ∷ 0 ∷ 0 ∷ 1 ∷ 10 ∷ 0 ∷ 0 ∷ 9 ∷ []

abbrev tcp_header : List ℕ
tcp_header =
    31 ∷ 144 ∷ 0 ∷ 80 ∷ 0 ∷ 0 ∷ 0 ∷ 1 ∷ 0 ∷ 0 ∷ 0 ∷ 1 ∷ 80 ∷ 16 ∷ 1 ∷ 0 ∷ 0 ∷ 0 ∷ 0 ∷ 0 ∷ []

abbrev answer_tcp : List ℕ
answer_tcp =
    0 ∷ 80 ∷ 31 ∷ 144 ∷ 0 ∷ 0 ∷ 0 ∷ 1 ∷ 0 ∷ 0 ∷ 0 ∷ 1 ∷ 80 ∷ 16 ∷ 1 ∷ 0 ∷ 0 ∷ 0 ∷ 0 ∷ 0 ∷ []

abbrev client_packet : Packet
client_packet = hardware ++ (ip_header 6 ++ tcp_header)

abbrev error_packet : Packet
error_packet =
    hardware
    ++ (ip_header 1 ++ ((3 ∷ 3 ∷ 0 ∷ 0 ∷ 0 ∷ 0 ∷ 0 ∷ 0 ∷ []) ++ (answer_header 6 ++ answer_tcp)))

-- An echo request with two bytes of data.
abbrev echo_packet : Packet
echo_packet = hardware ++ (ip_header 1 ++ (8 ∷ 0 ∷ 1 ∷ 2 ∷ 0 ∷ 1 ∷ 0 ∷ 1 ∷ 5 ∷ 6 ∷ []))

abbrev service : VipDefinition
service =
    let a = no_address in record { vip = record a { w0 = 0x0100000a }; port = 0x5000; proto = 6 }

abbrev zero_stats : Table LbStats
zero_stats i = some (record { v1 = 0; v2 = 0 })

abbrev real_one : RealDefinition
real_one = let a = no_address in record { dst = record a { w0 = 0x0500000a }; flags = 0 }

abbrev router : List ℕ
router = 9 ∷ 9 ∷ 9 ∷ 9 ∷ 9 ∷ 9 ∷ []

-- Every place of the ring has the real 1.
abbrev maps : BalancerMaps
maps = record {
  vip_map = λ key. if same_vip service key then some (record { flags = 0; vip_num = 0 }) else none;
  lru_mapping = λ flow. none;
  ch_rings = λ key. some 1;
  reals = λ i. if i == 1 then some real_one else none;
  reals_stats = zero_stats;
  stats = zero_stats;
  quic_mapping = λ i. none;
  ctl_array = λ i. some router;
  pckt_srcs = λ i. none;
}

abbrev build : BuildFlags
build = record { icmp_toobig_generation = false; gue_encap = false }

abbrev vip : VipMeta
vip = record { flags = 0; vip_num = 7 }

abbrev client : PacketDescription
client = record {
  flow = client_flow client_packet;
  real_index = 0;
  icmp = false;
  syn_set = true;
  tos = 0;
}

program : Unit {0}
unfolding find_real connection_table_lookup count_miss get_packet_dst get_packet_hash jhash_2words
    jhash_final final_line rol32 is_under_flood
program = tt

first : Found
unfolding program
first =
    or_return (find_real kernel maps false client vip)
      (record { maps = maps; pckt = client; real = none; dropped = true }) λ r. r

first-run : find_real kernel maps false client vip ≡ some first
unfolding program first
first-run = refl

-- The second packet comes later, without SYN, and finds another ring.
abbrev second : PacketDescription
second = record client { syn_set = false; real_index = 4 }

abbrev later : BalancerKernel
later = record kernel { lookup_time = 9000; rate_time = 9500 }

later_maps : BalancerMaps
unfolding first
later_maps = let m = first.maps in record m { ch_rings = λ key. some 2; stats = λ i. none }

find_real-connection_example :
    Returns
      (λ s. (s.real ≡ some real_one) × (s.pckt.real_index ≡ 1))
      (find_real later later_maps false second vip)
unfolding program first later_maps
find_real-connection_example =
    find_real-connection kernel later maps later_maps false client second vip first real_one
      lru_update-LruFinds refl refl refl (omega arith) (omega arith) first-run refl refl refl refl
      refl

balancer_ingress-Outcome_example :
    Returns (Outcome maps client_packet) (balancer_ingress build kernel maps client_packet)
balancer_ingress-Outcome_example = balancer_ingress-Outcome build kernel maps client_packet

balancer_ingress-spec_example :
    Returns
      (λ r. (r.verdict ≡ xdp_tx) × (r.maps ≡ maps))
      (balancer_ingress build kernel maps echo_packet)
unfolding spec
balancer_ingress-spec_example =
    balancer_ingress-spec build kernel maps echo_packet xdp_tx (omega arith) refl refl

encap_v4-Tunnelled_example :
    let sent = encap_v4 kernel client_packet router client real_one 40 in
    (sent.moved ≡ true)
    × Tunnelled client_packet sent.packet router client real_one 40
    × (word_at sent.packet 26 % 2 ^ 16 ≡ 172 + 256 * 16)
unfolding grow
encap_v4-Tunnelled_example =
    encap_v4-Tunnelled kernel client_packet (zeros 20 ++ client_packet) router client real_one 40
      grow-AdjustHead refl (omega arith) (omega arith) (omega arith) refl (omega arith)

tunnel_program : Unit {0}
unfolding grow shrink encap_v4 create_v4_hdr ipv4_csum_inline sum_u16 csum_fold_helper fold_step
    write decap
tunnel_program = tt

is_under_flood-admitted_example : admitted zero_stats (1 ∷ 2 ∷ 3 ∷ []) ≡ 3
is_under_flood-admitted_example =
    is_under_flood-admitted (1 ∷ 2 ∷ 3 ∷ []) zero_stats (record { v1 = 0; v2 = 0 }) refl
      (omega arith) (omega arith)

csum_fold_helper-CsumFoldStub_example :
    ((0x1fffe + csum_fold_helper 0x1fffe) % 65535 ≡ 0) × (IsFolded 7 ↔ CsumFoldStub 7)
csum_fold_helper-CsumFoldStub_example = csum_fold_helper-CsumFoldStub 0x1fffe 7 (omega arith)

send_icmp_reply-Replied_example : Answered echo_packet 3 (send_icmp_reply echo_packet)
send_icmp_reply-Replied_example =
    send_icmp_reply-Replied echo_packet 3 (omega arith) (omega arith) refl

client_packet-IsClient : IsClient client_packet
client_packet-IsClient = record {
  size = omega arith;
  whole = record { no_options = refl; no_fragment = refl };
  carried = inl refl;
}

error_packet-IsErrorFor : IsErrorFor client_packet error_packet
error_packet-IsErrorFor = record {
  size = omega arith;
  whole = record { no_options = refl; no_fragment = refl };
  icmp = refl;
  unreachable = refl;
  no_options = refl;
  proto = refl;
  from_service = refl;
  to_client = refl;
  service_port = refl;
  client_port = refl;
}

process_packet-error_example :
    IsBalancedBy build kernel maps client_packet (client_flow client_packet)
    × IsBalancedBy build kernel maps error_packet (client_flow client_packet)
process_packet-error_example =
    process_packet-error build kernel maps client_packet error_packet client_packet-IsClient
      error_packet-IsErrorFor

process_by-encap_by_example :
    let sent = encap_by kernel maps client_packet router false client real_one 40 ipip_v4 in
    Returns
      (Hopped client_packet router be_eth_p_ip false false)
      (process_by kernel ipip_v4 sent.packet false)
unfolding tunnel_program
process_by-encap_by_example =
    process_by-encap_by kernel grow-AdjustHead shrink-ShrinkHead shrink-Succeeds maps client_packet
      router false client real_one 40 refl (omega arith) false ipip_v4 refl tt

-- The time to live that is left.
hop_left : byte_at (decrement_ttl client_packet 14 false).0 22 ≡ 63
unfolding decrement_ttl write
hop_left = refl
