-- ===== src/Lib.antt =====
-- Packet programs of this repository and the function summaries that its symbolic execution uses.
--
-- The repository verifies eBPF programs (examples/) by symbolic execution. Modelled here are some
-- of these programs, and hash routines together with the summaries (stubs) that replace them.
--
-- Base holds what the parts share: C arithmetic with its wrap-around (Base/Words), arrays as
-- lists (Base/Lists), bit operations (Base/Bits), BPF maps as functions from a key to an optional
-- value (Base/Table) and updates of maps (Base/Update) and of a packet's head (Base/Adjust,
-- Base/Outer), loads and stores in packets (Base/Bytes, Base/Exchange), and the numbers of XDP
-- (Base/Xdp). A packet is the list of its bytes; a pointer is a distance from `data`; words are
-- little-endian. A fault, such as a NULL dereference or an access outside a buffer, is `none`.
--
-- Hash: examples/ai_demo/fnv_hash.c, examples/bmc-cache/bmc_hash_keys.c and
--   examples/perbyte_loop_explosion/perbyte_hash.c (Hash/Fnv), examples/crc_hash/crc16.c
--   (Hash/Crc16) and examples/jhash_stub_demo/jhash_impl.c (Hash/Jhash), each with the predicate
--   of the results that its generated stub allows: the outputs that klee_make_symbolic and
--   klee_assume leave. Hash/Gather is the pointer chase of examples/symbolic_addr_gather,
--   Hash/Synth the harness of examples/synth_test with its functions and both sets of stubs.
-- Bmc: examples/bmc-cache/bmc_kern.c, an in-kernel cache in front of memcached. Bmc.Maps holds
--   its four maps. Bmc/Filter, Bmc/HashKeys, Bmc/Prepare, Bmc/Reply, Bmc/Invalidate and
--   Bmc/Update model the programs bmc_rx_filter_main and bmc_tx_filter_main, bmc_hash_keys_main,
--   bmc_prepare_packet_main, bmc_write_reply_main, bmc_invalidate_cache_main and
--   bmc_update_cache_main. They interact through the maps and through the packet's head
--   (Bmc/Frame). Most tail calls of the source are commented out there: the models return what
--   the source returns, and a run of several programs composes them.
-- Paxos: examples/electrode/fast_kern.c with fast_common.h and compute_message_type.c, the fast
--   path of a replicated log. Paxos.PaxosMaps holds its maps. Paxos/Dispatch, Paxos/Request,
--   Paxos/Quorum, Paxos/Prepare and Paxos/Reply model fastPaxos_main, HandleRequest_main,
--   HandlePrepareOK_main, HandlePrepare_main with WriteBuffer_main, and PrepareFastReply_main; a
--   tail call is a call in tail position.
-- Fw: examples/fw/xdp_fw_kern.h, a stateful firewall: xdp_fw_prog with its flow table and biflow.
-- Crab: examples/crab/lb_kern.c, a load balancer: get_target_idx_rr, get_target, update_macs,
--   handle_syn and xdp_prog_simple. The packet is rewritten in the steps of handle_syn;
--   Crab/Checksums, Crab/Rewrite and Crab/Options are about these steps, Crab/Syn, Crab/Balance
--   and Crab/Dispatch about the program.
-- Katran: examples/katran, a load balancer behind virtual addresses, in its default build with
--   ICMP_TOOBIG_GENERATION and GUE_ENCAP as flags. The file Katran holds the data, the constants
--   and the maps; Katran/Csum is csum_helpers.h with csum_fold_helper.c and its stub,
--   Katran/Parse pckt_parsing.h, Katran/Icmp handle_icmp.h, Katran/Encap pckt_encap.h and
--   encap_helpers.h, Katran/Route and Katran/Process balancer_kern.h up to balancer_ingress, and
--   Katran/Spec the specification of katran.c. Katran/Inline is the inline decapsulation of
--   balancer_kern.h, which INLINE_DECAP turns on. Katran/Process/Connection is about packets of
--   one connection, Katran/Process/Errors about ICMP messages, Katran/Process/Verdicts about
--   every packet.
-- Katran/Health is health checking: healthchecking_kern.c and healthchecking_helpers.h.
-- FwNat: firewall.h and nat.h of examples/evaluation-two-program-fw-nat, one behind the other.
-- MapPair: program1.h and program2.h of examples/evaluation-two-program-map, which meet in
--   hash_map and array_map.
-- NoOverlap: program1.h and program2.h of examples/evaluation-two-program-no-overlap.
-- Router: examples/linux-sample-ipv4-router/xdp_router_ipv4.c.
-- Probe: examples/fluvia/main.c.
-- Echo: examples/ebpf_aas/xdp1.bpf.h.
-- Forward: examples/linux-samples-lifting-test/xdp_fwd_kernel.c.
-- Tunnel: examples/linux-samples-lifting-test/xdp_tx_iptunnel.c.
-- Policy: main.c of examples/simple_map_policy_example and of
--   examples/simple_packet_policy_example.
-- Checksum: compute_ip_checksum, which the cache and the fast path both have, and sums of header
--   words (Checksum/Sums); the IPv4 header that Katran and Tunnel write is in Checksum/Header.
--
-- Loops are recursions on their remaining rounds: the bounds of the source (251 rounds of the key
-- hash, 1303 bytes of an entry, 1496 spaces) or a fuel of one more than the bytes that are left
-- (invalidation, the Jenkins hash), where running out is `none`. The first copy loop of the reply
-- has 163 rounds, since it moves by eight below 1303. The round robin is followed for as many
-- calls as there are targets, before its 32-bit counter wraps, and the rate of new connections
-- for a second, before its 64-bit counter wraps.
--
-- bpf_xdp_adjust_head and bpf_xdp_adjust_tail are parameters; of the first it is assumed
-- (Bmc.Frame.Adjusts) that when it succeeds `data` has moved by its argument over unchanged
-- bytes. Whether bpf_ringbuf_reserve gives a buffer is a parameter too, and so is
-- bpf_map_update_elem, of which it is assumed (Fw.Laws.Updates, Base.Update.MapUpdate,
-- Probe.LruUpdate) that a lookup finds what was stored, and that other keys keep their values, or
-- lose them in an LRU map. In Crab the parsers of ebpf-se are parameters, which is no part of the
-- repository, and so are bpf_xdp_adjust_head (Base.Adjust.AdjustHead: it puts bytes in front) and
-- bpf_csum_diff (Crab.Checksums.CsumDiff: it adds words, up to multiples of 65535). In Katran the
-- kernel is a record of functions: bpf_xdp_adjust_head in both directions
-- (Base.Adjust.AdjustHead, ShrinkHead and Katran.Inline.Laws.Succeeds), bpf_xdp_adjust_tail,
-- bpf_csum_diff, the update of the connection table (Katran.Route.Affinity.LruFinds: a lookup
-- finds what was stored) and two readings of the clock; in Katran/Health it is
-- bpf_skb_adjust_room (Katran.Health.Moves.MakesRoom: bytes are inserted behind the Ethernet
-- header). In Router the trie lookup and bpf_redirect_map are. Not modelled: spin locks and
-- concurrent runs, in Katran the calls of inline decapsulation from process_packet and source
-- routing, the programs of other projects (cilium-lxc), the drivers over KLEE, the lifting tools
-- in C++ and Python, and the remaining examples (cross_prog and smaller variants).
pub mod Base
pub mod Hash
pub mod Bmc
pub mod Checksum
pub mod Paxos
pub mod Fw
pub mod FwNat
pub mod MapPair
pub mod NoOverlap
pub mod Crab
pub mod Katran
pub mod Router
pub mod Probe
pub mod Echo
pub mod Forward
pub mod Policy
pub mod Tunnel
mod Tests
