-- ===== src/Tests/Paxos.antt =====
-- A replica of three: Prepare messages, acknowledgements and requests on concrete packets.
use dram_pvt_mk.Base.{
  ℕ, zero, suc, ◌^◌, ◌≡◌, ◌<◌, ==_iff, refl, arith, List, [], ◌∷◌, ◌++◌, take, drop, length, true,
  some, none, if◌then◌else◌, ltb, ◌==◌, bit_or,
}
use dram_pvt_mk.Base.Bits.{passes, passes_at}
use dram_pvt_mk.Base.Bytes.{Packet, Returns, le_bytes, byte_at}
use dram_pvt_mk.Base.Xdp.{xdp_drop, xdp_tx}
use dram_pvt_mk.Paxos.{PaxosMaps, PaxosConfigure, PaxosQuorum, CtrState, normal, nonfrag_magic}
use dram_pvt_mk.Paxos.Message
use dram_pvt_mk.Paxos.Message.{compute_message_type}
use dram_pvt_mk.Paxos.Quorum.{PrepareOk, read_prepareok, acknowledge, handle_prepareok}
use dram_pvt_mk.Paxos.Quorum.Laws.{
  Tracks, Settles, message_of, acknowledge_order, handle_prepareok-Settles,
}
use dram_pvt_mk.Paxos.Prepare.{prepare_of, handle_prepare}
use dram_pvt_mk.Paxos.Prepare.Laws.{IsNext, Outcome, handle_prepare-Outcome, handle_prepare_next}
use dram_pvt_mk.Paxos.Reply.Laws.{Answers}
use dram_pvt_mk.Paxos.Request.Laws.{handle_all, Split, Batches, handle_all-Split}

abbrev zeros : ℕ → List ℕ
zeros zero = []
zeros (suc n) = 0 ∷ zeros n

abbrev prepare_name : List ℕ
prepare_name =
    b's' ∷ b'p' ∷ b'e' ∷ b'c' ∷ b'p' ∷ b'a' ∷ b'x' ∷ b'o' ∷ b's' ∷ b'.' ∷ b'v' ∷ b'r' ∷ b'.' ∷ b'p'
    ∷ b'r' ∷ b'o' ∷ b't' ∷ b'o' ∷ b'.' ∷ b'P' ∷ b'r' ∷ b'e' ∷ b'p' ∷ b'a' ∷ b'r' ∷ b'e' ∷ b'M'
    ∷ b'e' ∷ b's' ∷ b's' ∷ b'a' ∷ b'g' ∷ b'e' ∷ []

-- The operation 8 of the view 3, whose batch begins there.
abbrev prepare_packet : Packet
prepare_packet =
    zeros 42
    ++ (le_bytes 4 nonfrag_magic
        ++ (le_bytes 8 33
            ++ (prepare_name ++ (le_bytes 4 3 ++ (le_bytes 4 8 ++ (le_bytes 4 8 ++ zeros 25))))))

abbrev replica : CtrState
replica = record {
  status = normal;
  my_idx = 1;
  leader_idx = 0;
  batch_size = 2;
  view = 3;
  last_op = 7;
}

abbrev leader : PaxosConfigure
leader = record { addr = 16777343; port = 14640 }

abbrev entry : PaxosQuorum
entry = record { view = 3; opnum = 8; bitset = 2 }

abbrev maps : PaxosMaps
maps = record {
  configure = λ i. if ltb i 3 then some leader else none;
  ctr_state = λ i. if i == 0 then some replica else none;
  msg_last_op = λ i. if i == 0 then some 7 else none;
  quorum = λ i. if i == 8 then some entry else none;
  batch_context = λ i. if i == 0 then some 1 else none;
  prepare_buffer = [];
  request_buffer = [];
}

maps-Answers : Answers maps replica 7 leader
maps-Answers = record { operation = refl; state = refl; known_leader = refl }

message-IsNext : IsNext replica (prepare_of prepare_packet)
message-IsNext = record {
  working = refl;
  same_view = refl;
  newer = omega arith;
  no_gap = omega arith;
}

handle_prepare-Outcome_example :
    Outcome maps replica (prepare_of prepare_packet) (handle_prepare maps prepare_packet true).maps
handle_prepare-Outcome_example = handle_prepare-Outcome maps prepare_packet true replica refl

handle_prepare_next_example :
    let run = handle_prepare maps prepare_packet true in
    (run.verdict ≡ xdp_tx)
    × (run.maps.ctr_state 0 ≡ some (record replica { last_op = 8 }))
    × (run.maps.prepare_buffer ≡ take 64 (drop 99 prepare_packet) ∷ [])
    × (compute_message_type (drop 54 run.packet) ≡ some Message.xdp_handle_prepareok)
    × (read_prepareok (drop 78 run.packet) ≡ some (record { view = 3; opnum = 8; replica_idx = 1 }))
handle_prepare_next_example =
    handle_prepare_next maps prepare_packet replica 7 leader maps-Answers message-IsNext
      (omega arith) (omega arith) refl refl

-- An acknowledgement of the operation by a replica.
abbrev ack : ℕ → PrepareOk
ack r = record { view = 3; opnum = 8; replica_idx = r }

ack-Tracks : (r : ℕ) → Tracks maps (ack r) entry
ack-Tracks r = record { found = refl; same_view = refl; same_opnum = refl }

acknowledge_order_example :
    let union = some (record entry { bitset = bit_or 2 (bit_or (2 ^ 0) (2 ^ 2)) }) in
    let once = some (record entry { bitset = bit_or 2 (2 ^ 0) }) in
    Returns
      (λ r. Returns (λ s. s.0.quorum 8 ≡ union) (acknowledge r.0 (ack 2)))
      (acknowledge maps (ack 0))
    × Returns
        (λ r. Returns (λ s. s.0.quorum 8 ≡ union) (acknowledge r.0 (ack 0)))
        (acknowledge maps (ack 2))
    × Returns
        (λ r. Returns (λ s. s.0.quorum 8 ≡ once) (acknowledge r.0 (ack 0)))
        (acknowledge maps (ack 0))
acknowledge_order_example =
    acknowledge_order maps (ack 0) (ack 2) entry (ack-Tracks 0) (ack-Tracks 2) (omega arith)
      (omega arith)

abbrev ack_packet : Packet
ack_packet = le_bytes 4 3 ++ (le_bytes 4 8 ++ (le_bytes 4 2 ++ zeros 4))

handle_prepareok-Settles_example :
    Returns
      (λ r.
        (r.packet ≡ ack_packet)
        × (if ltb (length ack_packet) 12
            then (r.maps ≡ maps) × (r.verdict ≡ xdp_drop)
            else Settles maps (message_of ack_packet) (r.maps, r.verdict)))
      (handle_prepareok maps ack_packet)
handle_prepareok-Settles_example = handle_prepareok-Settles maps ack_packet (omega arith)

alike_table : passes (λ k. byte_at ack_packet k == byte_at (take 12 ack_packet) k) 12 ≡ true
unfolding passes
alike_table = refl

alike : (k : ℕ) → k < 12 → byte_at ack_packet k ≡ byte_at (take 12 ack_packet) k
alike k h =
    (==_iff (byte_at ack_packet k) (byte_at (take 12 ack_packet) k)).0 (passes_at _ k h alike_table)

maps-Batches : Batches maps 1 2
maps-Batches = record {
  counts = refl;
  state = replica;
  finds = refl;
  size = refl;
  below = omega arith;
  fits = omega arith;
}

handle_all-Split_example : Returns (Split 1 2 2) (handle_all maps (zeros 100 ∷ zeros 120 ∷ []))
handle_all-Split_example =
    handle_all-Split maps (zeros 100 ∷ zeros 120 ∷ []) 1 2 maps-Batches
      ((omega arith, omega arith), ((omega arith, omega arith), tt))
