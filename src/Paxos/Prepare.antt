-- ===== src/Paxos/Prepare.antt =====
-- `HandlePrepare_main` and `WriteBuffer_main` of examples/electrode/fast_kern.c: what a replica does
-- with a Prepare message of the leader.
pub mod Laws
use dram_pvt_mk.Base.{
  ℕ, ◌+◌, ◌++◌, List, [], ◌∷◌, Bool, if◌then◌else◌, leb, ltb, length, take, drop, u64,
}
use dram_pvt_mk.Base.Table.{store, or_return}
use dram_pvt_mk.Base.Bytes.{Packet, word_at}
use dram_pvt_mk.Base.Xdp.{xdp_drop, xdp_pass}
use dram_pvt_mk.Paxos.{
  ReplicaStatus, normal, PaxosMaps, CtrState, PaxosRun, magic_len, prepare_type_len,
  fast_paxos_data_len, udp_payload, max_data_len,
}
use dram_pvt_mk.Paxos.Reply.{prepare_fast_reply}

-- Where the fields of a Prepare message lie, behind its type name, and the protocol buffer.
abbrev pub prepare_fields : ℕ
prepare_fields = udp_payload + magic_len + 8 + prepare_type_len

abbrev pub prepare_body : ℕ
prepare_body = prepare_fields + fast_paxos_data_len

-- `room` tells whether `bpf_ringbuf_reserve` gives a buffer. The bytes of the message that lie in
-- the packet are copied into it, `max_data_len` at most, and the reply program runs.
unfoldable pub write_buffer : PaxosMaps → Packet → Bool → PaxosRun
write_buffer m p room =
    let pass : PaxosRun = record { maps = m; packet = p; verdict = xdp_pass } in
    if leb (length p) prepare_body
    then pass
    else if ltb (prepare_body + max_data_len) (length p)
    then pass
    else if room
    then prepare_fast_reply
        (record m {
          prepare_buffer = m.prepare_buffer ++ (take max_data_len (drop prepare_body p) ∷ []);
        })
        p
    else pass

-- What the fields of a message and the replica's state come to.
pub data Decision : Type 0 where
  -- The handler returns the verdict.
  answer : ℕ → Decision
  -- The reply is sent again.
  resend : Decision
  -- The operation is recorded and buffered.
  accept : Decision

pub record PrepareMsg : Type 0 where
  pub view : ℕ
  pub last_op : ℕ
  pub batch_start : ℕ

abbrev pub is_normal : ReplicaStatus → Bool
is_normal normal = Bool.true
is_normal _ = Bool.false

unfoldable pub decide : CtrState → PrepareMsg → Decision
decide ctr msg =
    if is_normal ctr.status
    then (if ltb msg.view ctr.view
        then answer xdp_drop
        else if ltb ctr.view msg.view
        then answer xdp_pass
        else if leb msg.last_op ctr.last_op
        then resend
        else if ltb (u64 (ctr.last_op + 1)) msg.batch_start
        then answer xdp_pass
        else accept)
    else answer xdp_drop

-- `*context = msg_lastOp; ctr_state->lastOp = msg_lastOp;`
unfoldable pub record_op : PaxosMaps → CtrState → ℕ → PaxosMaps
record_op m ctr op = record m {
  msg_last_op = store m.msg_last_op 0 op;
  ctr_state = store m.ctr_state 0 (record ctr { last_op = op });
}

abbrev pub prepare_of : Packet → PrepareMsg
prepare_of p = record {
  view = word_at p prepare_fields;
  last_op = word_at p (prepare_fields + 4);
  batch_start = word_at p (prepare_fields + 8);
}

unfoldable pub carry_out : PaxosMaps → Packet → Bool → CtrState → Decision → PaxosRun
unfolding write_buffer record_op
carry_out m p room ctr (answer v) = record { maps = m; packet = p; verdict = v }
carry_out m p room ctr resend = prepare_fast_reply m p
carry_out m p room ctr accept = write_buffer (record_op m ctr (prepare_of p).last_op) p room

unfoldable pub handle_prepare : PaxosMaps → Packet → Bool → PaxosRun
unfolding carry_out decide
handle_prepare m p room =
    let pass : PaxosRun = record { maps = m; packet = p; verdict = xdp_pass } in
    if ltb (length p) prepare_body
    then pass
    else or_return (m.msg_last_op 0) pass λ context.
      or_return (m.ctr_state 0) pass λ ctr. carry_out m p room ctr (decide ctr (prepare_of p))
