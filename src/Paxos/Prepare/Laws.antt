-- ===== src/Paxos/Prepare/Laws.antt =====
-- How a Prepare message changes the state of a replica, and when it is answered.
use dram_pvt_mk.Base.{
  ℕ, ◌+◌, ◌%◌, ◌^◌, ◌≤◌, ◌<◌, ◌≡◌, refl, ap, arith, some, length, drop, take, ◌++◌, ◌∷◌, [], leb,
  ltb, Bool, true, false, inl, inr, Option-cases, Bool-cases, u64, ltb-eq-false, leb-eq-false,
}
use dram_pvt_mk.Base.Bytes.{Packet, byte_at}
use dram_pvt_mk.Base.Xdp.{xdp_tx}
use dram_pvt_mk.Paxos.{PaxosMaps, PaxosConfigure, CtrState, ReplicaStatus, normal, max_data_len}
use dram_pvt_mk.Paxos.Message.{xdp_handle_prepareok, compute_message_type}
use dram_pvt_mk.Paxos.Quorum.{read_prepareok}
use dram_pvt_mk.Paxos.Reply.Laws.{Answers}
use dram_pvt_mk.Paxos.Reply.Sent.{prepare_fast_reply-maps, prepare_fast_reply-read_prepareok}
use dram_pvt_mk.Paxos.Prepare.{
  write_buffer, Decision, answer, resend, accept, PrepareMsg, is_normal, decide, record_op,
  prepare_of, carry_out, handle_prepare,
}

-- When a replica records the operation of a message: it is in its normal state and in the view of
-- the message, the operation is new to it, and the batch leaves no gap behind its last operation.
pub record IsNext (ctr : CtrState) (msg : PrepareMsg) : Type 0 where
  pub working : ctr.status ≡ normal
  pub same_view : msg.view ≡ ctr.view
  pub newer : ctr.last_op < msg.last_op
  pub no_gap : msg.batch_start ≤ u64 (ctr.last_op + 1)

is_normal_lem : (s : ReplicaStatus) → is_normal s ≡ true → s ≡ normal
is_normal_lem normal h = refl
is_normal_lem ReplicaStatus.view_change h = absurd (ground arith)
is_normal_lem ReplicaStatus.recovering h = absurd (ground arith)

decide-IsNext : (ctr : CtrState) (msg : PrepareMsg) → decide ctr msg ≡ accept → IsNext ctr msg
unfolding decide
decide-IsNext ctr msg h = record {
  working = is_normal_lem ctr.status ground arith;
  same_view = ground arith;
  newer = ground arith;
  no_gap = ground arith;
}

IsNext-decide : (ctr : CtrState) (msg : PrepareMsg) → IsNext ctr msg → decide ctr msg ≡ accept
unfolding decide
IsNext-decide ctr msg n =
    let w = n.working in
    let v = n.same_view in let o = n.newer in let g = n.no_gap in rw w (ground arith)

write_buffer-keeps :
    (m : PaxosMaps) (p : Packet) (room : Bool)
    → let after = (write_buffer m p room).maps in
      (after.ctr_state ≡ m.ctr_state) × (after.msg_last_op ≡ m.msg_last_op)
unfolding write_buffer
write_buffer-keeps m p true =
    let n = record m {
      prepare_buffer = m.prepare_buffer ++ (take max_data_len (drop 99 p) ∷ []);
    } in
    let e = prepare_fast_reply-maps n p in
    elim (Bool-cases (leb (length p) 99)) [
      | inl short ↦ rw short (refl, refl)
      | inr long ↦ elim (Bool-cases (ltb 163 (length p))) [
        | inl over ↦ rw (long, over) (refl, refl)
        | inr fits ↦ rw (long, fits) (ap (λ q. q.ctr_state) e, ap (λ q. q.msg_last_op) e)
      ]
    ]
write_buffer-keeps m p false = ground arith

-- What a message leaves in a replica whose state is `ctr`.
pub data Outcome (m : PaxosMaps) (ctr : CtrState) (msg : PrepareMsg) (after : PaxosMaps)
    : Type 0 where
  kept : after.ctr_state ≡ m.ctr_state → after.msg_last_op ≡ m.msg_last_op → Outcome m ctr msg after
  recorded :
      IsNext ctr msg
      → after.ctr_state 0 ≡ some (record ctr { last_op = msg.last_op })
      → after.msg_last_op 0 ≡ some msg.last_op
      → Outcome m ctr msg after

carry_out-Outcome :
    (m : PaxosMaps) (p : Packet) (room : Bool) (ctr : CtrState) (d : Decision)
    → decide ctr (prepare_of p) ≡ d
    → Outcome m ctr (prepare_of p) (carry_out m p room ctr d).maps
unfolding carry_out record_op
carry_out-Outcome m p room ctr (answer v) h = kept refl refl
carry_out-Outcome m p room ctr resend h = rw (prepare_fast_reply-maps m p) (kept refl refl)
carry_out-Outcome m p room ctr accept h =
    let n = record_op m ctr (prepare_of p).last_op in
    let k = write_buffer-keeps n p room in
    recorded (decide-IsNext ctr (prepare_of p) h) (ap (λ t. t 0) k.0) (ap (λ t. t 0) k.1)

-- A message changes a replica's state at most in its last operation, and only to the operation of
-- the message, which the acknowledgement then names; that needs the normal state, the message's
-- view, an operation newer than the last, and a batch without a gap. In every other case the state
-- and the operation to acknowledge are as before.
pub handle_prepare-Outcome :
    (m : PaxosMaps) (p : Packet) (room : Bool) (ctr : CtrState)
    → m.ctr_state 0 ≡ some ctr
    → Outcome m ctr (prepare_of p) (handle_prepare m p room).maps
unfolding handle_prepare
handle_prepare-Outcome m p room ctr h = elim (Bool-cases (ltb (length p) 99)) [
  | inl short ↦ rw short (kept refl refl)
  | inr long ↦ elim (Option-cases (m.msg_last_op 0)) [
    | inl missing ↦ rw long (rw missing (kept refl refl))
    | inr (op, found) ↦ rw long (rw found (rw h (carry_out-Outcome m p room ctr _ refl)))
  ]
]

-- A replica in the normal state, in the view of the message, whose operation is the next one
-- without a gap, records the operation, puts the protocol buffer of the message behind those that
-- wait for user space, and acknowledges this operation: when the ring buffer has room, the packet
-- has 118 bytes to 163 bytes and "vr" in its type name, and the leader is configured.
pub handle_prepare_next :
    (m : PaxosMaps) (p : Packet) (ctr : CtrState) (op : ℕ) (leader : PaxosConfigure)
    → Answers m ctr op leader
    → IsNext ctr (prepare_of p)
    → 118 ≤ length p
    → length p ≤ 163
    → byte_at p 64 ≡ b'v'
    → byte_at p 65 ≡ b'r'
    → let msg = prepare_of p in
      let run = handle_prepare m p true in
      (run.verdict ≡ xdp_tx)
      × (run.maps.ctr_state 0 ≡ some (record ctr { last_op = msg.last_op }))
      × (run.maps.prepare_buffer ≡ m.prepare_buffer ++ (take 64 (drop 99 p) ∷ []))
      × (compute_message_type (drop 54 run.packet) ≡ some xdp_handle_prepareok)
      × (read_prepareok (drop 78 run.packet)
          ≡ some (record {
            view = ctr.view % 2 ^ 32;
            opnum = msg.last_op % 2 ^ 32;
            replica_idx = ctr.my_idx % 2 ^ 32;
          }))
unfolding handle_prepare carry_out write_buffer record_op
handle_prepare_next m p ctr op leader a n l u v r =
    let msg = prepare_of p in
    let after = record ctr { last_op = msg.last_op } in
    let m1 = record_op m ctr msg.last_op in
    let m2 = record m1 {
      prepare_buffer = m1.prepare_buffer ++ (take max_data_len (drop 99 p) ∷ []);
    } in
    let ready : Answers m2 after msg.last_op leader = record {
      operation = refl;
      state = refl;
      known_leader = a.known_leader;
    } in
    let sent = prepare_fast_reply-read_prepareok m2 p after msg.last_op leader ready l v r in
    let t1 : ltb (length p) 99 ≡ false = ltb-eq-false (length p) 99 (omega arith) in
    let t2 : leb (length p) 99 ≡ false = leb-eq-false (length p) 99 (omega arith) in
    let t3 : ltb 163 (length p) ≡ false = ltb-eq-false 163 (length p) u in
    rw t1 (
      rw (a.operation) (
        rw (a.state) (
          rw (IsNext-decide ctr msg n) (
            rw (t2, t3)
              (
                sent.0,
                ap (λ q. q.ctr_state 0) sent.1,
                ap (λ q. q.prepare_buffer) sent.1,
                sent.2,
                sent.3,
              )))))
