-- ===== src/Paxos/Reply/Sent.antt =====
-- The layout of a replica's reply.
use dram_pvt_mk.Base.{ℕ, ◌%◌, ◌^◌, ◌≤◌, ◌≡◌, refl, arith, some, length, drop}
use dram_pvt_mk.Base.Bytes.{Packet, byte_at}
use dram_pvt_mk.Base.Xdp.{xdp_tx}
use dram_pvt_mk.Paxos.{PaxosMaps, PaxosConfigure, CtrState}
use dram_pvt_mk.Paxos.Message.{xdp_handle_prepareok, compute_message_type}
use dram_pvt_mk.Paxos.Quorum.{read_prepareok}
use dram_pvt_mk.Paxos.Reply.{prepare_fast_reply}
use dram_pvt_mk.Paxos.Reply.Laws.{
  Answers, prepare_fast_reply_lem, read_prepareok-reply_of, compute_message_type-reply_of,
}

-- A replica that has its state, its operation and its leader answers every message of 118 bytes or
-- more whose type name has "vr" in its place: the maps stay as they are, the packet is sent back,
-- its type name is that of an acknowledgement, and the bytes behind the type name, which ends at byte
-- 78, have the layout of one with the replica's view, operation and index, each cut to 32 bits.
pub prepare_fast_reply-read_prepareok :
    (m : PaxosMaps) (p : Packet) (ctr : CtrState) (op : ℕ) (leader : PaxosConfigure)
    → Answers m ctr op leader
    → 118 ≤ length p
    → byte_at p 64 ≡ b'v'
    → byte_at p 65 ≡ b'r'
    → let run = prepare_fast_reply m p in
      (run.verdict ≡ xdp_tx)
      × (run.maps ≡ m)
      × (compute_message_type (drop 54 run.packet) ≡ some xdp_handle_prepareok)
      × (read_prepareok (drop 78 run.packet)
          ≡ some (record {
            view = ctr.view % 2 ^ 32;
            opnum = op % 2 ^ 32;
            replica_idx = ctr.my_idx % 2 ^ 32;
          }))
prepare_fast_reply-read_prepareok m p ctr op leader a l v r =
    let e = prepare_fast_reply_lem m p ctr op leader a l in
    rw e (
      refl,
      refl,
      compute_message_type-reply_of p ctr op leader l v r,
      read_prepareok-reply_of p ctr op leader l,
    )

-- Whatever it answers, the reply program leaves the maps as they are.
pub prepare_fast_reply-maps : (m : PaxosMaps) (p : Packet) → (prepare_fast_reply m p).maps ≡ m
unfolding prepare_fast_reply
prepare_fast_reply-maps m p = ground arith
