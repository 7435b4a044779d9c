-- ===== src/Paxos/Reply.antt =====
-- `PrepareFastReply_main` of examples/electrode/fast_kern.c: the packet of a Prepare message is
-- rewritten into the acknowledgement and sent back to the leader.
pub mod Laws
pub mod Sent
use dram_pvt_mk.Base.{
  ℕ, ◌+◌, ◌-◌, List, [], ◌∷◌, ◌++◌, Bool, if◌then◌else◌, leb, ltb, length, take, drop, get_or,
}
use dram_pvt_mk.Base.Table.{or_return}
use dram_pvt_mk.Base.Bytes.{Packet, bytes_from, byte_at, write, le_bytes}
use dram_pvt_mk.Base.Xdp.{xdp_pass, xdp_tx, iphdr_size}
use dram_pvt_mk.Checksum.{clear_check, compute_ip_checksum}
use dram_pvt_mk.Paxos.{
  PaxosMaps, PaxosConfigure, CtrState, PaxosRun, nonfrag_magic, magic_len, prepare_type_len,
  myprepareok_type_len, fast_paxos_data_len, udp_payload,
}

-- "MyPrepareOK"
abbrev pub my_prepareok : List ℕ
my_prepareok = b'M' ∷ b'y' ∷ b'P' ∷ b'r' ∷ b'e' ∷ b'p' ∷ b'a' ∷ b'r' ∷ b'e' ∷ b'O' ∷ b'K' ∷ []

-- The magic, the length of the type name, the changed letters of the name, and the view, the
-- operation and the replica that are acknowledged.
unfoldable pub write_type : Packet → CtrState → ℕ → Packet
write_type p ctr last_op =
    let text = udp_payload + 4 + 8 in
    let p1 = write p udp_payload (le_bytes 4 nonfrag_magic) in
    let p2 = write p1 (udp_payload + 4) (le_bytes 8 myprepareok_type_len) in
    let p3 = write p2 (text + 13) my_prepareok in
    let extra = text + myprepareok_type_len in
    write p3 extra (le_bytes 4 ctr.view ++ (le_bytes 4 last_op ++ le_bytes 4 ctr.my_idx))

-- Where the protocol buffer of the reply begins, and where it ends.
abbrev pub reply_body : ℕ
reply_body = udp_payload + 4 + 8 + myprepareok_type_len + fast_paxos_data_len

abbrev pub reply_end : ℕ
reply_end = reply_body + 8 + 8 + 8 + 4

unfoldable pub write_body : Packet → CtrState → ℕ → Packet
write_body p ctr last_op = write p reply_body (
    le_bytes 8 (8 + 8 + 4)
    ++ (le_bytes 8 ctr.view ++ (le_bytes 8 last_op ++ le_bytes 4 ctr.my_idx)))

-- The ports, the lengths and the addresses, the header's checksum, and the hardware addresses. No
-- field is put into network byte order.
unfoldable pub write_headers : Packet → PaxosConfigure → Packet
write_headers p leader =
    let udp_len = reply_end - 34 in
    let p1 = write p 34 (bytes_from p 36 2) in
    let p2 = write p1 36 (le_bytes 2 leader.port ++ (le_bytes 2 udp_len ++ le_bytes 2 0)) in
    let p3 = write p2 16 (le_bytes 2 (udp_len + iphdr_size)) in
    let p4 = write p3 26 (bytes_from p3 30 4) in
    let p5 = clear_check (write p4 30 (le_bytes 4 leader.addr)) 14 in
    let p6 = write p5 24 (le_bytes 2 (compute_ip_checksum p5 14)) in
    write p6 0 (bytes_from p6 6 6 ++ bytes_from p6 0 6)

unfoldable pub prepare_fast_reply : PaxosMaps → Packet → PaxosRun
unfolding write_type write_body write_headers
prepare_fast_reply m p =
    let done : Packet → ℕ → PaxosRun =
      λ q verdict. record { maps = m; packet = q; verdict = verdict } in
    let head = udp_payload + magic_len + 8 + prepare_type_len + fast_paxos_data_len + 8 in
    if leb (length p) head
    then done p xdp_pass
    else or_return (m.msg_last_op 0) (done p xdp_pass) λ last_op.
      or_return (m.ctr_state 0) (done p xdp_pass) λ ctr.
        or_return (m.configure ctr.leader_idx) (done p xdp_pass) λ leader.
          let q = write_type p ctr last_op in
          if ltb (length p) reply_end
          then done q xdp_pass
          else done (write_headers (write_body q ctr last_op) leader) xdp_tx
