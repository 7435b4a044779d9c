-- ===== src/Paxos/Reply/Laws.antt =====
-- What the leader reads in the reply of a replica.
use dram_pvt_mk.Base.{
  ℕ, zero, suc, ◌+◌, ◌-◌, ◌*◌, ◌/◌, ◌%◌, ◌^◌, ◌≤◌, ◌<◌, ◌≡◌, ap, ◌∙◌, arith, true, false, leb, ltb,
  some, List, [], ◌∷◌, ◌++◌, length, take, drop, get_or, length-drop, get_or-drop, length-append,
  lt→ltb,
}
use dram_pvt_mk.Base.Bytes.{
  bytes_from, Packet, byte_at, word_at, load32_lem, write, le_bytes, length-write,
  byte_at-write_below, byte_at-write_above, byte_at-write,
}
use dram_pvt_mk.Base.Xdp.{xdp_tx}
use dram_pvt_mk.Checksum.{clear_check}
use dram_pvt_mk.Paxos.{
  PaxosMaps, PaxosConfigure, CtrState, prepare_type_len, prepareok_type_len, myprepareok_type_len,
}
use dram_pvt_mk.Paxos.Message.{xdp_handle_prepareok, compute_message_type}
use dram_pvt_mk.Paxos.Quorum.{read_prepareok}
use dram_pvt_mk.Paxos.Reply.{
  write_type, write_body, write_headers, prepare_fast_reply, my_prepareok,
}

length-take-le : (n : ℕ) (xs : List ℕ) → length (take n xs) ≤ n
length-take-le zero xs = omega arith
length-take-le (suc n) [] = omega arith
length-take-le (suc n) (x ∷ xs) = omega (arith, length-take-le n xs)

byte_at-drop : (n : ℕ) (p : Packet) (i : ℕ) → byte_at (drop n p) i ≡ byte_at p (n + i)
byte_at-drop n p i = get_or-drop n p i 0

-- The headers end at byte 42.
write_headers_above :
    (p : Packet) (leader : PaxosConfigure) (i : ℕ)
    → 42 ≤ i
    → byte_at (write_headers p leader) i ≡ byte_at p i
unfolding write_headers clear_check
write_headers_above p leader i h =
    let le = λ (n : ℕ) (xs : List ℕ). length-take-le n xs in
    byte_at-write_above _ 0 _ i (
      omega (
        arith,
        length-append (bytes_from _ 6 6) (bytes_from _ 0 6),
        le 6 (drop 6 _),
        le 6 (drop 0 _),
      ))
    ∙ byte_at-write_above _ 24 _ i (omega arith)
    ∙ byte_at-write_above _ 24 _ i (omega arith)
    ∙ byte_at-write_above _ 30 _ i (omega arith)
    ∙ byte_at-write_above _ 26 _ i (omega (arith, le 4 (drop 30 _)))
    ∙ byte_at-write_above _ 16 _ i (omega arith)
    ∙ byte_at-write_above _ 36 _ i (omega arith)
    ∙ byte_at-write_above _ 34 _ i (omega (arith, le 2 (drop 36 _)))

length-write_headers :
    (p : Packet) (leader : PaxosConfigure) → length (write_headers p leader) ≡ length p
unfolding write_headers clear_check
length-write_headers p leader =
    length-write _ 0 _
    ∙ length-write _ 24 _
    ∙ length-write _ 24 _
    ∙ length-write _ 30 _
    ∙ length-write _ 26 _
    ∙ length-write _ 16 _
    ∙ length-write _ 36 _
    ∙ length-write _ 34 _

-- The twelve bytes that the leader's handler reads, from byte 78 on.
abbrev pub ack_fields : CtrState → ℕ → List ℕ
ack_fields ctr op = le_bytes 4 ctr.view ++ (le_bytes 4 op ++ le_bytes 4 ctr.my_idx)

abbrev pub reply_of : Packet → CtrState → ℕ → PaxosConfigure → Packet
reply_of p ctr op leader = write_headers (write_body (write_type p ctr op) ctr op) leader

length-reply_of :
    (p : Packet) (ctr : CtrState) (op : ℕ) (leader : PaxosConfigure)
    → length (reply_of p ctr op leader) ≡ length p
unfolding write_type write_body
length-reply_of p ctr op leader =
    length-write_headers _ leader
    ∙ length-write _ 90 _
    ∙ length-write _ 78 _
    ∙ length-write _ 67 _
    ∙ length-write _ 46 _
    ∙ length-write _ 42 _

reply_of-ack_fields :
    (p : Packet) (ctr : CtrState) (op : ℕ) (leader : PaxosConfigure) (k : ℕ)
    → k < 12
    → 118 ≤ length p
    → byte_at (reply_of p ctr op leader) (78 + k) ≡ get_or (ack_fields ctr op) k 0
unfolding write_type write_body
reply_of-ack_fields p ctr op leader k h l =
    let p1 = write p 42 (le_bytes 4 0x20050318) in
    let p2 = write p1 46 (le_bytes 8 24) in
    let p3 = write p2 67 my_prepareok in
    let same_length : length p3 ≡ length p =
      length-write p2 67 _ ∙ length-write p1 46 _ ∙ length-write p 42 _ in
    write_headers_above _ leader (78 + k) (omega arith)
    ∙ byte_at-write_below _ 90 _ (78 + k) (omega arith)
    ∙ byte_at-write p3 78 (ack_fields ctr op) k h (omega (arith, same_length))

reply_of-name :
    (p : Packet) (ctr : CtrState) (op : ℕ) (leader : PaxosConfigure) (k : ℕ)
    → k < 11
    → 118 ≤ length p
    → byte_at (reply_of p ctr op leader) (67 + k) ≡ get_or my_prepareok k 0
unfolding write_type write_body
reply_of-name p ctr op leader k h l =
    let p1 = write p 42 (le_bytes 4 0x20050318) in
    let p2 = write p1 46 (le_bytes 8 24) in
    let same_length : length p2 ≡ length p = length-write p1 46 _ ∙ length-write p 42 _ in
    write_headers_above _ leader (67 + k) (omega arith)
    ∙ byte_at-write_below _ 90 _ (67 + k) (omega arith)
    ∙ byte_at-write_below _ 78 _ (67 + k) (omega arith)
    ∙ byte_at-write p2 67 my_prepareok k h (omega (arith, same_length))

-- The letters of the type name before the changed ones.
reply_of-prefix :
    (p : Packet) (ctr : CtrState) (op : ℕ) (leader : PaxosConfigure) (i : ℕ)
    → 54 ≤ i
    → i < 67
    → byte_at (reply_of p ctr op leader) i ≡ byte_at p i
unfolding write_type write_body
reply_of-prefix p ctr op leader i h l =
    write_headers_above _ leader i (omega arith)
    ∙ byte_at-write_below _ 90 _ i (omega arith)
    ∙ byte_at-write_below _ 78 _ i (omega arith)
    ∙ byte_at-write_below _ 67 _ i (omega arith)
    ∙ byte_at-write_above _ 46 _ i (omega arith)
    ∙ byte_at-write_above _ 42 _ i (omega arith)

word_of_bytes :
    (a b c d v : ℕ)
    → a ≡ v % 256
    → b ≡ v / 256 % 256
    → c ≡ v / 256 / 256 % 256
    → d ≡ v / 256 / 256 / 256 % 256
    → a + 256 * b + 65536 * (c + 256 * d) ≡ v % 2 ^ 32
word_of_bytes a b c d v h k l m = omega arith

pub read_prepareok-reply_of :
    (p : Packet) (ctr : CtrState) (op : ℕ) (leader : PaxosConfigure)
    → 118 ≤ length p
    → read_prepareok (drop 78 (reply_of p ctr op leader))
      ≡ some (record {
        view = ctr.view % 2 ^ 32;
        opnum = op % 2 ^ 32;
        replica_idx = ctr.my_idx % 2 ^ 32;
      })
unfolding read_prepareok
read_prepareok-reply_of p ctr op leader l =
    let q = reply_of p ctr op leader in
    let r = drop 78 q in
    let size : length r ≡ length p - 78 =
      length-drop 78 q ∙ ap (λ n. n - 78) (length-reply_of p ctr op leader) in
    let byte : (k : ℕ) → k < 12 → byte_at r k ≡ get_or (ack_fields ctr op) k 0 =
      λ k h. byte_at-drop 78 q k ∙ reply_of-ack_fields p ctr op leader k h l in
    let enough : 12 ≤ length r = omega (arith, size) in
    let view : word_at r 0 ≡ ctr.view % 2 ^ 32 =
      word_of_bytes _ _ _ _ ctr.view (byte 0 (omega arith)) (byte 1 (omega arith))
        (byte 2 (omega arith)) (byte 3 (omega arith)) in
    let opnum : word_at r 4 ≡ op % 2 ^ 32 =
      word_of_bytes _ _ _ _ op (byte 4 (omega arith)) (byte 5 (omega arith)) (byte 6 (omega arith))
        (byte 7 (omega arith)) in
    let idx : word_at r 8 ≡ ctr.my_idx % 2 ^ 32 =
      word_of_bytes _ _ _ _ ctr.my_idx (byte 8 (omega arith)) (byte 9 (omega arith))
        (byte 10 (omega arith)) (byte 11 (omega arith)) in
    let load_view = load32_lem r 0 (omega (arith, enough)) in
    let load_opnum = load32_lem r 4 (omega (arith, enough)) in
    let load_idx = load32_lem r 8 (omega (arith, enough)) in
    rw (load_view, load_opnum, load_idx) (rw (view, opnum, idx))

pub compute_message_type-reply_of :
    (p : Packet) (ctr : CtrState) (op : ℕ) (leader : PaxosConfigure)
    → 118 ≤ length p
    → byte_at p 64 ≡ b'v'
    → byte_at p 65 ≡ b'r'
    → compute_message_type (drop 54 (reply_of p ctr op leader)) ≡ some xdp_handle_prepareok
unfolding compute_message_type
compute_message_type-reply_of p ctr op leader l g h =
    let q = reply_of p ctr op leader in
    let r = drop 54 q in
    let size : length r ≡ length p - 54 =
      length-drop 54 q ∙ ap (λ n. n - 54) (length-reply_of p ctr op leader) in
    let long : (n : ℕ) → n < 60 → ltb n (length r) ≡ true =
      λ n k. lt→ltb n (length r) (omega (arith, size)) in
    let prepare = long prepare_type_len (omega arith) in
    let prepareok = long prepareok_type_len (omega arith) in
    let myprepareok = long myprepareok_type_len (omega arith) in
    let v : byte_at r 10 ≡ b'v' =
      byte_at-drop 54 q 10 ∙ reply_of-prefix p ctr op leader 64 (omega arith) (omega arith) ∙ g in
    let w : byte_at r 11 ≡ b'r' =
      byte_at-drop 54 q 11 ∙ reply_of-prefix p ctr op leader 65 (omega arith) (omega arith) ∙ h in
    let name : (k : ℕ) → k < 11 → byte_at r (13 + k) ≡ get_or my_prepareok k 0 = λ k j.
      byte_at-drop 54 q (13 + k)
      ∙ ap (byte_at q) (omega arith)
      ∙ reply_of-name p ctr op leader k j l in
    let n0 = name 0 (omega arith) in
    let n1 = name 1 (omega arith) in
    let n2 = name 2 (omega arith) in
    let n3 = name 3 (omega arith) in
    let n6 = name 6 (omega arith) in
    rw (v, w, n0, n1, n2, n3, n6) (rw (prepare, prepareok, myprepareok))

-- The maps of a replica that can answer, and the operation, state and leader that they hold.
pub record Answers (m : PaxosMaps) (ctr : CtrState) (op : ℕ) (leader : PaxosConfigure)
    : Type 0 where
  pub operation : m.msg_last_op 0 ≡ some op
  pub state : m.ctr_state 0 ≡ some ctr
  pub known_leader : m.configure ctr.leader_idx ≡ some leader

pub prepare_fast_reply_lem :
    (m : PaxosMaps) (p : Packet) (ctr : CtrState) (op : ℕ) (leader : PaxosConfigure)
    → Answers m ctr op leader
    → 118 ≤ length p
    → prepare_fast_reply m p
      ≡ record { maps = m; packet = reply_of p ctr op leader; verdict = xdp_tx }
unfolding prepare_fast_reply
prepare_fast_reply_lem m p ctr op leader a l =
    let head : leb (length p) 107 ≡ false = ground arith in
    let room : ltb (length p) 118 ≡ false = ground arith in
    rw head (rw (a.operation) (rw (a.state) (rw (a.known_leader) (rw room))))
