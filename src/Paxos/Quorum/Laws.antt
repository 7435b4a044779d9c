-- ===== src/Paxos/Quorum/Laws.antt =====
-- Acknowledgements as a set: their order and repetition, and the verdict at the quorum.
use dram_pvt_mk.Base.{
  ℕ, ◌-◌, ◌^◌, ◌≤◌, ◌<◌, ◌≡◌, ◌⊎◌, refl, sym, ap, ◌∙◌, arith, true, false, not, ◌||◌, ◌==◌,
  if◌then◌else◌, ltb, none, some, length, bit_and, bit_or, Bool-cases, Option-cases, inl, inr,
  ==_iff, ==_self, lt→ltb,
}
use dram_pvt_mk.Base.Bits.{bit_or_comm, bit_or_assoc, bit_or_self, passes, passes_at}
use dram_pvt_mk.Base.Table.{store}
use dram_pvt_mk.Base.Bytes.{Packet, load32_lem, Returns, Returns-bind, word_at}
use dram_pvt_mk.Base.Xdp.{xdp_drop, xdp_pass}
use dram_pvt_mk.Paxos.{PaxosMaps, PaxosQuorum, quorum_bitset_entry}
use dram_pvt_mk.Paxos.Quorum.{
  ones, popcount, PrepareOk, read_prepareok, acknowledge, handle_prepareok,
}

-- The slot of an operation, which the map holds for it.
abbrev pub slot : PrepareOk → ℕ
slot msg = bit_and msg.opnum (quorum_bitset_entry - 1)

pub record Tracks (m : PaxosMaps) (msg : PrepareOk) (entry : PaxosQuorum) : Type 0 where
  pub found : m.quorum (slot msg) ≡ some entry
  pub same_view : entry.view ≡ msg.view
  pub same_opnum : entry.opnum ≡ msg.opnum

abbrev pub acknowledged : PaxosMaps → PrepareOk → PaxosQuorum → ℕ → PaxosMaps
acknowledged m msg entry bitset = record m {
  quorum = store m.quorum (slot msg) (record entry { bitset = bitset });
}

abbrev pub verdict_of : ℕ → ℕ
verdict_of bitset = if popcount bitset == 1 then xdp_pass else xdp_drop

pub acknowledge_lem :
    (m : PaxosMaps) (msg : PrepareOk) (entry : PaxosQuorum)
    → Tracks m msg entry
    → msg.replica_idx < 32
    → let bitset = bit_or entry.bitset (2 ^ msg.replica_idx) in
      acknowledge m msg ≡ some (acknowledged m msg entry bitset, verdict_of bitset)
unfolding acknowledge
acknowledge_lem m msg entry t h =
    let in_range = lt→ltb msg.replica_idx 32 h in
    let v : (entry.view == msg.view) ≡ true = (==_iff entry.view msg.view).1 t.same_view in
    let o : (entry.opnum == msg.opnum) ≡ true = (==_iff entry.opnum msg.opnum).1 t.same_opnum in
    rw (t.found) (rw (v, o, in_range))

-- A message from a replica index of 32 or more, which nothing checks, shifts out of `int`.
pub acknowledge_out_of_range :
    (m : PaxosMaps) (msg : PrepareOk) (entry : PaxosQuorum)
    → Tracks m msg entry
    → 32 ≤ msg.replica_idx
    → acknowledge m msg ≡ none
unfolding acknowledge
acknowledge_out_of_range m msg entry t h =
    let out : ltb msg.replica_idx 32 ≡ false = ground arith in
    let v : (entry.view == msg.view) ≡ true = (==_iff entry.view msg.view).1 t.same_view in
    let o : (entry.opnum == msg.opnum) ≡ true = (==_iff entry.opnum msg.opnum).1 t.same_opnum in
    rw (t.found) (rw (v, o, out))

-- Two acknowledgements of one operation leave the union of their replicas in the slot of the
-- operation.
acknowledge_two :
    (m : PaxosMaps) (a b : PrepareOk) (entry : PaxosQuorum) (i w : ℕ)
    → Tracks m a entry
    → Tracks m b entry
    → a.replica_idx < 32
    → b.replica_idx < 32
    → slot a ≡ i
    → slot b ≡ i
    → bit_or (bit_or entry.bitset (2 ^ a.replica_idx)) (2 ^ b.replica_idx) ≡ w
    → Returns
        (λ r. Returns (λ s. s.0.quorum i ≡ some (record entry { bitset = w })) (acknowledge r.0 b))
        (acknowledge m a)
acknowledge_two m a b entry i w ta tb ha hb ea eb union =
    let bits = bit_or entry.bitset (2 ^ a.replica_idx) in
    let m' = acknowledged m a entry bits in
    let t' : Tracks m' b (record entry { bitset = bits }) = record {
      found = rw (ea, eb) (rw (==_self i) refl);
      same_view = tb.same_view;
      same_opnum = tb.same_opnum;
    } in
    rw (acknowledge_lem m a entry ta ha) (
      rw (acknowledge_lem m' b (record entry { bitset = bits }) t' hb)
        (rw (ea, eb) (rw (==_self i) (rw union refl))))

-- Acknowledgements of one operation commute and count once, where the slot of the operation holds
-- this operation in the view of both messages, and both come from replicas with an index below 32,
-- which the code does not check: in both orders two of them leave the same set of replicas in the
-- slot, the union of the set before and the two, and one that comes twice leaves what it leaves the
-- first time.
pub acknowledge_order :
    (m : PaxosMaps) (a b : PrepareOk) (entry : PaxosQuorum)
    → Tracks m a entry
    → Tracks m b entry
    → a.replica_idx < 32
    → b.replica_idx < 32
    → let union = some (record entry {
      bitset = bit_or entry.bitset (bit_or (2 ^ a.replica_idx) (2 ^ b.replica_idx));
    }) in
      let once = some (record entry { bitset = bit_or entry.bitset (2 ^ a.replica_idx) }) in
      Returns
        (λ r. Returns (λ s. s.0.quorum (slot a) ≡ union) (acknowledge r.0 b))
        (acknowledge m a)
      × Returns
          (λ r. Returns (λ s. s.0.quorum (slot a) ≡ union) (acknowledge r.0 a))
          (acknowledge m b)
      × Returns
          (λ r. Returns (λ s. s.0.quorum (slot a) ≡ once) (acknowledge r.0 a))
          (acknowledge m a)
acknowledge_order m a b entry ta tb ha hb =
    let x = 2 ^ a.replica_idx in
    let y = 2 ^ b.replica_idx in
    let z = entry.bitset in
    let e : slot a ≡ slot b = ap (λ (o : ℕ). bit_and o 1023) (cc (ta.same_opnum, tb.same_opnum)) in
    let swap : bit_or (bit_or z y) x ≡ bit_or z (bit_or x y) =
      bit_or_assoc z y x ∙ ap (bit_or z) (bit_or_comm y x) in
    let twice : bit_or (bit_or z x) x ≡ bit_or z x =
      bit_or_assoc z x x ∙ ap (bit_or z) (bit_or_self x) in
    (
      acknowledge_two m a b entry (slot a) _ ta tb ha hb refl (sym e) (bit_or_assoc z x y),
      acknowledge_two m b a entry (slot a) _ tb ta hb ha (sym e) refl swap,
      acknowledge_two m a a entry (slot a) _ ta ta ha ha refl refl twice,
    )

pair_table :
    passes (λ a. passes (λ b. popcount (bit_or (2 ^ a) (2 ^ b)) == (if a == b then 1 else 2)) 32) 32
    ≡ true
unfolding passes ones
pair_table = refl

-- With one replica in the set, the replica `a`, a message from the replica `b` reaches the quorum
-- of three exactly when `b` is another one, and only then is it held back: a repeated message of
-- `a` is passed to user space again.
pub acknowledge_second :
    (m : PaxosMaps) (msg : PrepareOk) (entry : PaxosQuorum) (a : ℕ)
    → Tracks m msg entry
    → entry.bitset ≡ 2 ^ a
    → a < 32
    → msg.replica_idx < 32
    → Returns (λ r. r.1 ≡ (if a == msg.replica_idx then xdp_pass else xdp_drop)) (acknowledge m msg)
acknowledge_second m msg entry a t e ha hb =
    let b = msg.replica_idx in
    let count =
      (==_iff (popcount (bit_or (2 ^ a) (2 ^ b))) (if a == b then 1 else 2)).0
        (passes_at _ b hb (passes_at _ a ha pair_table)) in
    rw (acknowledge_lem m msg entry t hb) (
      rw (e, count)
        (elim (Bool-cases (a == b)) [ inl same ↦ rw same refl | inr other ↦ rw other refl ]))

-- What an acknowledgement may do to the maps: nothing, or the bit of its replica in one slot.
abbrev pub Settles : PaxosMaps → PrepareOk → PaxosMaps × ℕ → Type 0
Settles m msg r =
    ((r.0 ≡ m) × (r.1 ≡ xdp_pass))
    ⊎ ((entry : PaxosQuorum) × Tracks m msg entry
        × (r ≡ (
          acknowledged m msg entry (bit_or entry.bitset (2 ^ msg.replica_idx)),
          verdict_of (bit_or entry.bitset (2 ^ msg.replica_idx)),
        )))

acknowledge-Settles :
    (m : PaxosMaps) (msg : PrepareOk)
    → msg.replica_idx < 32
    → Returns (Settles m msg) (acknowledge m msg)
acknowledge-Settles m msg h = elim (Option-cases (m.quorum (slot msg))) [
  | inl e ↦ unfold acknowledge in rw e (inl (refl, refl))
  | inr (entry, e) ↦
      elim (Bool-cases (not (entry.view == msg.view) || not (entry.opnum == msg.opnum))) [
        | inl other ↦ unfold acknowledge in rw e (rw other (inl (refl, refl)))
        | inr same ↦
            let t : Tracks m msg entry = record {
              found = e;
              same_view = ground arith;
              same_opnum = ground arith;
            } in
            rw (acknowledge_lem m msg entry t h) (inr (entry, t, refl))
      ]
]

abbrev pub message_of : Packet → PrepareOk
message_of p = record { view = word_at p 0; opnum = word_at p 4; replica_idx = word_at p 8 }

read_prepareok_lem : (p : Packet) → 12 ≤ length p → read_prepareok p ≡ some (message_of p)
unfolding read_prepareok
read_prepareok_lem p h =
    rw (load32_lem p 0 (omega arith), load32_lem p 4 (omega arith), load32_lem p 8 (omega arith))

-- On every packet whose replica index is below 32 the handler reads nothing outside the packet,
-- and leaves it alone. It drops a packet that is too short for a message; any other it either
-- passes with the maps as they were, or it adds the replica to the set of the operation that the
-- message names, in a slot that tracks that operation in the same view, and gives the verdict of
-- that set.
pub handle_prepareok-Settles :
    (m : PaxosMaps) (p : Packet)
    → word_at p 8 < 32
    → Returns
        (λ r.
          (r.packet ≡ p)
          × (if ltb (length p) 12
              then (r.maps ≡ m) × (r.verdict ≡ xdp_drop)
              else Settles m (message_of p) (r.maps, r.verdict)))
        (handle_prepareok m p)
unfolding handle_prepareok
handle_prepareok-Settles m p h = elim (Bool-cases (ltb (length p) 12)) [
  | inl short ↦ rw short (refl, (refl, refl))
  | inr long ↦ rw long (
      rw (read_prepareok_lem p (ground arith)) (
        Returns-bind _ (acknowledge m (message_of p)) _ (λ r s. (refl, s))
          (acknowledge-Settles m (message_of p) h)))
]
