-- ===== src/Paxos/Quorum.antt =====
-- `HandlePrepareOK_main` of examples/electrode/fast_kern.c: the replicas that acknowledged an
-- operation, as a set of bits.
pub mod Laws
use dram_pvt_mk.Base.{
  ℕ, zero, suc, ◌+◌, ◌-◌, ◌/◌, ◌%◌, ◌^◌, Bool, ◌||◌, not, ◌==◌, if◌then◌else◌, ltb, Option, none,
  some, length, bit_and, bit_or,
}
use dram_pvt_mk.Base.Table.{store, or_return}
use dram_pvt_mk.Base.Bytes.{Packet, ◌>>=◌, load32}
use dram_pvt_mk.Base.Xdp.{xdp_drop, xdp_pass}
use dram_pvt_mk.Paxos.{
  PaxosMaps, PaxosQuorum, PaxosRun, quorum_bitset_entry, quorum_size, fast_paxos_data_len,
}

-- `__builtin_popcount`, over `n` binary digits.
unfoldable pub ones : ℕ → ℕ → ℕ
ones zero x = 0
ones (suc n) x = x % 2 + ones n (x / 2)

abbrev pub popcount : ℕ → ℕ
popcount x = ones 32 x

-- `1 << idx` on `int`, which the language defines up to 31 bits only.
unfoldable pub replica_bit : ℕ → Option ℕ
replica_bit idx = if ltb idx 32 then some (2 ^ idx) else none

-- The fields of a message.
pub record PrepareOk : Type 0 where
  pub view : ℕ
  pub opnum : ℕ
  pub replica_idx : ℕ

unfoldable pub read_prepareok : Packet → Option PrepareOk
read_prepareok p = do
  v ← load32 p 0
  o ← load32 p 4
  r ← load32 p 8
  some (record { view = v; opnum = o; replica_idx = r })

-- What is done once the message is read.
unfoldable pub acknowledge : PaxosMaps → PrepareOk → Option (PaxosMaps × ℕ)
unfolding replica_bit
acknowledge m msg =
    let idx = bit_and msg.opnum (quorum_bitset_entry - 1) in
    let pass : Option (PaxosMaps × ℕ) = some (m, xdp_pass) in
    or_return (m.quorum idx) pass λ entry.
      if not (entry.view == msg.view) || not (entry.opnum == msg.opnum)
      then pass
      else replica_bit msg.replica_idx >>= λ bit.
          let bitset = bit_or entry.bitset bit in
          let m' = record m { quorum = store m.quorum idx (record entry { bitset = bitset }) } in
          some (m', (if popcount bitset == quorum_size - 1 then xdp_pass else xdp_drop))

-- The lookup of `map_msg_lastOp` at the end has no effect.
unfoldable pub handle_prepareok : PaxosMaps → Packet → Option PaxosRun
unfolding read_prepareok acknowledge
handle_prepareok m p =
    let drop : Option PaxosRun = some (record { maps = m; packet = p; verdict = xdp_drop }) in
    let run = read_prepareok p >>= λ msg.
    acknowledge m msg >>= λ r. some (record { maps = r.0; packet = p; verdict = r.1 }) in
    if ltb (length p) fast_paxos_data_len then drop else run
