-- ===== src/Paxos.antt =====
-- The in-kernel fast path of a replicated log, examples/electrode/fast_kern.c: its maps.
--
-- A tail call runs the program that the program array holds, and does not come back.
pub mod Message
pub mod Quorum
pub mod Prepare
pub mod Request
pub mod Dispatch
pub mod Reply
use dram_pvt_mk.Base.{ℕ, List, ◌+◌, ◌/◌}
use dram_pvt_mk.Base.Table.{Table}
use dram_pvt_mk.Base.Bytes.{Packet}

abbrev pub cluster_size : ℕ
cluster_size = 3

abbrev pub quorum_size : ℕ
quorum_size = (cluster_size + 1) / 2

abbrev pub quorum_bitset_entry : ℕ
quorum_bitset_entry = 1024

abbrev pub nonfrag_magic : ℕ
nonfrag_magic = 0x20050318

abbrev pub magic_len : ℕ
magic_len = 4

abbrev pub request_type_len : ℕ
request_type_len = 33

abbrev pub prepare_type_len : ℕ
prepare_type_len = 33

abbrev pub prepareok_type_len : ℕ
prepareok_type_len = 35

abbrev pub myprepareok_type_len : ℕ
myprepareok_type_len = 24

abbrev pub fast_paxos_data_len : ℕ
fast_paxos_data_len = 12

-- Where the text behind the UDP header begins.
abbrev pub udp_payload : ℕ
udp_payload = 14 + 20 + 8

abbrev pub mtu : ℕ
mtu = 1500

abbrev pub max_data_len : ℕ
max_data_len = 64

abbrev pub req_max_data_len : ℕ
req_max_data_len = 128

pub data ReplicaStatus : Type 0 where
  normal : ReplicaStatus
  view_change : ReplicaStatus
  recovering : ReplicaStatus

-- No program reads the hardware address `eth`.
pub record PaxosConfigure : Type 0 where
  pub addr : ℕ
  pub port : ℕ

pub record PaxosQuorum : Type 0 where
  pub view : ℕ
  pub opnum : ℕ
  pub bitset : ℕ

-- The `int` fields are held as the unsigned values of their 32 bits.
pub record CtrState : Type 0 where
  pub status : ReplicaStatus
  pub my_idx : ℕ
  pub leader_idx : ℕ
  pub batch_size : ℕ
  pub view : ℕ
  pub last_op : ℕ

-- The maps; of each ring buffer, the entries that were submitted, oldest first.
pub record PaxosMaps : Type 0 where
  pub configure : Table PaxosConfigure
  pub ctr_state : Table CtrState
  pub msg_last_op : Table ℕ
  pub quorum : Table PaxosQuorum
  pub batch_context : Table ℕ
  pub prepare_buffer : List (List ℕ)
  pub request_buffer : List (List ℕ)

pub record PaxosRun : Type 0 where
  pub maps : PaxosMaps
  pub packet : Packet
  pub verdict : ℕ
