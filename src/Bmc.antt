-- ===== src/Bmc.antt =====
-- The in-kernel cache for memcached, examples/bmc-cache/bmc_kern.c: the state of its maps.
--
-- A handler takes the maps and the packet, and gives the maps, the packet and the return value, or
-- `none` where it dereferences NULL or leaves a buffer.
pub mod Frame
pub mod Filter
pub mod Hashing
pub mod HashKeys
pub mod Invalidate
pub mod Update
pub mod Coherence
pub mod Serve
pub mod Prepare
pub mod Reply
use dram_pvt_mk.Base.{ℕ, List, Bool, ◌+◌, ◌<◌, ◌≡◌, some, length}
use dram_pvt_mk.Base.Table.{Table}
use dram_pvt_mk.Base.Bytes.{Packet}

-- BMC_MAX_CACHE_DATA_SIZE
abbrev pub max_cache_data_size : ℕ
max_cache_data_size = 250 + 1000 + 53

abbrev pub max_packet_length : ℕ
max_packet_length = 1500

abbrev pub bmc_cache_entry_count : ℕ
bmc_cache_entry_count = 2

abbrev pub max_key_in_packet : ℕ
max_key_in_packet = 30

-- The distance of the memcached text of a UDP packet from `data`: the headers, and the eight bytes
-- of `struct memcached_udp_header`.
abbrev pub memcached_payload : ℕ
memcached_payload = 14 + 20 + 8 + 8

abbrev pub adjust_head_len : ℕ
adjust_head_len = 128

-- The lock is left out: the code that takes it is commented out.
pub record CacheEntry : Type 0 where
  pub len : ℕ
  pub valid : Bool
  pub hash : ℕ
  pub data_bytes : List ℕ

pub record MemcachedKey : Type 0 where
  pub hash : ℕ
  pub data_bytes : List ℕ
  pub len : ℕ

pub record ParsingContext : Type 0 where
  pub key_count : ℕ
  pub current_key : ℕ
  pub read_pkt_offset : ℕ
  pub write_pkt_offset : ℕ

pub record BmcStats : Type 0 where
  pub get_recv_count : ℕ
  pub set_recv_count : ℕ
  pub get_resp_count : ℕ
  pub hit_misprediction : ℕ
  pub hit_count : ℕ
  pub miss_count : ℕ
  pub update_count : ℕ
  pub invalidation_count : ℕ

-- The four maps that the handlers share.
pub record Maps : Type 0 where
  pub kcache : Table CacheEntry
  pub keys : Table MemcachedKey
  pub parsing_context : Table ParsingContext
  pub stats : Table BmcStats

pub record Run : Type 0 where
  pub maps : Maps
  pub packet : Packet
  pub verdict : ℕ

-- Every slot of the cache exists, as in an array map of two entries, and its buffer is whole.
pub record IsArray (m : Maps) : Type 0 where
  pub slot :
      (i : ℕ)
      → i < bmc_cache_entry_count
      → (e : CacheEntry) × (m.kcache i ≡ some e) × (length e.data_bytes ≡ max_cache_data_size)
