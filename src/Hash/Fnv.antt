-- ===== src/Hash/Fnv.antt =====
-- The FNV-1a loops: examples/ai_demo/fnv_hash.c, examples/bmc-cache/bmc_hash_keys.c and its stub,
-- examples/perbyte_loop_explosion/perbyte_hash.c and its stub.
--
-- A buffer `payload[0..len)` is the list of its bytes, and a counted loop recurs on the rounds left.
pub mod Stops
pub mod Summary
use dram_pvt_mk.Base.{
  ℕ, zero, suc, ◌+◌, ◌%◌, bit_xor, mul32, List, [], ◌∷◌, Bool, ◌||◌, ◌==◌, if◌then◌else◌,
}

abbrev pub fnv_offset_basis_32 : ℕ
fnv_offset_basis_32 = 2166136261

abbrev pub fnv_prime_32 : ℕ
fnv_prime_32 = 16777619

-- `hash ^= c; hash *= FNV_PRIME_32;` on a `uint32_t`.
unfoldable pub fnv_step : ℕ → ℕ → ℕ
fnv_step hash c = mul32 (bit_xor hash c) fnv_prime_32

-- '\r' or ' ', the bytes that end a key.
abbrev pub is_stop : ℕ → Bool
is_stop c = c == 13 || c == 32

-- What a key-hashing loop leaves: the hash and the bytes that it took.
pub record KeyHash : Type 0 where
  pub hash : ℕ
  pub key_len : ℕ

abbrev pub bmc_max_key_length : ℕ
bmc_max_key_length = 250

-- `off < BMC_MAX_KEY_LENGTH + 1 && off + 1 <= len`: the first argument counts the rounds left.
unfoldable pub fnv_loop : ℕ → List ℕ → ℕ → ℕ → KeyHash
fnv_loop zero payload hash key_len = record { hash = hash; key_len = key_len }
fnv_loop (suc left) [] hash key_len = record { hash = hash; key_len = key_len }
fnv_loop (suc left) (c ∷ payload) hash key_len =
    let rest = fnv_loop left payload (fnv_step hash c) (key_len + 1) in
    if is_stop c then record { hash = hash; key_len = key_len } else rest

-- `hash` is what goes through `out_hash`, `key_len` what is returned.
unfoldable pub fnv_hash : List ℕ → KeyHash
unfolding fnv_loop
fnv_hash payload = fnv_loop (bmc_max_key_length + 1) payload fnv_offset_basis_32 0

abbrev pub cache_entry_count : ℕ
cache_entry_count = 3250

-- `hash` is the returned cache index, `key_len` what goes through `out_key_len`.
unfoldable pub bmc_hash_keys : List ℕ → KeyHash
unfolding fnv_loop
bmc_hash_keys payload =
    let r = fnv_loop (bmc_max_key_length + 1) payload fnv_offset_basis_32 0 in
    record r { hash = r.hash % cache_entry_count }

-- What `perbyte_hash` returns, and what it stores through `out_matches`.
pub record PerbyteHash : Type 0 where
  pub result : ℕ
  pub matches : ℕ

abbrev pub loop_bound : ℕ
loop_bound = 32

unfoldable pub perbyte_loop : ℕ → List ℕ → ℕ → ℕ → PerbyteHash
perbyte_loop zero payload hash matches = record { result = hash % 1000; matches = matches }
perbyte_loop (suc left) [] hash matches = record { result = hash % 1000; matches = matches }
perbyte_loop (suc left) (c ∷ payload) hash matches =
    let space = perbyte_loop left payload hash (matches + 1) in
    let other = perbyte_loop left payload (fnv_step hash c) matches in
    if c == 13
    then record { result = hash % 1000; matches = matches }
    else if c == 32
    then space
    else other

unfoldable pub perbyte_hash : List ℕ → PerbyteHash
unfolding perbyte_loop
perbyte_hash payload = perbyte_loop loop_bound payload fnv_offset_basis_32 0
