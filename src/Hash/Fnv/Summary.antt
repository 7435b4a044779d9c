-- ===== src/Hash/Fnv/Summary.antt =====
-- The summaries of the two loops that the symbolic executor runs in their place,
-- examples/bmc-cache/bmc_hash_keys_stub.c and
-- examples/perbyte_loop_explosion/perbyte_hash_stub.c. A stub returns symbolic values under
-- `klee_assume`: it is the set of the outcomes that it lets through.
use dram_pvt_mk.Base.{
  ℕ, zero, suc, ◌+◌, ◌%◌, ◌≤◌, ◌<◌, ◌≡◌, refl, arith, List, [], ◌∷◌, ◌==◌, if◌then◌else◌, length,
  ap,
}
use dram_pvt_mk.Hash.Fnv.{
  fnv_step, fnv_offset_basis_32, KeyHash, bmc_hash_keys, PerbyteHash, perbyte_loop, perbyte_hash,
  fnv_hash, cache_entry_count, loop_bound,
}
use dram_pvt_mk.Hash.Fnv.Stops.{fnv_loop-eq-fnv_of, key_of, length-key_of-le}

abbrev pub BmcHashKeysStub : KeyHash → Type 0
BmcHashKeysStub r = (r.key_len ≤ 251) × (r.hash < cache_entry_count)

abbrev pub PerbyteHashStub : PerbyteHash → Type 0
PerbyteHashStub r = (r.matches ≤ 32) × (r.result < 1000)

-- The key length and the index that `bmc_hash_keys` gives are among those that its stub admits.
pub bmc_hash_keys-BmcHashKeysStub : (payload : List ℕ) → BmcHashKeysStub (bmc_hash_keys payload)
unfolding bmc_hash_keys
bmc_hash_keys-BmcHashKeysStub payload =
    ground
      (arith, fnv_loop-eq-fnv_of 251 payload fnv_offset_basis_32 0, length-key_of-le 251 payload)

abbrev pub letters : ℕ → List ℕ
letters zero = []
letters (suc n) = b'a' ∷ letters n

key_of-letters : (n m : ℕ) → m ≤ n → length (key_of n (letters m)) ≡ m
key_of-letters zero m h = omega arith
key_of-letters (suc n) zero h = refl
key_of-letters (suc n) (suc m) h = ap suc (key_of-letters n m (omega arith))

-- The stub admits no key length in vain: each one up to 251 is that of some request, so a bound of
-- 250, BMC_MAX_KEY_LENGTH, would be unsound.
pub bmc_hash_keys-key_len_tight :
    (n : ℕ) → n ≤ 251 → (payload : List ℕ) × ((bmc_hash_keys payload).key_len ≡ n)
unfolding bmc_hash_keys
bmc_hash_keys-key_len_tight n h = (
  letters n,
  ground (arith, fnv_loop-eq-fnv_of 251 (letters n) fnv_offset_basis_32 0, key_of-letters 251 n h),
)

-- `bmc_hash_keys` and `fnv_hash` take the same key from a request, and the index is the hash
-- modulo the number of cache entries.
pub bmc_hash_keys-fnv_hash :
    (payload : List ℕ)
    → ((bmc_hash_keys payload).key_len ≡ (fnv_hash payload).key_len)
      × ((bmc_hash_keys payload).hash ≡ (fnv_hash payload).hash % cache_entry_count)
unfolding bmc_hash_keys fnv_hash
bmc_hash_keys-fnv_hash payload = (refl, refl)

-- The spaces before the first '\r', among the first `n` bytes.
abbrev pub spaces : ℕ → List ℕ → ℕ
spaces zero payload = 0
spaces (suc n) [] = 0
spaces (suc n) (c ∷ payload) =
    let rest = spaces n payload in if c == 13 then 0 else if c == 32 then suc rest else rest

spaces-le : (n : ℕ) (payload : List ℕ) → spaces n payload ≤ n
spaces-le zero payload = omega arith
spaces-le (suc n) [] = omega arith
spaces-le (suc n) (c ∷ payload) = ground (arith, spaces-le n payload)

perbyte_loop_lem :
    (n : ℕ) (payload : List ℕ) (hash m : ℕ)
    → ((perbyte_loop n payload hash m).matches ≡ m + spaces n payload)
      × ((perbyte_loop n payload hash m).result < 1000)
unfolding perbyte_loop
perbyte_loop_lem zero payload hash m = omega arith
perbyte_loop_lem (suc n) [] hash m = omega arith
perbyte_loop_lem (suc n) (c ∷ payload) hash m =
    ground (
      arith,
      perbyte_loop_lem n payload hash (m + 1),
      perbyte_loop_lem n payload (fnv_step hash c) m,
    )

-- `perbyte_hash` counts the spaces before the first '\r' of the first 32 bytes, and what it gives
-- is among the outcomes that its stub admits.
pub perbyte_hash-PerbyteHashStub :
    (payload : List ℕ)
    → ((perbyte_hash payload).matches ≡ spaces loop_bound payload)
      × PerbyteHashStub (perbyte_hash payload)
unfolding perbyte_hash
perbyte_hash-PerbyteHashStub payload =
    ground (arith, perbyte_loop_lem 32 payload fnv_offset_basis_32 0, spaces-le 32 payload)
