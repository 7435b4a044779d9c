-- ===== src/Hash/Fnv/Stops.antt =====
-- Where the key loop stops: an independent description of the key, and the loop's result by it.
use dram_pvt_mk.Base.{ℕ, zero, suc, ◌+◌, ◌≤◌, ◌≡◌, arith, List, [], ◌∷◌, if◌then◌else◌, length}
use dram_pvt_mk.Hash.Fnv.{fnv_step, fnv_loop, fnv_hash, fnv_offset_basis_32, is_stop}

-- The hash of a whole key, byte after byte.
abbrev pub fnv_of : ℕ → List ℕ → ℕ
fnv_of hash [] = hash
fnv_of hash (c ∷ key) = fnv_of (fnv_step hash c) key

-- The bytes of `payload` before the first stop byte, `n` at most.
abbrev pub key_of : ℕ → List ℕ → List ℕ
key_of zero payload = []
key_of (suc n) [] = []
key_of (suc n) (c ∷ payload) = let rest = key_of n payload in if is_stop c then [] else c ∷ rest

pub fnv_loop-eq-fnv_of :
    (n : ℕ) (payload : List ℕ) (hash k : ℕ)
    → fnv_loop n payload hash k
      ≡ record { hash = fnv_of hash (key_of n payload); key_len = k + length (key_of n payload) }
unfolding fnv_loop
fnv_loop-eq-fnv_of zero payload hash k = ground arith
fnv_loop-eq-fnv_of (suc n) [] hash k = ground arith
fnv_loop-eq-fnv_of (suc n) (c ∷ payload) hash k =
    ground (arith, fnv_loop-eq-fnv_of n payload (fnv_step hash c) (k + 1))

pub length-key_of-le : (n : ℕ) (payload : List ℕ) → length (key_of n payload) ≤ n
length-key_of-le zero payload = omega arith
length-key_of-le (suc n) [] = omega arith
length-key_of-le (suc n) (c ∷ payload) = ground (arith, length-key_of-le n payload)

-- `fnv_hash` hashes the bytes before the first '\r' or ' ', at most 251 of them, and returns
-- their number.
pub fnv_hash_lem :
    (payload : List ℕ)
    → ((fnv_hash payload).hash ≡ fnv_of fnv_offset_basis_32 (key_of 251 payload))
      × ((fnv_hash payload).key_len ≡ length (key_of 251 payload))
unfolding fnv_hash
fnv_hash_lem payload = ground (arith, fnv_loop-eq-fnv_of 251 payload fnv_offset_basis_32 0)
