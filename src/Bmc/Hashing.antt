-- ===== src/Bmc/Hashing.antt =====
-- The key hashes of the handlers, all over `char`s, which are sign-extended before the `^`.
use dram_pvt_mk.Base.{
  ℕ, zero, suc, ◌+◌, List, [], ◌∷◌, true, false, ◌==◌, if◌then◌else◌, char_to_u32, refl, ◌≡◌, ◌<◌,
  ◌≤◌, arith, length, All, ◌++◌,
}
use dram_pvt_mk.Hash.Fnv.{fnv_step, is_stop, KeyHash, fnv_loop, fnv_offset_basis_32}

-- `hash ^= payload[off]; hash *= FNV_PRIME_32;`
unfoldable pub char_step : ℕ → ℕ → ℕ
char_step hash c = fnv_step hash (char_to_u32 c)

-- The loop of `bmc_hash_keys_main`.
unfoldable pub key_loop : ℕ → List ℕ → ℕ → ℕ → KeyHash
key_loop zero payload hash key_len = record { hash = hash; key_len = key_len }
key_loop (suc left) [] hash key_len = record { hash = hash; key_len = key_len }
key_loop (suc left) (c ∷ payload) hash key_len =
    let rest = key_loop left payload (char_step hash c) (key_len + 1) in
    if is_stop c then record { hash = hash; key_len = key_len } else rest

-- The loop of `bmc_update_cache_main`, which stops at ' ' alone.
unfoldable pub reply_loop : ℕ → List ℕ → ℕ → ℕ
reply_loop zero payload hash = hash
reply_loop (suc left) [] hash = hash
reply_loop (suc left) (c ∷ payload) hash =
    let rest = reply_loop left payload (char_step hash c) in if c == 32 then hash else rest

-- The hash of a whole key: what all the loops are meant to compute.
abbrev pub key_hash_from : ℕ → List ℕ → ℕ
key_hash_from hash [] = hash
key_hash_from hash (c ∷ key) = key_hash_from (char_step hash c) key

unfoldable pub key_hash : List ℕ → ℕ
key_hash key = key_hash_from fnv_offset_basis_32 key

-- A byte that no loop takes for the end of a key.
abbrev pub IsKeyByte : ℕ → Type 0
IsKeyByte c = is_stop c ≡ false

abbrev pub IsKey : List ℕ → Type 0
IsKey key = All IsKeyByte key

-- A key and the stop byte behind it.
pub key_loop-append :
    (n : ℕ) (key : List ℕ) (stop : ℕ) (rest : List ℕ) (hash k : ℕ)
    → IsKey key
    → is_stop stop ≡ true
    → length key < n
    → key_loop n (key ++ stop ∷ rest) hash k
      ≡ record { hash = key_hash_from hash key; key_len = k + length key }
unfolding key_loop
key_loop-append zero key stop rest hash k w s h = absurd (omega arith)
key_loop-append (suc n) [] stop rest hash k w s h = ground arith
key_loop-append (suc n) (c ∷ key) stop rest hash k w s h =
    ground (arith, key_loop-append n key stop rest (char_step hash c) (k + 1) w.1 s (omega arith))

-- A key that fills the packet, or all the rounds.
pub key_loop-whole :
    (n : ℕ) (key : List ℕ) (hash k : ℕ)
    → IsKey key
    → length key ≤ n
    → key_loop n key hash k ≡ record { hash = key_hash_from hash key; key_len = k + length key }
unfolding key_loop
key_loop-whole zero [] hash k w h = ground arith
key_loop-whole zero (c ∷ key) hash k w h = absurd (omega arith)
key_loop-whole (suc n) [] hash k w h = ground arith
key_loop-whole (suc n) (c ∷ key) hash k w h =
    ground (arith, key_loop-whole n key (char_step hash c) (k + 1) w.1 (omega arith))

pub reply_loop-append :
    (n : ℕ) (key rest : List ℕ) (hash : ℕ)
    → IsKey key
    → length key ≤ n
    → reply_loop n (key ++ 32 ∷ rest) hash ≡ key_hash_from hash key
unfolding reply_loop
reply_loop-append zero [] rest hash w h = refl
reply_loop-append zero (c ∷ key) rest hash w h = absurd (omega arith)
reply_loop-append (suc n) [] rest hash w h = refl
reply_loop-append (suc n) (c ∷ key) rest hash w h =
    ground (arith, reply_loop-append n key rest (char_step hash c) w.1 (omega arith))

pub key_len-le :
    (n : ℕ) (payload : List ℕ) (hash k : ℕ) → (key_loop n payload hash k).key_len ≤ k + n
unfolding key_loop
key_len-le zero payload hash k = omega arith
key_len-le (suc n) [] hash k = omega arith
key_len-le (suc n) (c ∷ payload) hash k =
    ground (arith, key_len-le n payload (char_step hash c) (k + 1))

-- On a request of ASCII bytes the loop of `bmc_hash_keys_main` computes what `fnv_hash` of
-- examples/ai_demo computes; on a byte from 0x80 on the first exclusive-ors 24 more bits.
pub key_loop-eq-fnv_loop :
    (n : ℕ) (payload : List ℕ) (hash k : ℕ)
    → All (λ c. c < 128) payload
    → key_loop n payload hash k ≡ fnv_loop n payload hash k
unfolding key_loop fnv_loop char_step
key_loop-eq-fnv_loop zero payload hash k w = refl
key_loop-eq-fnv_loop (suc n) [] hash k w = refl
key_loop-eq-fnv_loop (suc n) (c ∷ payload) hash k w =
    ground (arith, key_loop-eq-fnv_loop n payload (fnv_step hash c) (k + 1) w.1)
