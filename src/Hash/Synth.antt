-- ===== src/Hash/Synth.antt =====
-- The synthetic harness of examples/synth_test: the three expensive functions of
-- synth_expensive.c, what their stubs of synth_stubs.c and synth_rough_stubs.c admit, and `main`
-- of synth_main.c. The values that `main` leaves symbolic are its arguments.
pub mod Laws
use dram_pvt_mk.Base.{
  ℕ, zero, suc, ◌+◌, ◌-◌, ◌/◌, ◌%◌, ◌^◌, ◌≤◌, ◌<◌, ◌≡◌, List, [], ◌∷◌, Bool, true, false, not, ◌&&◌,
  ◌||◌, ◌==◌, ltb, leb, if◌then◌else◌, length, bit_and, get_or,
}
use dram_pvt_mk.Hash.Fnv.{fnv_step, fnv_offset_basis_32}

-- C's `int`; `negsuc n` is -(n + 1).
pub data ℤ : Type 0 where
  pos : ℕ → ℤ
  negsuc : ℕ → ℤ

abbrev pub leb_int : ℤ → ℤ → Bool
leb_int (pos a) (pos b) = leb a b
leb_int (pos a) (negsuc b) = false
leb_int (negsuc a) (pos b) = true
leb_int (negsuc a) (negsuc b) = leb b a

abbrev pub eq_int : ℤ → ℤ → Bool
eq_int a b = leb_int a b && leb_int b a

abbrev pub num_backends : ℕ
num_backends = 16

abbrev pub key_maxlen : ℕ
key_maxlen = 8

abbrev pub type_unknown : ℤ
type_unknown = negsuc 0

abbrev pub type_prepare : ℤ
type_prepare = pos 0

abbrev pub type_request : ℤ
type_request = pos 1

abbrev pub type_ack : ℤ
type_ack = pos 2

-- The first four bytes of the message.
abbrev pub starts : List ℕ → ℕ → ℕ → ℕ → ℕ → Bool
starts p a b c d =
    get_or p 0 0 == a && (get_or p 1 0 == b && (get_or p 2 0 == c && get_or p 3 0 == d))

-- The list is the message with its length.
unfoldable pub classify_type : List ℕ → ℤ
classify_type p =
    if ltb (length p) 4
    then type_unknown
    else if starts p b'P' b'R' b'E' b'P'
    then type_prepare
    else if starts p b'R' b'E' b'Q' b'U'
    then type_request
    else if starts p b'A' b'C' b'K' b'_'
    then type_ack
    else type_unknown

-- What `hash_payload` returns, and what it stores through `out_key_len`.
pub record PayloadHash : Type 0 where
  pub index : ℕ
  pub out_key_len : ℤ

-- `i < maxlen && key[i] != '\0'`: the first argument counts the rounds left.
unfoldable pub hash_loop : ℕ → List ℕ → ℕ → ℕ → ℕ × ℕ
hash_loop zero key h i = (h, i)
hash_loop (suc left) [] h i = (h, i)
hash_loop (suc left) (c ∷ key) h i =
    let rest = hash_loop left key (fnv_step h c) (i + 1) in if c == 0 then (h, i) else rest

unfoldable pub hash_payload : List ℕ → ℕ → PayloadHash
hash_payload key maxlen =
    let (h, i) = hash_loop maxlen key fnv_offset_basis_32 0 in
    record { index = h % num_backends; out_key_len = pos i }

-- `if (csum >> 16) csum = (csum & 0xffff) + (csum >> 16);`
unfoldable pub fold_round : ℕ → ℕ
fold_round csum = if csum / 2 ^ 16 == 0 then csum else csum % 2 ^ 16 + csum / 2 ^ 16

-- The first argument counts the rounds left.
unfoldable pub fold_loop : ℕ → ℕ → ℕ
fold_loop zero csum = csum
fold_loop (suc left) csum = fold_loop left (fold_round csum)

unfoldable pub fold_csum : ℕ → ℕ
fold_csum csum = 65535 - fold_loop 4 csum % 2 ^ 16

-- The functions that `main` is linked with.
pub record Callees : Type 0 where
  pub classify_type : List ℕ → ℤ
  pub hash_payload : List ℕ → ℕ → PayloadHash
  pub fold_csum : ℕ → ℕ

-- What `klee_assume` lets through in synth_stubs.c; `uint16_t` bounds the checksum.
pub record TightStubs (c : Callees) : Type 0 where
  pub type_low : (p : List ℕ) → leb_int type_unknown (c.classify_type p) ≡ true
  pub type_high : (p : List ℕ) → leb_int (c.classify_type p) type_ack ≡ true
  pub len_low : (key : List ℕ) (n : ℕ) → leb_int (pos 0) (c.hash_payload key n).out_key_len ≡ true
  pub len_high : (key : List ℕ) (n : ℕ) → leb_int (c.hash_payload key n).out_key_len (pos n) ≡ true
  pub index : (key : List ℕ) (n : ℕ) → (c.hash_payload key n).index < num_backends
  pub csum : (csum : ℕ) → c.fold_csum csum < 2 ^ 16

-- What the types of C leave in synth_rough_stubs.c.
pub record RoughStubs (c : Callees) : Type 0 where
  pub index : (key : List ℕ) (n : ℕ) → (c.hash_payload key n).index < 2 ^ 32
  pub csum : (csum : ℕ) → c.fold_csum csum < 2 ^ 16

abbrev pub p1_type_range : ℤ → Bool
p1_type_range type = leb_int type_unknown type && leb_int type type_ack

abbrev pub p2_backend_bounds : ℕ → Bool
p2_backend_bounds idx = ltb idx num_backends

abbrev pub p3_key_len : ℤ → ℤ → Bool
p3_key_len klen maxlen = leb_int (pos 0) klen && leb_int klen maxlen

abbrev pub is_valid_port : ℕ → Bool
is_valid_port port = leb 1024 port

abbrev pub is_primary_backend : ℕ → Bool
is_primary_backend idx = bit_and idx 1 == 0

abbrev pub needs_checksum : ℤ → Bool
needs_checksum type = eq_int type type_request || eq_int type type_ack

abbrev pub clamp_backend : ℕ → ℕ
clamp_backend idx = if ltb idx num_backends then idx else num_backends - 1

-- How `main` ends: with `return 0`, or at the assertion that fails.
pub data Ending : Type 0 where
  returned : Ending
  failed_p1 : Ending
  failed_p2 : Ending
  failed_p3 : Ending

-- `cs` and `is_primary_backend(backend)` are computed and not used.
unfoldable pub main : Callees → List ℕ → ℕ → ℕ → Ending
main c payload src_port raw_csum =
    let type = c.classify_type payload in
    if not (p1_type_range type)
    then failed_p1
    else if eq_int type type_unknown
    then returned
    else if not (is_valid_port src_port)
    then returned
    else let r = c.hash_payload payload key_maxlen in
      if not (p2_backend_bounds r.index)
      then failed_p2
      else if not (p3_key_len r.out_key_len (pos key_maxlen))
      then failed_p3
      else let backend = clamp_backend r.index in
        let cs : ℕ = if needs_checksum type then c.fold_csum raw_csum else 0 in
        let primary : Bool = eq_int type type_prepare && is_primary_backend backend in
        if eq_int type type_request && not (p2_backend_bounds backend) then failed_p2 else returned

-- `main` linked with synth_expensive.c.
abbrev pub real : Callees
real = record {
  classify_type = λ p. classify_type p;
  hash_payload = λ key n. hash_payload key n;
  fold_csum = λ csum. fold_csum csum;
}
