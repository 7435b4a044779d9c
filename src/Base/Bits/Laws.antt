-- ===== src/Base/Bits/Laws.antt =====
-- The laws themselves, by strong induction on the words: a step goes to both halves.
use Prim.Native.Nat.{ℕ, zero, suc, ◌+◌, ◌*◌, ◌/◌, ◌%◌, ◌^◌, ◌≤◌, ◌<◌, bit_and, bit_or, bit_xor}
use mathlib.Core.Path.{◌≡◌, ap}
use native.Mathlib.Nat.{pow-suc}
use native.Mathlib.Omega.{arith}
use package.dram_pvt_mk.Base.Bits.Step.{bit_or_step, bit_and_step, bit_xor_step}

-- Each induction is on a bound `n` of the words.
bit_or_comm_below : (n a b : ℕ) → a ≤ n → b ≤ n → bit_or a b ≡ bit_or b a
bit_or_comm_below zero a b p q = rw (let e : a ≡ b = omega arith in e)
bit_or_comm_below (suc n) a b p q = omega (
  arith,
  bit_or_step a b,
  bit_or_step b a,
  bit_or_comm_below n (a / 2) (b / 2) (omega arith) (omega arith),
)

pub bit_or_comm : (a b : ℕ) → bit_or a b ≡ bit_or b a
bit_or_comm a b = bit_or_comm_below (a + b) a b (omega arith) (omega arith)

pub bit_or-zero : (n a : ℕ) → a ≤ n → bit_or a 0 ≡ a
bit_or-zero zero a p = rw (let e : a ≡ 0 = omega arith in e)
bit_or-zero (suc n) a p = omega (arith, bit_or_step a 0, bit_or-zero n (a / 2) (omega arith))

bit_or_self_below : (n a : ℕ) → a ≤ n → bit_or a a ≡ a
bit_or_self_below zero a p = rw (let e : a ≡ 0 = omega arith in e)
bit_or_self_below (suc n) a p =
    omega (arith, bit_or_step a a, bit_or_self_below n (a / 2) (omega arith))

pub bit_or_self : (a : ℕ) → bit_or a a ≡ a
bit_or_self a = bit_or_self_below a a (omega arith)

-- The halves and the digits of a result, for rewriting under another operation.
bit_or_half : (a b : ℕ) → bit_or a b / 2 ≡ bit_or (a / 2) (b / 2)
bit_or_half a b = omega (arith, bit_or_step a b)

bit_xor_half : (a b : ℕ) → bit_xor a b / 2 ≡ bit_xor (a / 2) (b / 2)
bit_xor_half a b = omega (arith, bit_xor_step a b)

bit_or_assoc_below :
    (n a b c : ℕ) → a ≤ n → b ≤ n → c ≤ n → bit_or (bit_or a b) c ≡ bit_or a (bit_or b c)
bit_or_assoc_below zero a b c p q r = rw (
  let e : a ≡ 0 = omega arith in e,
  let e : b ≡ 0 = omega arith in e,
  let e : c ≡ 0 = omega arith in e,
)
bit_or_assoc_below (suc n) a b c p q r = ground (
  arith,
  bit_or_step (bit_or a b) c,
  bit_or_step a (bit_or b c),
  bit_or_step a b,
  bit_or_step b c,
  bit_or_half a b,
  bit_or_half b c,
  bit_or_assoc_below n (a / 2) (b / 2) (c / 2) (omega arith) (omega arith) (omega arith),
)

pub bit_or_assoc : (a b c : ℕ) → bit_or (bit_or a b) c ≡ bit_or a (bit_or b c)
bit_or_assoc a b c = bit_or_assoc_below (a + b + c) a b c (omega arith) (omega arith) (omega arith)

pub bit_xor-zero : (n a : ℕ) → a ≤ n → bit_xor a 0 ≡ a
bit_xor-zero zero a p = rw (let e : a ≡ 0 = omega arith in e)
bit_xor-zero (suc n) a p = omega (arith, bit_xor_step a 0, bit_xor-zero n (a / 2) (omega arith))

-- `a ^ b ^ b` is `a`.
bit_xor_undo_below : (n a b : ℕ) → a ≤ n → b ≤ n → bit_xor (bit_xor a b) b ≡ a
bit_xor_undo_below zero a b p q =
    rw (let e : a ≡ 0 = omega arith in e, let e : b ≡ 0 = omega arith in e)
bit_xor_undo_below (suc n) a b p q = ground (
  arith,
  bit_xor_step (bit_xor a b) b,
  bit_xor_step a b,
  bit_xor_half a b,
  bit_xor_undo_below n (a / 2) (b / 2) (omega arith) (omega arith),
)

pub bit_xor_undo : (a b : ℕ) → bit_xor (bit_xor a b) b ≡ a
bit_xor_undo a b = bit_xor_undo_below (a + b) a b (omega arith) (omega arith)

-- Words of `k` bits have a `|` and a `^` of `k` bits.
pub bit_xor-lt : (k a b : ℕ) → a < 2 ^ k → b < 2 ^ k → bit_xor a b < 2 ^ k
bit_xor-lt zero a b p q =
    rw (let e : a ≡ 0 = omega arith in e, let e : b ≡ 0 = omega arith in e) (omega arith)
bit_xor-lt (suc k) a b p q = ground (
  arith,
  pow-suc 2 k,
  bit_xor_step a b,
  bit_xor-lt k (a / 2) (b / 2) (omega (arith, pow-suc 2 k)) (omega (arith, pow-suc 2 k)),
)

pub bit_or-lt : (k a b : ℕ) → a < 2 ^ k → b < 2 ^ k → bit_or a b < 2 ^ k
bit_or-lt zero a b p q =
    rw (let e : a ≡ 0 = omega arith in e, let e : b ≡ 0 = omega arith in e) (omega arith)
bit_or-lt (suc k) a b p q = ground (
  arith,
  pow-suc 2 k,
  bit_or_step a b,
  bit_or-lt k (a / 2) (b / 2) (omega (arith, pow-suc 2 k)) (omega (arith, pow-suc 2 k)),
)

-- A mask of `k` low bits is the remainder by `2 ^ k`.
bit_and-zero : (n a : ℕ) → a ≤ n → bit_and a 0 ≡ 0
bit_and-zero zero a p = rw (let e : a ≡ 0 = omega arith in e)
bit_and-zero (suc n) a p = omega (arith, bit_and_step a 0, bit_and-zero n (a / 2) (omega arith))

bit_and_odd : (a m : ℕ) → bit_and a (2 * m + 1) ≡ bit_and (a / 2) m * 2 + a % 2
bit_and_odd a m =
    let half : (2 * m + 1) / 2 ≡ m = omega arith in
    let odd : (2 * m + 1) % 2 ≡ 1 = omega arith in
    omega (arith, bit_and_step a (2 * m + 1), ap (bit_and (a / 2)) half)

-- The masks of one, two, four, eight and ten low bits.
pub bit_and_one : (a : ℕ) → bit_and a 1 ≡ a % 2
bit_and_one a = omega (arith, bit_and_odd a 0, bit_and-zero (a / 2) (a / 2) (omega arith))

pub bit_and_three : (a : ℕ) → bit_and a 3 ≡ a % 4
bit_and_three a = omega (arith, bit_and_odd a 1, bit_and_one (a / 2))

pub bit_and_seven : (a : ℕ) → bit_and a 7 ≡ a % 8
bit_and_seven a = omega (arith, bit_and_odd a 3, bit_and_three (a / 2))

pub bit_and_nibble : (a : ℕ) → bit_and a 15 ≡ a % 16
bit_and_nibble a = omega (arith, bit_and_odd a 7, bit_and_seven (a / 2))

pub bit_and_byte : (a : ℕ) → bit_and a 255 ≡ a % 256
bit_and_byte a = omega (
  arith,
  bit_and_odd a 127,
  bit_and_odd (a / 2) 63,
  bit_and_odd (a / 2 / 2) 31,
  bit_and_odd (a / 2 / 2 / 2) 15,
  bit_and_nibble (a / 2 / 2 / 2 / 2),
)

pub bit_and_1023 : (a : ℕ) → bit_and a 1023 ≡ a % 1024
bit_and_1023 a = omega (arith, bit_and_odd a 511, bit_and_odd (a / 2) 255, bit_and_byte (a / 2 / 2))

-- A shifted field, one bit further.
shift_suc : (q k : ℕ) → q * 2 ^ suc k ≡ 2 * (q * 2 ^ k)
shift_suc q k = omega (arith, ap (◌*◌ q) (pow-suc 2 k))

-- `r | q << k` where `r` fits the `k` bits.
pub bit_or_high : (k r q : ℕ) → r < 2 ^ k → bit_or r (q * 2 ^ k) ≡ r + q * 2 ^ k
bit_or_high zero r q fits =
    let e : r ≡ 0 = omega arith in
    rw e (omega (arith, bit_or_comm 0 (q * 1), bit_or-zero (q * 1) (q * 1) (omega arith)))
bit_or_high (suc k) r q fits = omega (
  arith,
  bit_or_step r (q * 2 ^ suc k),
  shift_suc q k,
  ap (bit_or (r / 2)) {x = q * 2 ^ suc k / 2} {y = q * 2 ^ k} (omega (arith, shift_suc q k)),
  bit_or_high k (r / 2) q (omega (arith, pow-suc 2 k)),
)

-- `^` works on the two bytes of a 16-bit word apart.
pub bit_xor_high :
    (k h q r : ℕ) → r < 2 ^ k → bit_xor (h * 2 ^ k + r) (q * 2 ^ k) ≡ bit_xor h q * 2 ^ k + r
bit_xor_high zero h q r p =
    let e : r ≡ 0 = omega arith in
    let f : h * 1 + r ≡ h = omega arith in
    let g : q * 1 ≡ q = omega arith in rw (f, g) (omega arith)
bit_xor_high (suc k) h q r p = ground (
  arith,
  bit_xor_step (h * 2 ^ suc k + r) (q * 2 ^ suc k),
  shift_suc h k,
  shift_suc q k,
  shift_suc (bit_xor h q) k,
  bit_xor_high k h q (r / 2) (omega (arith, pow-suc 2 k)),
)

pub bit_xor_low :
    (k h q r : ℕ) → r < 2 ^ k → q < 2 ^ k → bit_xor (h * 2 ^ k + r) q ≡ h * 2 ^ k + bit_xor r q
bit_xor_low zero h q r p s =
    let e : r ≡ 0 = omega arith in
    let f : q ≡ 0 = omega arith in
    let g : h * 1 + 0 ≡ h = omega arith in
    rw (e, f, g) (omega (arith, bit_xor-zero h h (omega arith)))
bit_xor_low (suc k) h q r p s = ground (
  arith,
  bit_xor_step (h * 2 ^ suc k + r) q,
  bit_xor_step r q,
  shift_suc h k,
  bit_xor_low k h (q / 2) (r / 2) (omega (arith, pow-suc 2 k)) (omega (arith, pow-suc 2 k)),
)

bit_xor_comm_below : (n a b : ℕ) → a ≤ n → b ≤ n → bit_xor a b ≡ bit_xor b a
bit_xor_comm_below zero a b p q = rw (let e : a ≡ b = omega arith in e)
bit_xor_comm_below (suc n) a b p q = omega (
  arith,
  bit_xor_step a b,
  bit_xor_step b a,
  bit_xor_comm_below n (a / 2) (b / 2) (omega arith) (omega arith),
)

pub bit_xor_comm : (a b : ℕ) → bit_xor a b ≡ bit_xor b a
bit_xor_comm a b = bit_xor_comm_below (a + b) a b (omega arith) (omega arith)

pub bit_xor_cancel : (a b c : ℕ) → bit_xor a c ≡ bit_xor b c → a ≡ b
bit_xor_cancel a b c h = cc (bit_xor_undo a c, bit_xor_undo b c)
