-- ===== src/Base/Bits/Step.antt =====
-- One equation for the lowest binary digit of each bit operation.
use Prim.Native.Nat.{
  ℕ, zero, suc, ◌+◌, ◌-◌, ◌*◌, ◌/◌, ◌%◌, ◌≤◌, ◌<◌, min, max, bit_and, bit_or, bit_xor, digits,
  bitwise, bit_and-bitwise, bit_or-bitwise, bit_xor-bitwise, differ,
}
use mathlib.Core.Path.{◌≡◌, refl, ap, ◌∙◌}
use native.Mathlib.Omega.{arith}

-- The library recurs on a count of digits. Counting more digits than a word has is of no effect.
module _ (last : ℕ → ℕ) (op : ℕ → ℕ → ℕ) where
  abbrev run : ℕ → ℕ → ℕ → ℕ
  run = digits last op

  one_more_digit : (k x y : ℕ) → x ≤ k → run (suc k) x y ≡ run k x y
  one_more_digit zero zero y le = refl
  one_more_digit (suc k) zero y le = refl
  one_more_digit zero (suc x) y le = elim le [ ]
  one_more_digit (suc k) (suc x) y le =
      ap (λ t. t * 2 + op (suc x % 2) (y % 2)) (one_more_digit k (suc x / 2) (y / 2) (omega arith))

  more_digits : (extra k x y : ℕ) → x ≤ k → run (extra + k) x y ≡ run k x y
  more_digits zero k x y le = ap (λ n. run n x y) {x = 0 + k} {y = k} (omega arith)
  more_digits (suc extra) k x y le =
      ap (λ n. run n x y) {x = suc extra + k} {y = suc (extra + k)} (omega arith)
      ∙ one_more_digit (extra + k) x y (omega arith)
      ∙ more_digits extra k x y le

  lowest_digit :
      (x y : ℕ)
      → bitwise last op (suc x) y ≡ bitwise last op (suc x / 2) (y / 2) * 2 + op (suc x % 2) (y % 2)
  lowest_digit x y =
      let h : ℕ = suc x / 2 in
      ap (λ t. t * 2 + op (suc x % 2) (y % 2))
        (ap (λ n. run n h (y / 2)) {x = x} {y = x - h + h} (omega arith)
          ∙ more_digits (x - h) h h (y / 2) (omega arith))

-- The digit of `^` is 1 where the two digits differ.
abbrev pub parity : ℕ → ℕ → ℕ
parity a b = (a + b) % 2

differ-eq-parity : (a b : ℕ) → a < 2 → b < 2 → differ a b ≡ parity a b
differ-eq-parity zero b p q = omega arith
differ-eq-parity (suc zero) zero p q = refl
differ-eq-parity (suc zero) (suc zero) p q = refl
differ-eq-parity (suc zero) (suc (suc b)) p q = absurd (omega arith)
differ-eq-parity (suc (suc a)) b p q = absurd (omega arith)

pub bit_or_step : (a b : ℕ) → bit_or a b ≡ bit_or (a / 2) (b / 2) * 2 + max (a % 2) (b % 2)
bit_or_step zero b = omega (arith, bit_or-bitwise 0 b, bit_or-bitwise 0 (b / 2))
bit_or_step (suc a) b = omega (
  arith,
  bit_or-bitwise (suc a) b,
  bit_or-bitwise (suc a / 2) (b / 2),
  lowest_digit (λ y. y) max a b,
)

pub bit_and_step : (a b : ℕ) → bit_and a b ≡ bit_and (a / 2) (b / 2) * 2 + min (a % 2) (b % 2)
bit_and_step zero b = omega (arith, bit_and-bitwise 0 b, bit_and-bitwise 0 (b / 2))
bit_and_step (suc a) b = omega (
  arith,
  bit_and-bitwise (suc a) b,
  bit_and-bitwise (suc a / 2) (b / 2),
  lowest_digit (λ y. 0) min a b,
)

pub bit_xor_step : (a b : ℕ) → bit_xor a b ≡ bit_xor (a / 2) (b / 2) * 2 + parity (a % 2) (b % 2)
bit_xor_step zero b = omega (arith, bit_xor-bitwise 0 b, bit_xor-bitwise 0 (b / 2))
bit_xor_step (suc a) b = omega (
  arith,
  bit_xor-bitwise (suc a) b,
  bit_xor-bitwise (suc a / 2) (b / 2),
  lowest_digit (λ y. y) differ a b,
  differ-eq-parity (suc a % 2) (b % 2) (omega arith) (omega arith),
)
