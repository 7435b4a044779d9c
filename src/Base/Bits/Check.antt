-- ===== src/Base/Bits/Check.antt =====
-- A test of every value below a bound, by evaluation.
use Prim.Native.Nat.{ℕ, zero, suc, ◌<◌}
use mathlib.Core.Path.{◌≡◌}
use mathlib.Core.Bool.{Bool, true, false}
use native.Mathlib.Omega.{arith}
use package.dram_pvt_mk.Base.Tests.{if◌then◌else◌}

-- `passes test n` runs `test` at n - 1, ..., 0 and stops at the first failure.
unfoldable pub passes : (ℕ → Bool) → ℕ → Bool
passes test zero = true
passes test (suc n) = let below = passes test n in if test n then below else false

pub passes_at : (test : ℕ → Bool) {n : ℕ} (x : ℕ) → x < n → passes test n ≡ true → test x ≡ true
unfolding passes
passes_at test {n = zero} x h ok = elim h [ ]
passes_at test {n = suc n} x h ok = ground (arith, passes_at test {n = n} x)
