-- ===== src/Base/Table.antt =====
-- A BPF map as the function from a key to what `bpf_map_lookup_elem` points at, `none` for NULL.
use Prim.Native.Nat.{ℕ}
use mathlib.Core.Path.{◌≡◌}
use mathlib.Core.Logic.{◌≢◌}
use mathlib.Core.Option.{Option, none, some}
use native.Mathlib.Omega.{arith}
use package.dram_pvt_mk.Base.Tests.{◌==◌, if◌then◌else◌}

abbrev pub Table : Type 0 → Type 0
Table V = ℕ → Option V

-- A store through the pointer that a lookup of `k` gave.
abbrev pub store : {V : Type 0} → Table V → ℕ → V → Table V
store m k v j = if k == j then some v else m j

pub store_self : {V : Type 0} (m : Table V) (k : ℕ) (v : V) → store m k v k ≡ some v
store_self m k v = ground arith

pub store_ne : {V : Type 0} (m : Table V) (k j : ℕ) (v : V) → k ≢ j → store m k v j ≡ m j
store_ne m k j v h = ground arith

-- `if (!p) return z;` and then the rest with what `p` points at.
abbrev pub or_return {ℓ κ} : {A : Type ℓ} {B : Type κ} → Option A → B → (A → B) → B
or_return none z k = z
or_return (some a) z k = k a
