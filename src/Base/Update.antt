-- ===== src/Base/Update.antt =====
-- `bpf_map_update_elem`, which is not in the repository: what the programs rely on.
use mathlib.Core.Path.{◌≡◌}
use mathlib.Core.Logic.{◌≢◌}
use mathlib.Core.Option.{Option, some}

-- On a map from `K` to `V`, `update` gives `none` when the call fails. When it succeeds, a lookup
-- of the key finds the value, and every other key finds what it found before.
pub record MapUpdate (K V : Type 0) : Type 0 where
  pub update : (K → Option V) → K → V → Option (K → Option V)
  pub finds : (t t' : K → Option V) (k : K) (v : V) → update t k v ≡ some t' → t' k ≡ some v
  pub keeps : (t t' : K → Option V) (k j : K) (v : V) → update t k v ≡ some t' → k ≢ j → t' j ≡ t j
