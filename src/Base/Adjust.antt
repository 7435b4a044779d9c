-- ===== src/Base/Adjust.antt =====
-- `bpf_xdp_adjust_head`, which is not in the repository: what the programs rely on.
use Prim.Native.Nat.{ℕ, ◌+◌}
use mathlib.Core.Path.{◌≡◌}
use mathlib.Core.Option.{Option, some}
use package.dram_pvt_mk.Base.Lists.{length}
use package.dram_pvt_mk.Base.Bytes.{Packet, byte_at}

-- With a negative argument: when it succeeds, the packet has that many bytes more in front.
pub record AdjustHead (adjust_head : Packet → ℕ → Option Packet) : Type 0 where
  pub grows : (p q : Packet) (n : ℕ) → adjust_head p n ≡ some q → length q ≡ n + length p
  pub keeps : (p q : Packet) (n i : ℕ) → adjust_head p n ≡ some q → byte_at q (n + i) ≡ byte_at p i

-- With a positive argument: when it succeeds, that many bytes are cut off in front.
pub record ShrinkHead (shrink_head : Packet → ℕ → Option Packet) : Type 0 where
  pub shrinks : (p q : Packet) (n : ℕ) → shrink_head p n ≡ some q → length p ≡ n + length q
  pub cuts : (p q : Packet) (n i : ℕ) → shrink_head p n ≡ some q → byte_at q i ≡ byte_at p (n + i)
