-- ===== src/Base/Outer.antt =====
-- What encapsulation keeps of a packet, for the programs that put an outer header in front.
use Prim.Native.Nat.{ℕ, ◌+◌, ◌≤◌, ◌<◌}
use mathlib.Core.Path.{◌≡◌, ◌∙◌}
use mathlib.Core.List.{List}
use native.Mathlib.Omega.{arith}
use package.dram_pvt_mk.Base.Lists.{length, get_or}
use package.dram_pvt_mk.Base.Bytes.{
  Packet, byte_at, write, length-write, byte_at-write_below, byte_at-write_above,
}

-- `n` bytes of outer headers are in front of `p`, from its IP header on; the Ethernet header is sent
-- from the old destination to `mac`.
pub record Outer (n : ℕ) (p r : Packet) (mac : List ℕ) : Type 0 where
  pub size : length r ≡ n + length p
  pub dest : (i : ℕ) → i < 6 → byte_at r i ≡ get_or mac i 0
  pub source : (i : ℕ) → i < 6 → byte_at r (6 + i) ≡ byte_at p i
  pub inner : (i : ℕ) → 14 ≤ i → byte_at r (n + i) ≡ byte_at p i

pub Outer-write :
    (n : ℕ) (p r : Packet) (mac : List ℕ) (off : ℕ) (bs : List ℕ)
    → 14 ≤ off
    → off + length bs ≤ n + 14
    → Outer n p r mac
    → Outer n p (write r off bs) mac
Outer-write n p r mac off bs low high o = record {
  size = length-write r off bs ∙ o.size;
  dest = λ i h. byte_at-write_below r off bs i (omega arith) ∙ o.dest i h;
  source = λ i h. byte_at-write_below r off bs (6 + i) (omega arith) ∙ o.source i h;
  inner = λ i h. byte_at-write_above r off bs (n + i) (omega arith) ∙ o.inner i h;
}
