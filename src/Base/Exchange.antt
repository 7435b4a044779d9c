-- ===== src/Base/Exchange.antt =====
-- Two fields of a packet that stand side by side change places.
use Prim.Native.Nat.{ℕ, ◌+◌, ◌-◌, ◌≤◌, ◌<◌}
use mathlib.Core.Path.{◌≡◌, ap, ◌∙◌}
use mathlib.Core.Logic.{inl, inr}
use mathlib.Core.List.{◌++◌}
use native.Mathlib.Omega.{arith}
use package.dram_pvt_mk.Base.Tests.{ltb, if◌then◌else◌, ltb→lt, ltb-false→≤, Bool-cases}
use package.dram_pvt_mk.Base.Lists.{
  length, length-append, get_or, get_or-append_left, get_or-append_right,
}
use package.dram_pvt_mk.Base.Bytes.{
  Packet, byte_at, bytes_from, get_or-bytes_from, length-bytes_from, write, length-write,
  byte_at-write, byte_at-write_below, byte_at-write_above,
}

-- Two fields of `n` bytes, one behind the other, change places.
unfoldable pub exchange : Packet → ℕ → ℕ → Packet
exchange p a n = write p a (bytes_from p (a + n) n ++ bytes_from p a n)

-- Where the byte `i` comes from when the two fields of `n` bytes from `a` on change places.
abbrev pub exchanged : ℕ → ℕ → ℕ → ℕ
exchanged a n i =
    if ltb i a then i else if ltb i (a + n) then i + n else if ltb i (a + n + n) then i - n else i

pub length-exchange : (p : Packet) (a n : ℕ) → length (exchange p a n) ≡ length p
unfolding exchange
length-exchange p a n = length-write p a _

module _ (p : Packet) (a n : ℕ) (fits : a + n + n ≤ length p) where
  first : length (bytes_from p (a + n) n) ≡ n
  first = length-bytes_from p (a + n) n fits

  second : length (bytes_from p a n) ≡ n
  second = length-bytes_from p a n (omega (arith, fits))

  both : length (bytes_from p (a + n) n ++ bytes_from p a n) ≡ n + n
  both = omega (arith, length-append (bytes_from p (a + n) n) (bytes_from p a n), first, second)

  byte_at-exchange_inside :
      (k : ℕ)
      → k < n + n
      → byte_at (exchange p a n) (a + k) ≡ get_or (bytes_from p (a + n) n ++ bytes_from p a n) k 0
  unfolding exchange
  byte_at-exchange_inside k h =
      byte_at-write p a _ k (omega (arith, both, h)) (omega (arith, both, fits))

  byte_at-exchange_first :
      (k : ℕ) → k < n → byte_at (exchange p a n) (a + k) ≡ byte_at p (a + n + k)
  byte_at-exchange_first k h =
      byte_at-exchange_inside k (omega (arith, h))
      ∙ get_or-append_left (bytes_from p (a + n) n) (bytes_from p a n) k 0 (omega (arith, first, h))
      ∙ get_or-bytes_from p (a + n) n k h

  byte_at-exchange_second :
      (k : ℕ) → k < n → byte_at (exchange p a n) (a + n + k) ≡ byte_at p (a + k)
  byte_at-exchange_second k h =
      let place : a + n + k ≡ a + (n + k) = omega arith in
      let index : n + k - length (bytes_from p (a + n) n) ≡ k = omega (arith, first) in
      ap (byte_at (exchange p a n)) place
      ∙ byte_at-exchange_inside (n + k) (omega (arith, h))
      ∙ get_or-append_right (bytes_from p (a + n) n) (bytes_from p a n) (n + k) 0
          (omega (arith, first))
      ∙ ap (λ j. get_or (bytes_from p a n) j 0) index
      ∙ get_or-bytes_from p a n k h

  pub byte_at-exchange : (i : ℕ) → byte_at (exchange p a n) i ≡ byte_at p (exchanged a n i)
  byte_at-exchange i = elim (Bool-cases (ltb i a)) [
    | inl below ↦ rw below (unfold exchange in byte_at-write_below p a _ i (ltb→lt i a below))
    | inr above ↦ rw above (elim (Bool-cases (ltb i (a + n))) [
      | inl one ↦ rw one (
          let l = ltb→lt i (a + n) one in
          let g = ltb-false→≤ i a above in
          let e : i ≡ a + (i - a) = omega (arith, g) in
          let t : a + n + (i - a) ≡ i + n = omega (arith, g) in
          ap (byte_at (exchange p a n)) e
          ∙ byte_at-exchange_first (i - a) (omega (arith, g, l))
          ∙ ap (byte_at p) t)
      | inr past ↦ rw past (elim (Bool-cases (ltb i (a + n + n))) [
        | inl two ↦ rw two (
            let l = ltb→lt i (a + n + n) two in
            let g = ltb-false→≤ i (a + n) past in
            let e : i ≡ a + n + (i - (a + n)) = omega (arith, g) in
            let t : a + (i - (a + n)) ≡ i - n = omega (arith, g) in
            ap (byte_at (exchange p a n)) e
            ∙ byte_at-exchange_second (i - (a + n)) (omega (arith, g, l))
            ∙ ap (byte_at p) t)
        | inr over ↦ rw over (
            unfold exchange in
            byte_at-write_above p a _ i (omega (arith, both, ltb-false→≤ i (a + n + n) over)))
      ])
    ])
  ]
