-- ===== src/Base/Bytes.antt =====
-- Packet memory: the bytes from `data` to `data_end`. A pointer is its distance from `data`, and a
-- load or a store that leaves the packet is a fault, `none`.
use Prim.Native.Nat.{ℕ, zero, suc, ◌/◌, ◌%◌, ◌^◌, ◌+◌, ◌*◌, ◌≤◌, ◌<◌}
use mathlib.Core.Path.{◌≡◌, refl, sym, ap, ◌∙◌}
use mathlib.Core.Logic.{◌⊎◌, inl, inr}
use mathlib.Core.List.{List, [], ◌∷◌}
use mathlib.Core.Option.{Option, none, some}
use native.Mathlib.Omega.{arith}
use package.dram_pvt_mk.Base.Tests.{ltb, if◌then◌else◌}
use package.dram_pvt_mk.Base.Lists.{
  length, get_elem?, get_or, set, take, drop, get_elem?-eq-get_or, length-set, get_or-set_self,
  get_or-set_ne, get_or-take, get_or-drop, length-take, length-drop,
}

abbrev pub Packet : Type 0
Packet = List ℕ

infixl 5 ◌>>=◌ ◌>>◌
abbrev pub ◌>>=◌ {ℓ κ} : {A : Type ℓ} {B : Type κ} → Option A → (A → Option B) → Option B
none >>= k = none
some a >>= k = k a

abbrev pub ◌>>◌ {ℓ} : {B : Type ℓ} → Option (Unit {0}) → Option B → Option B
m >> k = m >>= λ _. k

-- What a load in range reads; little-endian, as on the machines that run these programs.
abbrev pub byte_at : Packet → ℕ → ℕ
byte_at p i = get_or p i 0

abbrev pub half_at : Packet → ℕ → ℕ
half_at p i = byte_at p i + 256 * byte_at p (i + 1)

abbrev pub word_at : Packet → ℕ → ℕ
word_at p i = half_at p i + 65536 * half_at p (i + 2)

unfoldable pub load8 : Packet → ℕ → Option ℕ
load8 p i = get_elem? p i

unfoldable pub load16 : Packet → ℕ → Option ℕ
load16 p i = if ltb (length p) (i + 2) then none else some (half_at p i)

unfoldable pub load32 : Packet → ℕ → Option ℕ
load32 p i = if ltb (length p) (i + 4) then none else some (word_at p i)

pub load8_lem : (p : Packet) (i : ℕ) → i < length p → load8 p i ≡ some (byte_at p i)
unfolding load8
load8_lem p i h = get_elem?-eq-get_or p i 0 h

pub load16_lem : (p : Packet) (i : ℕ) → i + 2 ≤ length p → load16 p i ≡ some (half_at p i)
unfolding load16
load16_lem p i h = ground arith

pub load32_lem : (p : Packet) (i : ℕ) → i + 4 ≤ length p → load32 p i ≡ some (word_at p i)
unfolding load32
load32_lem p i h = ground arith

-- Total correctness: the code faults nowhere, and its result satisfies `P`.
abbrev pub Returns : {A : Type 0} → (A → Type 0) → Option A → Type 0
Returns P none = ⊥
Returns P (some a) = P a

pub Returns-map :
    {A : Type 0} {P Q : A → Type 0} (o : Option A)
    → ((a : A) → P a → Q a)
    → Returns P o
    → Returns Q o
Returns-map none f h = h
Returns-map (some a) f h = f a h

pub Returns-bind :
    {A B : Type 0} {P : A → Type 0} (Q : B → Type 0) (o : Option A) (k : A → Option B)
    → ((a : A) → P a → Returns Q (k a))
    → Returns P o
    → Returns Q (o >>= k)
Returns-bind Q none k f h = h
Returns-bind Q (some a) k f h = f a h

pub Returns-× :
    {A : Type 0} (P Q : A → Type 0) (o : Option A)
    → Returns P o
    → Returns Q o
    → Returns (λ a. P a × Q a) o
Returns-× P Q none h k = h
Returns-× P Q (some a) h k = (h, k)

-- The bytes `p[off]`, `p[off + 1]`, ... up to `n` of them.
abbrev pub bytes_from : Packet → ℕ → ℕ → List ℕ
bytes_from p off n = take n (drop off p)

pub get_or-bytes_from :
    (p : Packet) (a n k : ℕ) → k < n → get_or (bytes_from p a n) k 0 ≡ byte_at p (a + k)
get_or-bytes_from p a n k h = get_or-take n (drop a p) k 0 h ∙ get_or-drop a p k 0

pub length-bytes_from : (p : Packet) (a n : ℕ) → a + n ≤ length p → length (bytes_from p a n) ≡ n
length-bytes_from p a n h = length-take n (drop a p) (omega (arith, length-drop a p))

-- Stores of consecutive bytes from `off` on.
unfoldable pub write : Packet → ℕ → List ℕ → Packet
write p off [] = p
write p off (b ∷ bs) = write (set p off b) (off + 1) bs

-- The bytes of a little-endian store of `n` bytes.
abbrev pub le_bytes : ℕ → ℕ → List ℕ
le_bytes zero v = []
le_bytes (suc n) v = (v % 256) ∷ le_bytes n (v / 256)

unfoldable pub load64 : Packet → ℕ → Option ℕ
load64 p i =
    if ltb (length p) (i + 8) then none else some (word_at p i + 2 ^ 32 * word_at p (i + 4))

pub load64_lem :
    (p : Packet) (i : ℕ)
    → i + 8 ≤ length p
    → load64 p i ≡ some (word_at p i + 2 ^ 32 * word_at p (i + 4))
unfolding load64
load64_lem p i h = ground arith

pub length-write : (p : Packet) (off : ℕ) (bs : List ℕ) → length (write p off bs) ≡ length p
unfolding write
length-write p off [] = refl
length-write p off (b ∷ bs) = length-write (set p off b) (off + 1) bs ∙ length-set p off b

-- A byte outside the stored range is as before, and one inside is the stored one.
pub byte_at-write_below :
    (p : Packet) (off : ℕ) (bs : List ℕ) (i : ℕ)
    → i < off
    → byte_at (write p off bs) i ≡ byte_at p i
unfolding write
byte_at-write_below p off [] i h = refl
byte_at-write_below p off (b ∷ bs) i h =
    byte_at-write_below (set p off b) (off + 1) bs i (omega arith)
    ∙ get_or-set_ne p off i b 0 (omega arith)

pub byte_at-write_above :
    (p : Packet) (off : ℕ) (bs : List ℕ) (i : ℕ)
    → off + length bs ≤ i
    → byte_at (write p off bs) i ≡ byte_at p i
unfolding write
byte_at-write_above p off [] i h = refl
byte_at-write_above p off (b ∷ bs) i h =
    byte_at-write_above (set p off b) (off + 1) bs i (omega arith)
    ∙ get_or-set_ne p off i b 0 (omega arith)

pub byte_at-write :
    (p : Packet) (off : ℕ) (bs : List ℕ) (k : ℕ)
    → k < length bs
    → off + length bs ≤ length p
    → byte_at (write p off bs) (off + k) ≡ get_or bs k 0
unfolding write
byte_at-write p off [] k h l = absurd (omega arith)
byte_at-write p off (b ∷ bs) zero h l =
    let e : off + 0 ≡ off = omega arith in
    rw e (
      byte_at-write_below (set p off b) (off + 1) bs off (omega arith)
      ∙ get_or-set_self p off b 0 (omega arith))
byte_at-write p off (b ∷ bs) (suc k) h l =
    let e : off + suc k ≡ off + 1 + k = omega arith in
    rw e
      (byte_at-write (set p off b) (off + 1) bs k (omega arith) (omega (arith, length-set p off b)))

pub byte_at-write_ne :
    (p : Packet) (off : ℕ) (bs : List ℕ) (i : ℕ)
    → (i < off) ⊎ (off + length bs ≤ i)
    → byte_at (write p off bs) i ≡ byte_at p i
byte_at-write_ne p off bs i h = elim h [
  | inl below ↦ byte_at-write_below p off bs i below
  | inr above ↦ byte_at-write_above p off bs i above
]

pub byte_at-write_start :
    (p : Packet) (bs : List ℕ) (k : ℕ)
    → k < length bs
    → length bs ≤ length p
    → byte_at (write p 0 bs) k ≡ get_or bs k 0
byte_at-write_start p bs k h room =
    let at_start : 0 + k ≡ k = omega arith in
    ap (byte_at (write p 0 bs)) (sym at_start) ∙ byte_at-write p 0 bs k h (omega arith)
