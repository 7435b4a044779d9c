-- ===== src/Checksum/Sums.antt =====
-- Sums of the words of a header: their parts, and what a stored checksum adds.
use dram_pvt_mk.Base.{ℕ, zero, suc, ◌+◌, ◌*◌, ◌%◌, ◌^◌, ◌≤◌, ◌<◌, ◌≡◌, refl, ap, arith, length}
use dram_pvt_mk.Base.Bytes.{
  Packet, byte_at, half_at, write, le_bytes, byte_at-write, byte_at-write_above,
  byte_at-write_below,
}
use dram_pvt_mk.Checksum.Laws.{plain_sum}

-- The sum reads its own words alone.
pub plain_sum-eq :
    (p q : Packet) (n off : ℕ)
    → ((i : ℕ) → off ≤ i → i < off + 2 * n → byte_at q i ≡ byte_at p i)
    → plain_sum q n off ≡ plain_sum p n off
plain_sum-eq p q zero off h = refl
plain_sum-eq p q (suc n) off h = omega (
  arith,
  h off (omega arith) (omega arith),
  h (off + 1) (omega arith) (omega arith),
  plain_sum-eq p q n (off + 2) (λ i l u. h i (omega arith) (omega arith)),
)

pub plain_sum-append :
    (p : Packet) (a b off : ℕ)
    → plain_sum p (a + b) off ≡ plain_sum p a off + plain_sum p b (off + 2 * a)
plain_sum-append p zero b off =
    let e : off + 2 * zero ≡ off = omega arith in
    let zero_left : zero + b ≡ b = omega arith in rw (e, zero_left) (omega arith)
plain_sum-append p (suc a) b off =
    let e : off + 2 * suc a ≡ off + 2 + 2 * a = omega arith in
    let more : suc a + b ≡ suc (a + b) = omega arith in
    rw (e, more) (omega (arith, plain_sum-append p a b (off + 2)))

pub half_at-write :
    (p : Packet) (off v : ℕ)
    → off + 2 ≤ length p
    → half_at (write p off (le_bytes 2 v)) off ≡ v % 2 ^ 16
half_at-write p off v h = omega (
  arith,
  byte_at-write p off (le_bytes 2 v) 0 (omega arith) (omega arith),
  byte_at-write p off (le_bytes 2 v) 1 (omega arith) (omega arith),
  ap (byte_at (write p off (le_bytes 2 v))) (zero_right off),
)
  where
    zero_right : (n : ℕ) → n + 0 ≡ n
    zero_right n = omega arith

-- A word of the header that was zero is stored, `a` words behind its beginning.
pub plain_sum-write :
    (p : Packet) (a b base v : ℕ)
    → base + 2 * a + 2 ≤ length p
    → half_at p (base + 2 * a) ≡ 0
    → v < 65536
    → plain_sum (write p (base + 2 * a) (le_bytes 2 v)) (a + suc b) base
      ≡ plain_sum p (a + suc b) base + v
plain_sum-write p a b base v room clear h =
    let off = base + 2 * a in
    let q = write p off (le_bytes 2 v) in
    omega (
      arith,
      plain_sum-append p a (suc b) base,
      plain_sum-append q a (suc b) base,
      plain_sum-eq p q a base (λ i l u. byte_at-write_below p off (le_bytes 2 v) i u),
      plain_sum-eq p q b (off + 2) (λ i l u. byte_at-write_above p off (le_bytes 2 v) i l),
      half_at-write p off v room,
    )
