-- ===== src/Checksum/Laws.antt =====
-- When the stored value makes the header's sum zero, in one's-complement arithmetic.
use dram_pvt_mk.Base.{
  ℕ, zero, suc, ◌+◌, ◌*◌, ◌/◌, ◌%◌, ◌^◌, ◌≤◌, ◌<◌, ◌≡◌, ◌↔◌, arith, [], ◌∷◌, add32, IsBytes, List,
  set,
}
use dram_pvt_mk.Base.Bytes.{Packet, half_at, write, le_bytes, byte_at}
use dram_pvt_mk.Checksum.{sum_halves, fold_once, clear_check, compute_ip_checksum}

-- The sum of the words with no wrap.
abbrev pub plain_sum : Packet → ℕ → ℕ → ℕ
plain_sum p zero off = 0
plain_sum p (suc n) off = half_at p off + plain_sum p n (off + 2)

pub byte_at-lt : (p : Packet) (i : ℕ) → IsBytes p → byte_at p i < 256
byte_at-lt [] i h = omega arith
byte_at-lt (b ∷ p) zero h = h.0
byte_at-lt (b ∷ p) (suc i) h = byte_at-lt p i h.1

pub half_at-lt : (p : Packet) (i : ℕ) → IsBytes p → half_at p i < 65536
half_at-lt p i h = omega (arith, byte_at-lt p i h, byte_at-lt p (i + 1) h)

pub plain_sum-le : (p : Packet) (n off : ℕ) → IsBytes p → plain_sum p n off ≤ n * 65535
plain_sum-le p zero off h = omega arith
plain_sum-le p (suc n) off h = omega (arith, half_at-lt p off h, plain_sum-le p n (off + 2) h)

pub sum_halves-eq-plain_sum :
    (p : Packet) (n off csum : ℕ)
    → csum + plain_sum p n off < 2 ^ 32
    → sum_halves p n off csum ≡ csum + plain_sum p n off
unfolding sum_halves
sum_halves-eq-plain_sum p zero off csum h = omega arith
sum_halves-eq-plain_sum p (suc n) off csum h =
    omega (arith, sum_halves-eq-plain_sum p n (off + 2) (add32 csum (half_at p off)) (omega arith))

pub IsBytes-write :
    (p : Packet) (off : ℕ) (bs : List ℕ) → IsBytes p → IsBytes bs → IsBytes (write p off bs)
unfolding write
IsBytes-write p off [] h k = h
IsBytes-write p off (b ∷ bs) h k = IsBytes-write _ (off + 1) bs (IsBytes-set p off b h k.0) k.1
  where
    IsBytes-set : (q : Packet) (i c : ℕ) → IsBytes q → c < 256 → IsBytes (set q i c)
    IsBytes-set [] i c h k = tt
    IsBytes-set (x ∷ q) zero c h k = (k, h.1)
    IsBytes-set (x ∷ q) (suc i) c h k = (h.0, IsBytes-set q i c h.1 k)

pub fold_once_iff :
    (s : ℕ) → s ≤ 655350 → ((fold_once s + s) % 65535 ≡ 0) ↔ (s % 65536 + s / 65536 < 65536)
unfolding fold_once
fold_once_iff s h = (λ e. omega arith, λ l. omega arith)

-- The value makes the words of the header, itself among them, add up to zero in one's-complement
-- arithmetic, as a receiver requires, exactly when the single fold of the carries does not
-- itself overflow 16 bits. The sum is over the header with its checksum field cleared.
pub compute_ip_checksum_iff :
    (p : Packet) (ip : ℕ)
    → IsBytes p
    → let s = plain_sum (clear_check p ip) 10 ip in
      ((compute_ip_checksum p ip + s) % 65535 ≡ 0) ↔ (s % 65536 + s / 65536 < 65536)
unfolding compute_ip_checksum
compute_ip_checksum_iff p ip h =
    let q = clear_check p ip in
    let bytes : IsBytes q =
      unfold clear_check in IsBytes-write p (ip + 10) (le_bytes 2 0) h (omega arith) in
    let small = plain_sum-le q 10 ip bytes in
    rw (sum_halves-eq-plain_sum q 10 ip 0 (omega arith)) (
      let e : 0 + plain_sum q 10 ip ≡ plain_sum q 10 ip = omega arith in
      rw e (fold_once_iff (plain_sum q 10 ip) (omega arith)))
