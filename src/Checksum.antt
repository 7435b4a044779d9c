-- ===== src/Checksum.antt =====
-- The checksum of an IPv4 header: `compute_ip_checksum`, which examples/bmc-cache/bmc_kern.c and
-- examples/electrode/fast_kern.c share.
pub mod Laws
pub mod Sums
pub mod Header
use dram_pvt_mk.Base.{ℕ, zero, suc, ◌+◌, ◌-◌, ◌/◌, ◌%◌, ◌^◌, [], ◌∷◌, add32}
use dram_pvt_mk.Base.Bytes.{Packet, half_at, write, le_bytes}

-- `csum += *next_ip_u16++`, `n` times from `off` on.
unfoldable pub sum_halves : Packet → ℕ → ℕ → ℕ → ℕ
sum_halves p zero off csum = csum
sum_halves p (suc n) off csum = sum_halves p n (off + 2) (add32 csum (half_at p off))

-- `~((csum & 0xffff) + (csum >> 16))`, cut to 16 bits by the return type.
unfoldable pub fold_once : ℕ → ℕ
fold_once csum = 65535 - (csum % 2 ^ 16 + csum / 2 ^ 16) % 2 ^ 16

-- `ip->check`, at byte 10 of the header, is set to 0 and the ten 16-bit words are added up. The
-- caller stores the value.
unfoldable pub clear_check : Packet → ℕ → Packet
clear_check p ip = write p (ip + 10) (le_bytes 2 0)

unfoldable pub compute_ip_checksum : Packet → ℕ → ℕ
unfolding sum_halves fold_once clear_check
compute_ip_checksum p ip = fold_once (sum_halves (clear_check p ip) 10 ip 0)
