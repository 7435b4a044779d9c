-- ===== src/Katran/Csum.antt =====
-- csum_helpers.h, csum_fold_helper.c and csum_fold_helper_stub.c of examples/katran.
pub mod Laws
use dram_pvt_mk.Base.{
  ℕ, zero, suc, ◌+◌, ◌*◌, ◌-◌, ◌/◌, ◌%◌, ◌^◌, ◌≤◌, ◌==◌, List, [], ◌∷◌, if◌then◌else◌, u64, u32,
}
use dram_pvt_mk.Base.Bytes.{Packet, byte_at, half_at, bytes_from, le_bytes}
use dram_pvt_mk.Katran.{BalancerKernel}

-- `if (csum >> 16) csum = (csum & 0xffff) + (csum >> 16);`
unfoldable pub fold_step : ℕ → ℕ
fold_step csum = if csum / 2 ^ 16 == 0 then csum else csum % 2 ^ 16 + csum / 2 ^ 16

unfoldable pub csum_fold_helper : ℕ → ℕ
unfolding fold_step
csum_fold_helper csum = 65535 - fold_step (fold_step (fold_step (fold_step csum))) % 2 ^ 16

-- The results of the generated stub.
abbrev pub CsumFoldStub : ℕ → Type 0
CsumFoldStub result = result ≤ 65535

-- `*csum += *next_iph_u16++`, `n` times.
unfoldable pub sum_u16 : ℕ → Packet → ℕ → ℕ → ℕ
sum_u16 zero p off csum = csum
sum_u16 (suc n) p off csum = sum_u16 n p (off + 2) (u64 (csum + half_at p off))

-- The helpers return what they leave in `*csum`, which is 0 before; 20 bytes are ten words.
unfoldable pub ipv4_csum_inline : Packet → ℕ → ℕ
ipv4_csum_inline p iph = csum_fold_helper (sum_u16 10 p iph 0)

unfoldable pub ipv4_csum : BalancerKernel → Packet → ℕ → ℕ → ℕ
ipv4_csum k p start size = csum_fold_helper (k.csum_diff p start size 0)

-- `__builtin_bswap32` of a value, in memory.
abbrev pub bswap32_bytes : ℕ → List ℕ
bswap32_bytes v = (v / 2 ^ 24 % 256) ∷ (v / 2 ^ 16 % 256) ∷ (v / 2 ^ 8 % 256) ∷ (v % 256) ∷ []

unfoldable pub ipv4_l4_csum : BalancerKernel → Packet → ℕ → ℕ → ℕ → ℕ
ipv4_l4_csum k p start size iph =
    let saddr = k.csum_diff p (iph + 12) 4 0 in
    let daddr = k.csum_diff p (iph + 16) 4 saddr in
    let proto = k.csum_diff (bswap32_bytes (byte_at p (iph + 9))) 0 4 daddr in
    let len = k.csum_diff (bswap32_bytes size) 0 4 proto in
    csum_fold_helper (k.csum_diff p start size len)

unfoldable pub ipv6_csum : BalancerKernel → Packet → ℕ → ℕ → ℕ → ℕ
ipv6_csum k p start size ip6h =
    let saddr = k.csum_diff p (ip6h + 8) 16 0 in
    let daddr = k.csum_diff p (ip6h + 24) 16 saddr in
    let len = k.csum_diff (bswap32_bytes size) 0 4 daddr in
    let next = k.csum_diff (bswap32_bytes (byte_at p (ip6h + 6))) 0 4 len in
    csum_fold_helper (k.csum_diff p start size next)
