-- ===== src/Katran/Icmp/Echo.antt =====
-- The reply to an echo request: send_icmp_reply.
use dram_pvt_mk.Base.{ℕ, suc, ◌%◌, ◌≤◌, ◌<◌, ◌≡◌, ◌↔◌, refl, sym, arith, length, IsBytes}
use mathlib.Core.Path.{subst}
use dram_pvt_mk.Base.Bytes.{Packet, byte_at, half_at, word_at}
use dram_pvt_mk.Base.Exchange.{exchanged}
use dram_pvt_mk.Base.Xdp.{xdp_tx}
use dram_pvt_mk.Checksum.Laws.{plain_sum, half_at-lt}
use dram_pvt_mk.Checksum.Sums.{plain_sum-eq}
use dram_pvt_mk.Katran.Icmp.{Answer, send_icmp_reply}
use dram_pvt_mk.Katran.Icmp.Reply.{
  r, run, size_r, hardware, r-address, r-rest, r-first, r-check, ip_sum,
}

-- What an echo request became.
pub record Replied (p r : Packet) : Type 0 where
  pub size : length r ≡ length p
  pub hardware_addresses : (i : ℕ) → i < 12 → byte_at r i ≡ byte_at p (exchanged 0 6 i)
  pub source : word_at r 26 ≡ word_at p 30
  pub dest : word_at r 30 ≡ word_at p 26
  pub ip_sum : plain_sum r 10 14 % 65535 ≡ 0
  pub data_kept : (i : ℕ) → 38 ≤ i → byte_at r i ≡ byte_at p i

abbrev pub Answered : Packet → ℕ → Answer → Type 0
Answered p n s =
    (s.verdict ≡ xdp_tx)
    × Replied p s.packet
    × ((plain_sum s.packet (suc (suc n)) 34 % 65535 ≡ plain_sum p (suc (suc n)) 34 % 65535)
        ↔ (half_at p 36 < 0xfff8))

-- An echo request of 42 bytes or more is sent back with its hardware addresses and its IP addresses
-- exchanged, a valid IP checksum and its data unchanged. The sum of the words of its ICMP message,
-- of four bytes or more, keeps its value in one's-complement arithmetic exactly when the raw
-- checksum field was below 0xfff8: above that the carry of the adjustment is lost.
pub send_icmp_reply-Replied :
    (p : Packet) (n : ℕ)
    → 42 ≤ length p
    → IsBytes p
    → byte_at p 34 ≡ 8
    → Answered p n (send_icmp_reply p)
send_icmp_reply-Replied p n long bytes echo =
    let first = r-first p long echo in
    let check_r = r-check p long in
    let rest = plain_sum-eq p (r p long) n 38 (λ i l u. r-rest p long i l) in
    let small = half_at-lt p 36 bytes in
    subst (Answered p n) (sym (run p long)) (
      refl,
      record {
        size = size_r p long;
        hardware_addresses = hardware p long;
        source = omega (
          arith,
          r-address p long 26 (omega arith) (omega arith),
          r-address p long 27 (omega arith) (omega arith),
          r-address p long 28 (omega arith) (omega arith),
          r-address p long 29 (omega arith) (omega arith),
        );
        dest = omega (
          arith,
          r-address p long 30 (omega arith) (omega arith),
          r-address p long 31 (omega arith) (omega arith),
          r-address p long 32 (omega arith) (omega arith),
          r-address p long 33 (omega arith) (omega arith),
        );
        ip_sum = ip_sum p long bytes;
        data_kept = r-rest p long;
      },
      (
        λ same. omega (arith, first, check_r, rest, small, same),
        λ low. omega (arith, first, check_r, rest, small, low),
      ),
    )
