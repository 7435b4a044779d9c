-- ===== src/Tests/Checksum.antt =====
-- The checksum of a header whose words do not overflow the fold.
use dram_pvt_mk.Base.{ℕ, ◌+◌, ◌%◌, ◌/◌, ◌<◌, ◌≡◌, ◌↔◌, arith, List, [], ◌∷◌}
use dram_pvt_mk.Checksum.{clear_check, compute_ip_checksum}
use dram_pvt_mk.Checksum.Laws.{plain_sum, compute_ip_checksum_iff}

abbrev header : List ℕ
header =
    69 ∷ 0 ∷ 0 ∷ 60 ∷ 28 ∷ 70 ∷ 64 ∷ 0 ∷ 64 ∷ 6 ∷ 177 ∷ 230 ∷ 172 ∷ 16 ∷ 10 ∷ 99 ∷ 172 ∷ 16 ∷ 10
    ∷ 12 ∷ []

compute_ip_checksum_iff_example :
    let s = plain_sum (clear_check header 0) 10 0 in
    ((compute_ip_checksum header 0 + s) % 65535 ≡ 0) ↔ (s % 65536 + s / 65536 < 65536)
compute_ip_checksum_iff_example = compute_ip_checksum_iff header 0 (omega arith)
