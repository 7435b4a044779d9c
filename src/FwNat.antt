-- ===== src/FwNat.antt =====
-- A firewall and an address translation that run one after the other on a packet: firewall.h,
-- nat.h and common_maps.h of examples/evaluation-two-program-fw-nat.
pub mod Translated
pub mod Laws
use dram_pvt_mk.Base.{
  ℕ, Bool, not, ◌||◌, ◌==◌, ltb, if◌then◌else◌, Option, none, some, length, swap16,
}
use dram_pvt_mk.Base.Table.{Table, or_return}
use dram_pvt_mk.Base.Update.{MapUpdate}
use dram_pvt_mk.Base.Bytes.{Packet, half_at, word_at, write, le_bytes}
use dram_pvt_mk.Base.Xdp.{xdp_drop, xdp_pass, ethhdr_size}

-- The maps of the two programs, from addresses to what `__u32` they hold.
pub record NatMaps : Type 0 where
  pub whitelist_addresses : Table ℕ
  pub inner2outer : Table ℕ
  pub outer2inner : Table ℕ

pub record NatRun : Type 0 where
  pub maps : NatMaps
  pub packet : Packet
  pub verdict : ℕ

-- The checks that both programs begin with: room for the headers, and the protocol.
unfoldable pub not_ipv4 : Packet → Bool
not_ipv4 p =
    ltb (length p) ethhdr_size || (not (half_at p 12 == swap16 0x0800) || ltb (length p) 34)

-- `ip->saddr`
abbrev pub saddr : Packet → ℕ
saddr p = word_at p 26

-- The firewall writes nothing.
unfoldable pub xdp_fw : NatMaps → Packet → ℕ
unfolding not_ipv4
xdp_fw m p =
    if not_ipv4 p
    then xdp_drop
    else or_return (m.whitelist_addresses (saddr p)) xdp_drop λ value. xdp_pass

-- The checksum is taken over as it is.
unfoldable pub calculate_csum : Packet → ℕ
calculate_csum p = half_at p 24

abbrev pub get_next_available_ip_address : ℕ
get_next_available_ip_address = 1

-- `ip->saddr = address; ip->check = calculate_csum(ip); return XDP_PASS;`
unfoldable pub translated : NatMaps → Packet → ℕ → NatRun
unfolding calculate_csum
translated m p address =
    let q = write p 26 (le_bytes 4 address) in
    record { maps = m; packet = write q 24 (le_bytes 2 (calculate_csum q)); verdict = xdp_pass }

unfoldable pub xdp_nat : MapUpdate ℕ ℕ → NatMaps → Packet → NatRun
unfolding not_ipv4 translated
xdp_nat u m p =
    let drop : NatMaps → NatRun = λ n. record { maps = n; packet = p; verdict = xdp_drop } in
    let new_ip = get_next_available_ip_address in
    if not_ipv4 p then drop m else elim (m.outer2inner (saddr p)) [
      | some value ↦ translated m p value
      | none ↦ or_return (u.update m.outer2inner (saddr p) new_ip) (drop m) λ o2i.
          let m1 = record m { outer2inner = o2i } in
          or_return (u.update m1.inner2outer new_ip (saddr p)) (drop m1)
            λ i2o. translated (record m1 { inner2outer = i2o }) p new_ip
    ]
