-- ===== src/Katran/Inline.antt =====
-- The inline decapsulation of balancer_kern.h in examples/katran, which INLINE_DECAP turns on, with
-- recirculate of balancer_helpers.h.
pub mod Laws
pub mod Roundtrip
use dram_pvt_mk.Base.{
  ℕ, ◌+◌, Bool, true, false, ◌==◌, ltb, if◌then◌else◌, Option, none, some, length, bit_and,
}
use dram_pvt_mk.Base.Table.{Table, or_return}
use dram_pvt_mk.Base.Bytes.{Packet, byte_at}
use dram_pvt_mk.Base.Xdp.{xdp_drop, xdp_pass}
use dram_pvt_mk.Katran.{
  Address, PacketDescription, BalancerKernel, LbStats, max_vips, no_address, raise_v1,
}
use dram_pvt_mk.Katran.Encap.{
  Moved, decap_v4, decap_v6, gue_decap_v4, gue_decap_v6, decrement_ttl, ipproto_ipip, ipproto_ipv6,
}

abbrev pub remote_encap_cntrs : ℕ
remote_encap_cntrs = 6

abbrev pub guev1_ipv6_mask : ℕ
guev1_ipv6_mask = 0x30

-- `recirculated` is the tail call to the load balancer itself.
pub data Ending : Type 0 where
  verdict : ℕ → Ending
  recirculated : Ending

pub record Inlined : Type 0 where
  pub packet : Packet
  pub ending : Ending

-- `action` is `none` for FURTHER_PROCESSING.
pub record Checked : Type 0 where
  pub stats : Table LbStats
  pub passes : Bool
  pub action : Option ℕ

unfoldable pub check_decap_dst :
    (Address → Option ℕ) → Table LbStats → PacketDescription → Bool → Checked
check_decap_dst decap_dst stats d is_ipv6 =
    let dst_addr = if is_ipv6 then d.flow.dst else record no_address { w0 = d.flow.dst.w0 } in
    let key = max_vips + remote_encap_cntrs in
    or_return (decap_dst dst_addr) (record { stats = stats; passes = true; action = none })
      λ flags.
        or_return (stats key) (record { stats = stats; passes = false; action = some xdp_drop })
          λ s. record { stats = raise_v1 stats key 1; passes = false; action = none }

-- `action` is what decrement_ttl returned.
abbrev pub ending_after : Option ℕ → Bool → Ending
ending_after action passes =
    or_return action (if passes then verdict xdp_pass else recirculated) λ a. verdict a

-- The time to live of the inner packet, its decapsulation, and what becomes of it.
unfoldable pub inline_decap : Packet → ℕ → Bool → (Packet → Moved) → Bool → Inlined
inline_decap p offset inner_v6 decap passes =
    let r = decrement_ttl p offset inner_v6 in
    let d = decap r.0 in
    if d.moved
    then record { packet = d.packet; ending = ending_after r.1 passes }
    else record { packet = d.packet; ending = verdict xdp_drop }

-- `none` where `action` is read before it is set.
unfoldable pub process_encaped_ipip_pckt :
    BalancerKernel → Packet → Bool → ℕ → Bool → Option Inlined
process_encaped_ipip_pckt k p is_ipv6 protocol passes =
    let drop : Inlined = record { packet = p; ending = verdict xdp_drop } in
    if protocol == ipproto_ipip
    then (if is_ipv6
        then (if ltb (length p) 54
            then some drop
            else some (inline_decap p 54 false (λ q. decap_v6 k q true) passes))
        else if ltb (length p) 34
        then some drop
        else some (inline_decap p 34 false (λ q. decap_v4 k q) passes))
    else if protocol == ipproto_ipv6
    then (if ltb (length p) 54
        then some drop
        else some (inline_decap p 54 true (λ q. decap_v6 k q false) passes))
    else none

unfoldable pub process_encaped_gue_pckt : BalancerKernel → Packet → Bool → Bool → Inlined
process_encaped_gue_pckt k p is_ipv6 passes =
    let drop : Inlined = record { packet = p; ending = verdict xdp_drop } in
    if is_ipv6
    then (if ltb (length p) 63
        then drop
        else if bit_and (byte_at p 62) guev1_ipv6_mask == 0
        then inline_decap p 62 false (λ q. gue_decap_v6 k q true) passes
        else inline_decap p 62 true (λ q. gue_decap_v6 k q false) passes)
    else if ltb (length p) 42
    then drop
    else inline_decap p 42 false (λ q. gue_decap_v4 k q) passes
