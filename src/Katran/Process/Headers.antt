-- ===== src/Katran/Process/Headers.antt =====
-- How the processing of the headers ends: the verdicts of process_l3_headers.
use dram_pvt_mk.Base.{
  ℕ, ◌+◌, ◌%◌, ◌≡◌, ◌⊎◌, refl, arith, inl, inr, Bool, true, false, ◌||◌, ◌==◌, ltb, length,
  Bool-cases, bit_and,
}
use dram_pvt_mk.Base.Table.{or_return}
use dram_pvt_mk.Base.Bytes.{Packet, byte_at, half_at}
use dram_pvt_mk.Base.Xdp.{xdp_drop, xdp_pass, xdp_tx}
use dram_pvt_mk.Katran.{PacketDescription, pckt_fragmented}
use dram_pvt_mk.Katran.Icmp.{
  Parsed, swap_mac_and_send, send_icmp_reply, send_icmp6_reply, parse_icmp, parse_icmpv6,
}
use dram_pvt_mk.Katran.Process.{process_l3_headers}

-- XDP_DROP or XDP_TX.
abbrev pub IsClosed : ℕ → Type 0
IsClosed v = (v ≡ xdp_drop) ⊎ (v ≡ xdp_tx)

send_icmp_reply-IsClosed : (p : Packet) → IsClosed (send_icmp_reply p).verdict
unfolding send_icmp_reply swap_mac_and_send
send_icmp_reply-IsClosed p = grind (arith, inl, inr)

send_icmp6_reply-IsClosed : (p : Packet) → IsClosed (send_icmp6_reply p).verdict
unfolding send_icmp6_reply swap_mac_and_send
send_icmp6_reply-IsClosed p = grind (arith, inl, inr)

-- A verdict that ends the processing of the headers leaves a packet that is passed unchanged.
abbrev pub Sensible : Packet → Parsed → Type 0
Sensible p r = or_return r.action (Unit {0}) λ v. IsClosed v ⊎ ((v ≡ xdp_pass) × (r.packet ≡ p))

parse_icmp-Sensible :
    (p : Packet) (off : ℕ) (d : PacketDescription) → Sensible p (parse_icmp p off d)
unfolding parse_icmp
parse_icmp-Sensible p off d = elim (Bool-cases (ltb (length p) (off + 8))) [
  | inl a ↦ rw a (inl (inl refl))
  | inr a ↦ rw a (elim (Bool-cases (byte_at p off == 8)) [
    | inl c ↦ rw c (inl (send_icmp_reply-IsClosed p))
    | inr c ↦ rw c (elim (Bool-cases (byte_at p off == 3)) [
      | inr e ↦ rw e (inr (refl, refl))
      | inl e ↦ rw e (elim (Bool-cases (ltb (length p) (off + 28))) [
        | inl f ↦ rw f (inl (inl refl))
        | inr f ↦ rw f (elim (Bool-cases (byte_at p (off + 8) % 16 == 5)) [
          | inl g ↦ rw g tt
          | inr g ↦ rw g (inl (inl refl))
        ])
      ])
    ])
  ])
]

parse_icmpv6-Sensible :
    (p : Packet) (off : ℕ) (d : PacketDescription) → Sensible p (parse_icmpv6 p off d)
unfolding parse_icmpv6
parse_icmpv6-Sensible p off d = elim (Bool-cases (ltb (length p) (off + 8))) [
  | inl a ↦ rw a (inl (inl refl))
  | inr a ↦ rw a (elim (Bool-cases (byte_at p off == 128)) [
    | inl c ↦ rw c (inl (send_icmp6_reply-IsClosed p))
    | inr c ↦ rw c (elim (Bool-cases (byte_at p off == 2 || byte_at p off == 1)) [
      | inr e ↦ rw e (inr (refl, refl))
      | inl e ↦ rw e (elim (Bool-cases (ltb (length p) (off + 48))) [
        | inl f ↦ rw f (inl (inl refl))
        | inr f ↦ rw f tt
      ])
    ])
  ])
]

pub process_l3_headers-Sensible :
    (p : Packet) (off : ℕ) (is_ipv6 : Bool) (d : PacketDescription)
    → Sensible p (process_l3_headers p off is_ipv6 d)
unfolding process_l3_headers
process_l3_headers-Sensible p off true d = elim (Bool-cases (ltb (length p) (off + 40))) [
  | inl a ↦ rw a (inl (inl refl))
  | inr a ↦ rw a (elim (Bool-cases (byte_at p (off + 6) == 44)) [
    | inl c ↦ rw c (inl (inl refl))
    | inr c ↦ rw c (elim (Bool-cases (byte_at p (off + 6) == 58)) [
      | inl e ↦ rw e (parse_icmpv6-Sensible p (off + 40) _)
      | inr e ↦ rw e tt
    ])
  ])
]
process_l3_headers-Sensible p off false d = elim (Bool-cases (ltb (length p) (off + 20))) [
  | inl a ↦ rw a (inl (inl refl))
  | inr a ↦ rw a (elim (Bool-cases (byte_at p off % 16 == 5)) [
    | inr c ↦ rw c (inl (inl refl))
    | inl c ↦ rw c (elim (Bool-cases (bit_and (half_at p (off + 6)) pckt_fragmented == 0)) [
      | inr e ↦ rw e (inl (inl refl))
      | inl e ↦ rw e (elim (Bool-cases (byte_at p (off + 9) == 1)) [
        | inl f ↦ rw f (parse_icmp-Sensible p (off + 20) _)
        | inr f ↦ rw f tt
      ])
    ])
  ])
]
