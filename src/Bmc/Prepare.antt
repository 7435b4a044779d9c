-- ===== src/Bmc/Prepare.antt =====
-- `bmc_prepare_packet_main` of examples/bmc-cache/bmc_kern.c: room for the reply in front of the
-- packet, and the reply's headers from those of the request.
pub mod Laws
use dram_pvt_mk.Base.{
  ℕ, zero, suc, ◌+◌, ◌-◌, ◌≤◌, ◌<◌, ◌≡◌, ◌∙◌, ap, refl, sym, arith, List, [], ◌∷◌, ◌++◌, Bool, true,
  false, ◌||◌, leb, ltb, if◌then◌else◌, Option, none, some, length, length-append, get_or, take,
  drop,
}
use dram_pvt_mk.Base.Table.{or_return}
use dram_pvt_mk.Base.Bytes.{
  Packet, byte_at, bytes_from, write, length-write, byte_at-write, byte_at-write_below,
  byte_at-write_above,
}
use dram_pvt_mk.Base.Exchange.{exchange}
use dram_pvt_mk.Base.Xdp.{xdp_aborted, xdp_pass}
use dram_pvt_mk.Bmc.{Maps, adjust_head_len, memcached_payload}
use dram_pvt_mk.Bmc.Frame.{Frame, Delta, forward, backward, FrameRun, packet_of, with_packet}

-- The hardware addresses, the IP addresses, the ports.
unfoldable pub swap_headers : Packet → Packet
unfolding exchange
swap_headers p = exchange (exchange (exchange p 0 6) 26 4) 34 2

unfoldable pub prepare_packet : (Frame → Delta → Option Frame) → Maps → Frame → FrameRun
unfolding swap_headers
prepare_packet adjust_head m f =
    let pass : Frame → FrameRun = λ g. record { maps = m; frame = g; verdict = xdp_pass } in
    or_return (adjust_head f (backward adjust_head_len)) (pass f) λ g.
      let p = packet_of g in
      if leb (length p) memcached_payload
        || leb (length p) (adjust_head_len + memcached_payload + 1)
      then pass g
      else (let moved = write p 0 (bytes_from p adjust_head_len memcached_payload) in
          let h = with_packet g (swap_headers moved) in
          or_return (adjust_head h (forward memcached_payload)) (pass h)
            λ k. record { maps = m; frame = k; verdict = xdp_aborted })
