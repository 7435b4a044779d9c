-- ===== src/Bmc/Prepare/Laws.antt =====
-- The headers of the reply, byte by byte.
use dram_pvt_mk.Base.{
  ℕ, ◌+◌, ◌-◌, ◌≤◌, ◌<◌, ◌≡◌, ◌∙◌, ap, refl, sym, arith, ◌++◌, true, false, leb, ltb, Option, some,
  length, length-take, length-drop, get_or, get_or-drop, take, drop, drop-append, leb-eq-false,
  ltb→lt, List,
}
use dram_pvt_mk.Base.Bits.{passes, passes_at}
use dram_pvt_mk.Base.Bytes.{
  Packet, byte_at, bytes_from, get_or-bytes_from, length-bytes_from, write, length-write,
  byte_at-write,
}
use dram_pvt_mk.Base.Xdp.{xdp_aborted}
use dram_pvt_mk.Bmc.{Maps}
use dram_pvt_mk.Bmc.Frame.{Frame, Delta, forward, backward, packet_of, with_packet, Adjusts}
use dram_pvt_mk.Base.Exchange.{exchange, exchanged, length-exchange, byte_at-exchange}
use dram_pvt_mk.Bmc.Prepare.{swap_headers, prepare_packet}

-- Where a byte of the reply's headers comes from in those of the request.
abbrev pub header_source : ℕ → ℕ
header_source i = exchanged 0 6 (exchanged 26 4 (exchanged 34 2 i))

byte_at-swap_headers :
    (p : Packet) (i : ℕ) → 38 ≤ length p → byte_at (swap_headers p) i ≡ byte_at p (header_source i)
unfolding swap_headers
byte_at-swap_headers p i h =
    let p1 = exchange p 0 6 in
    let p2 = exchange p1 26 4 in
    let l1 : length p1 ≡ length p = length-exchange p 0 6 in
    let l2 : length p2 ≡ length p1 = length-exchange p1 26 4 in
    byte_at-exchange p2 34 2 (omega (arith, l1, l2, h)) i
    ∙ byte_at-exchange p1 26 4 (omega (arith, l1, h)) (exchanged 34 2 i)
    ∙ byte_at-exchange p 0 6 (omega (arith, h)) (exchanged 26 4 (exchanged 34 2 i))

header_source_table : passes (λ i. ltb (header_source i) 50) 50 ≡ true
unfolding passes
header_source_table = refl

drop-take_append : (n : ℕ) (xs ys : List ℕ) → n ≤ length xs → drop n (take n xs ++ ys) ≡ ys
drop-take_append n xs ys h = drop-append n (take n xs) ys (length-take n xs h)

inside : (g : Frame) → 180 ≤ length (packet_of g) → g.head ≤ length g.buffer
inside g h = omega (arith, h, length-drop g.head g.buffer)

-- The headers that were moved to the new beginning.
byte_at-moved :
    (f g : Frame) (j : ℕ)
    → g.buffer ≡ f.buffer
    → g.head + 128 ≡ f.head
    → 180 ≤ length (packet_of g)
    → j < 50
    → byte_at (write (packet_of g) 0 (bytes_from (packet_of g) 128 50)) j ≡ byte_at (packet_of f) j
byte_at-moved f g j e d long h =
    let p = packet_of g in
    let size : length (bytes_from p 128 50) ≡ 50 =
      length-bytes_from p 128 50 (omega (arith, long)) in
    let place : g.head + (128 + j) ≡ f.head + j = omega (arith, d) in
    let zero_plus : j ≡ 0 + j = omega arith in
    ap (byte_at (write p 0 (bytes_from p 128 50))) zero_plus
    ∙ byte_at-write p 0 (bytes_from p 128 50) j (omega (arith, size, h)) (omega (arith, size, long))
    ∙ get_or-bytes_from p 128 50 j h
    ∙ get_or-drop g.head g.buffer (128 + j) 0
    ∙ ap (λ k. get_or g.buffer k 0) place
    ∙ ap (λ q. get_or q (f.head + j) 0) e
    ∙ sym (get_or-drop f.head f.buffer j 0)

-- When both calls of `bpf_xdp_adjust_head` succeed and the packet has a byte behind its headers,
-- the packet begins behind the new headers; of the 50 bytes in front of it, each is the byte of the
-- request's headers at the place that the exchange of addresses and ports gives.
pub prepare_packet_lem :
    (adjust_head : Frame → Delta → Option Frame)
    → Adjusts adjust_head
    → (m : Maps) (f g h : Frame) → adjust_head f (backward 128) ≡ some g
    → 180 ≤ length (packet_of g)
    → adjust_head
        (with_packet g (swap_headers (write (packet_of g) 0 (bytes_from (packet_of g) 128 50))))
        (forward 50)
      ≡ some h
    → let r = prepare_packet adjust_head m f in
      (r.verdict ≡ xdp_aborted)
      × (r.maps ≡ m)
      × (r.frame.head + 78 ≡ f.head)
      × ((i : ℕ)
          → i < 50
          → byte_at (drop (f.head - 128) r.frame.buffer) i
            ≡ byte_at (packet_of f) (header_source i))
unfolding prepare_packet
prepare_packet_lem adjust_head moves m f g h back long forth =
    let p = packet_of g in
    let moved = write p 0 (bytes_from p 128 50) in
    let t1 : leb (length p) 50 ≡ false = leb-eq-false _ 50 (omega (arith, long)) in
    let t2 : leb (length p) 179 ≡ false = leb-eq-false _ 179 (omega (arith, long)) in
    let b = moves.moves_backward f g 128 back in
    let w = moves.moves_forward (with_packet g (swap_headers moved)) h 50 forth in
    rw back (
      rw (t1, t2)
        (rw forth (
          refl,
          refl,
          omega (arith, b.1, w.1),
          λ i l.
              let start : f.head - 128 ≡ g.head = omega (arith, b.1) in
              let source = (ltb→lt (header_source i) 50 (passes_at _ i l header_source_table)) in
              rw (start, w.0)
                (rw (drop-take_append g.head g.buffer (swap_headers moved) (inside g long)) (
                  byte_at-swap_headers moved i
                    (omega (arith, length-write p 0 (bytes_from p 128 50), long))
                  ∙ byte_at-moved f g (header_source i) b.0 b.1 long source)),
        )))
