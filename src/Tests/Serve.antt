-- ===== src/Tests/Serve.antt =====
-- A reply for the key "k" and a request for it, in buffers with 256 bytes in front.
use dram_pvt_mk.Base.{
  ℕ, ◌+◌, ◌-◌, ◌≡◌, refl, ap, sym, Bool, true, false, arith, [], ◌∷◌, ◌++◌, Option, some, none,
  ◌==◌, if◌then◌else◌, ltb, length, take, ◌<◌, Bool-cases, inl, inr, drop,
}
use dram_pvt_mk.Base.Bytes.{Packet, byte_at, bytes_from, write, Returns}
use dram_pvt_mk.Base.Xdp.{xdp_aborted}
use dram_pvt_mk.Bmc.Frame.{Frame, Delta, with_packet, forward, backward, packet_of, Adjusts}
use dram_pvt_mk.Bmc.Hashing.{key_hash}
use dram_pvt_mk.Bmc.HashKeys.{hash_keys}
use dram_pvt_mk.Bmc.Coherence.{value_payload}
use dram_pvt_mk.Bmc.Filter.{rx_filter, tx_filter}
use dram_pvt_mk.Bmc.Filter.Laws.{IsGet}
use dram_pvt_mk.Bmc.Serve.{get_after_reply}
use dram_pvt_mk.Bmc.{CacheEntry, ParsingContext, Maps}
use dram_pvt_mk.Bmc.Prepare.{swap_headers, prepare_packet}
use dram_pvt_mk.Bmc.Prepare.Laws.{header_source, prepare_packet_lem}
use dram_pvt_mk.Bmc.Reply.{copy_entry}
use dram_pvt_mk.Bmc.Reply.Laws.{copy_entry_lem}
use dram_pvt_mk.Tests.Bmc.{
  maps, empty_entry, no_stats, context, no_key, zeros, key_k, rest_of_reply, found_k,
}

-- Moves that stay in the buffer and leave an Ethernet header.
abbrev pub adjust_head : Frame → Delta → Option Frame
adjust_head f (forward n) =
    if ltb (length f.buffer) (f.head + n + 14) then none else some (record f { head = f.head + n })
adjust_head f (backward n) = if ltb f.head n then none else some (record f { head = f.head - n })

abbrev frame_or : Frame → Option Frame → Frame
frame_or d none = d
frame_or d (some f) = f

moved_frame : (t : Bool) (f g : Frame) → (if t then none else some f) ≡ some g → f ≡ g
moved_frame true f g h = absurd (ground arith)
moved_frame false f g h = ap (λ o. frame_or f o) h

backward_lem :
    (f g : Frame) (n : ℕ)
    → adjust_head f (backward n) ≡ some g
    → (g.buffer ≡ f.buffer) × (g.head + n ≡ f.head)
backward_lem f g n h = elim (Bool-cases (ltb f.head n)) [
  | inl short ↦ absurd (ground arith)
  | inr enough ↦
      let e = moved_frame (ltb f.head n) (record f { head = f.head - n }) g h in
      let head : f.head - n ≡ g.head = ap (λ x. x.head) e in
      (sym (ap (λ x. x.buffer) e), ground arith)
]

pub adjust_head-Adjusts : Adjusts adjust_head
adjust_head-Adjusts = record {
  moves_forward = λ f g n h.
      let e =
        moved_frame (ltb (length f.buffer) (f.head + n + 14)) (record f { head = f.head + n }) g
          h in
      (sym (ap (λ x. x.buffer) e), sym (ap (λ x. x.head) e));
  moves_backward = backward_lem;
}

abbrev reply_header : Packet
reply_header = zeros 23 ++ (17 ∷ (zeros 10 ++ (43 ∷ 203 ∷ zeros 14)))

abbrev reply : Packet
reply = reply_header ++ value_payload key_k rest_of_reply

abbrev request_header : Packet
request_header = zeros 23 ++ (17 ∷ (zeros 12 ++ (43 ∷ 203 ∷ zeros 12)))

-- "get  k\r" and the end of the line.
abbrev request : Frame
request = record {
  buffer =
      zeros 256 ++ (request_header ++ (b'g' ∷ b'e' ∷ b't' ∷ 32 ∷ 32 ∷ 107 ∷ 13 ∷ 10 ∷ zeros 20));
  head = 256;
}

request-IsGet : IsGet request request_header 1 107 (13 ∷ 10 ∷ zeros 20)
request-IsGet = record {
  bytes = refl;
  headers = refl;
  over_udp = refl;
  to_memcached = refl;
  key_begins = omega arith;
  in_reach = omega arith;
}

get_after_reply_example :
    let r = rx_filter adjust_head (tx_filter (maps empty_entry) 70 reply).maps request in
    Returns
      (λ s.
        (s.maps.parsing_context 0
          ≡ some (record context {
            key_count = 1;
            current_key = 0;
            write_pkt_offset = 0;
            read_pkt_offset = 5;
          }))
        × (s.maps.keys 0 ≡ some (record no_key { hash = key_hash key_k; len = 1 })))
      (hash_keys r.maps (packet_of r.frame))
get_after_reply_example =
    get_after_reply adjust_head adjust_head-Adjusts (maps empty_entry) reply reply_header
      rest_of_reply 70 107 [] empty_entry no_stats context no_key request
      (record request { head = 311 }) request_header (10 ∷ zeros 20) 1 13
      (record {
        cached = found_k empty_entry;
        whole = refl;
        counted = refl;
        context = refl;
        key_slot = refl;
      })
      (record {
        bytes = refl;
        headers = refl;
        over_udp = refl;
        from_memcached = refl;
        fits = omega arith;
        whole = refl;
      })
      (refl, tt) (omega arith) refl request-IsGet refl

-- An entry of five bytes, in a packet of eight.
abbrev hello_entry : CacheEntry
hello_entry = record empty_entry { len = 5; data_bytes = 104 ∷ 101 ∷ 108 ∷ 108 ∷ 111 ∷ zeros 1298 }

copy_entry_lem_example :
    copy_entry hello_entry (zeros 8)
    ≡ record { off = 5; written = 5; packet = write (zeros 8) 0 (take 5 hello_entry.data_bytes) }
copy_entry_lem_example = copy_entry_lem hello_entry (zeros 8) refl

abbrev in_front : Frame
in_front = record request { head = 128 }

prepare_packet_lem_example :
    let r = prepare_packet adjust_head (maps empty_entry) request in
    (r.verdict ≡ xdp_aborted)
    × (r.maps ≡ maps empty_entry)
    × (r.frame.head + 78 ≡ 256)
    × ((i : ℕ)
        → i < 50
        → byte_at (drop 128 r.frame.buffer) i ≡ byte_at (packet_of request) (header_source i))
unfolding swap_headers write
prepare_packet_lem_example =
    prepare_packet_lem adjust_head adjust_head-Adjusts (maps empty_entry) request in_front
      (record (with_packet in_front
        (swap_headers (write (packet_of in_front) 0 (bytes_from (packet_of in_front) 128 50)))) {
          head = 178;
        })
      refl (omega arith) refl

abbrev keep_tail : Frame → ℕ → Option Frame
keep_tail f n = none

abbrev one_context : ParsingContext
one_context = record context { key_count = 1 }

abbrev one_key : Maps
one_key = record (maps empty_entry) {
  parsing_context = λ i. if i == 0 then some one_context else none;
}
