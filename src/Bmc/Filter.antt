-- ===== src/Bmc/Filter.antt =====
-- `bmc_rx_filter_main` and `bmc_tx_filter_main` of examples/bmc-cache/bmc_kern.c: which packets
-- the cache takes on their way in and out.
pub mod Laws
use dram_pvt_mk.Base.{
  ℕ, zero, suc, ◌+◌, ◌-◌, List, [], ◌∷◌, Bool, true, false, not, ◌&&◌, ◌||◌, ◌==◌, if◌then◌else◌,
  ltb, Option, none, some, length, drop, add32, swap16,
}
use dram_pvt_mk.Base.Table.{store, or_return}
use dram_pvt_mk.Base.Bytes.{Packet, byte_at, half_at}
use dram_pvt_mk.Base.Xdp.{
  xdp_aborted, xdp_pass, tc_act_ok, ethhdr_size, iphdr_size, udphdr_size, tcphdr_size, ipproto_udp,
  ipproto_tcp,
}
use dram_pvt_mk.Bmc.{
  Maps, ParsingContext, BmcStats, Run, max_packet_length, max_cache_data_size, memcached_payload,
}
use dram_pvt_mk.Bmc.Frame.{Frame, Delta, forward, FrameRun, packet_of}
use dram_pvt_mk.Bmc.Update.{update_cache}

-- `payload[0] == c0 && payload[1] == c1 && ...`
abbrev pub starts_with : List ℕ → Packet → Bool
starts_with [] p = true
starts_with (c ∷ cs) [] = false
starts_with (c ∷ cs) (b ∷ p) = b == c && starts_with cs p

-- "get "
abbrev pub get_text : List ℕ
get_text = b'g' ∷ b'e' ∷ b't' ∷ 32 ∷ []

-- "VALUE "
abbrev pub value_text : List ℕ
value_text = b'V' ∷ b'A' ∷ b'L' ∷ b'U' ∷ b'E' ∷ 32 ∷ []

-- The loop that moves `off` behind the spaces: `left` rounds, and the bytes from `off` on.
unfoldable pub skip_spaces : ℕ → ℕ → Packet → ℕ
skip_spaces zero off p = off
skip_spaces (suc left) off [] = off
skip_spaces (suc left) off (c ∷ p) =
    let rest = skip_spaces left (off + 1) p in if c == 32 then rest else off

-- The destination port, which TCP and UDP have in one place, and where the payload begins.
unfoldable pub transport : Packet → Option (ℕ × ℕ)
transport p =
    let transp = ethhdr_size + iphdr_size in
    if ltb (length p) transp
    then none
    else if byte_at p 23 == ipproto_udp
    then (if ltb (length p) (transp + udphdr_size)
        then none
        else some (half_at p (transp + 2), memcached_payload))
    else if byte_at p 23 == ipproto_tcp
    then (if ltb (length p) (transp + tcphdr_size)
        then none
        else some (half_at p (transp + 2), transp + tcphdr_size))
    else none

abbrev pub count_get : BmcStats → BmcStats
count_get s = record s { get_recv_count = add32 s.get_recv_count 1 }

module _ (adjust_head : Frame → Delta → Option Frame) where
  -- A GET request whose text is at `memcached_payload`.
  unfoldable pub begin_get : Maps → Frame → FrameRun
  unfolding skip_spaces
  begin_get m f =
      let pass : Maps → FrameRun = λ n. record { maps = n; frame = f; verdict = xdp_pass } in
      or_return (m.stats 0) (pass m) λ stats.
        let m1 = record m { stats = store m.stats 0 (count_get stats) } in
        or_return (m1.parsing_context 0) (pass m1) λ pctx.
          let pctx1 = record pctx { key_count = 0; current_key = 0; write_pkt_offset = 0 } in
          let off =
            skip_spaces (max_packet_length - 4) 4 (drop (memcached_payload + 4) (packet_of f)) in
          if ltb off max_packet_length
          then (let pctx2 = record pctx1 { read_pkt_offset = off } in
              let m2 = record m1 { parsing_context = store m1.parsing_context 0 pctx2 } in
              or_return (adjust_head f (forward (memcached_payload + off))) (pass m2)
                λ g. record { maps = m2; frame = g; verdict = xdp_aborted })
          else pass (record m1 { parsing_context = store m1.parsing_context 0 pctx1 })

  -- The tail calls are commented out: where the next program would run, 0 is returned.
  unfoldable pub rx_filter : Maps → Frame → FrameRun
  unfolding transport begin_get
  rx_filter m f =
      let p = packet_of f in
      let pass : FrameRun = record { maps = m; frame = f; verdict = xdp_pass } in
      or_return (transport p) pass λ t.
        if t.0 == swap16 11211 && not (ltb (length p) (t.1 + 4))
        then (if byte_at p 23 == ipproto_udp && starts_with get_text (drop t.1 p)
            then begin_get m f
            else if byte_at p 23 == ipproto_tcp
            then (record { maps = m; frame = f; verdict = xdp_aborted })
            else pass)
        else pass

abbrev pub count_reply : BmcStats → BmcStats
count_reply s = record s { get_resp_count = add32 s.get_resp_count 1 }

-- `skb_len` is the length of the whole packet, which may go on behind `data_end`. The tail call
-- runs `bmc_update_cache_main`.
unfoldable pub tx_filter : Maps → ℕ → Packet → Run
tx_filter m skb_len p =
    let ok : Run = record { maps = m; packet = p; verdict = tc_act_ok } in
    let pass : Run = record { maps = m; packet = p; verdict = xdp_pass } in
    if ltb (max_cache_data_size + memcached_payload) skb_len
    then ok
    else if ltb (length p) 34
    then pass
    else if not (byte_at p 23 == ipproto_udp)
    then ok
    else if ltb (length p) 42
    then ok
    else if half_at p 34 == swap16 11211
        && (not (ltb (length p) (memcached_payload + 6))
            && starts_with value_text (drop memcached_payload p))
    then (or_return (m.stats 0) pass
        λ stats. update_cache (record m { stats = store m.stats 0 (count_reply stats) }) p)
    else ok
