-- ===== src/Crab/Syn.antt =====
-- What a SYN packet becomes: handle_syn.
use dram_pvt_mk.Base.{ℕ, ◌+◌, ◌*◌, ◌%◌, ◌≤◌, ◌≡◌, refl, ap, arith, List, length, some, ltb-eq-false}
use dram_pvt_mk.Base.Adjust.{AdjustHead}
use dram_pvt_mk.Base.Bytes.{Packet, byte_at, word_at, bytes_from, Returns}
use dram_pvt_mk.Base.Xdp.{xdp_tx}
use dram_pvt_mk.Checksum.Laws.{plain_sum}
use dram_pvt_mk.Checksum.Sums.{plain_sum-eq}
use dram_pvt_mk.Crab.{LbMaps, Kernel, get_target, update_macs, handle_tcp, handle_syn}
use dram_pvt_mk.Crab.Checksums.{CsumDiff, fix_ip_check-plain_sum, fix_tcp_check-plain_sum, tcp_sum}
use dram_pvt_mk.Crab.Rewrite.{readdressed, rerouted, length-fix_ip_check}
use dram_pvt_mk.Crab.Sent.{
  Redirected, ip_ready, with_tcp, sent, length-ip_ready, length-with_tcp, sent-below,
  sent-Redirected,
}

module _ (k : Kernel) (adjusts : AdjustHead k.adjust_head) (diff : CsumDiff k.csum_diff)
    (m m' : LbMaps) (p q : Packet) (ethh iph tcph daddr : ℕ) (mac : List ℕ)
    (grown : k.adjust_head p 8 ≡ some q) (eth_fits : ethh + 14 ≤ length p)
    (ip_fits : iph + 20 ≤ length p) (tcp_fits : tcph + 20 ≤ length p) (size : 54 ≤ length p)
    (target : get_target m ≡ some (m', some daddr)) (known : m'.macs_map daddr ≡ some mac)
    (mac_size : length mac ≡ 6) where
  length-q : length q ≡ 8 + length p
  length-q = adjusts.grows p q 8 grown

  moved : (i : ℕ) → byte_at q (8 + i) ≡ byte_at p i
  moved i = adjusts.keeps p q 8 i grown

  size_ready : length (ip_ready k p q ethh iph daddr mac) ≡ 8 + length p
  size_ready =
      length-ip_ready k p q ethh iph tcph daddr mac length-q moved eth_fits ip_fits tcp_fits size
        mac_size

  handle_tcp_lem :
      handle_tcp k m'
        (ip_ready k p q ethh iph daddr mac)
        (bytes_from p tcph 20)
        (word_at p (iph + 16))
      ≡ record { maps = m'; packet = (sent k p q ethh iph tcph daddr mac); verdict = xdp_tx }
  unfolding handle_tcp sent with_tcp
  handle_tcp_lem =
      rw
        (
          ltb-eq-false (length (ip_ready k p q ethh iph daddr mac)) 54 (omega (arith, size_ready)),
          ltb-eq-false (length (ip_ready k p q ethh iph daddr mac)) 62 (omega (arith, size_ready)),
        )
        refl

  handle_syn_lem :
      handle_syn k m p ethh iph tcph
      ≡ some (record { maps = m'; packet = (sent k p q ethh iph tcph daddr mac); verdict = xdp_tx })
  unfolding handle_syn update_macs ip_ready
  handle_syn_lem =
      rw (grown, target)
        (rw
          (
            ltb-eq-false (length q) 14 (omega (arith, length-q)),
            ltb-eq-false (length q) 34 (omega (arith, length-q)),
            known,
          )
          (ap some handle_tcp_lem))

  -- A SYN packet of 54 bytes or more that has its headers inside, whose chosen target and hardware
  -- address are known, and in front of which `bpf_xdp_adjust_head` made room, goes out: the verdict is
  -- XDP_TX, the maps are those that choosing the target left, and the words of its IP header add up
  -- to zero in one's-complement arithmetic.
  pub handle_syn-plain_sum :
      Returns
        (λ r. (r.verdict ≡ xdp_tx) × (r.maps ≡ m') × (plain_sum r.packet 10 14 % 65535 ≡ 0))
        (handle_syn k m p ethh iph tcph)
  unfolding ip_ready
  handle_syn-plain_sum =
      let a = rerouted (readdressed q (bytes_from p ethh 14) (bytes_from p iph 20) daddr) mac in
      rw handle_syn_lem (
        refl,
        refl,
        omega (
          arith,
          plain_sum-eq (ip_ready k p q ethh iph daddr mac) (sent k p q ethh iph tcph daddr mac) 10
              14
              (λ i l h.
                sent-below k p q ethh iph tcph daddr mac length-q moved eth_fits ip_fits tcp_fits
                  size mac_size i h),
          fix_ip_check-plain_sum k diff a (omega (arith, size_ready, length-fix_ip_check k a)),
        ),
      )

  -- A SYN packet of 54 bytes or more that has its headers inside, whose chosen target and hardware
  -- address are known, and in front of which `bpf_xdp_adjust_head` made room, goes out with a TCP
  -- checksum that a receiver accepts: the words of the addresses, the protocol number of TCP, the length
  -- of the segment by the IP header, and the words from the TCP header to the end of the packet add
  -- up to zero in one's-complement arithmetic, when there are ten 32-bit words at most behind the new
  -- option.
  pub handle_syn-tcp_sum :
      (words : ℕ)
      → words ≤ 10
      → length p ≡ 54 + 4 * words
      → Returns
          (λ r. (r.verdict ≡ xdp_tx) × (tcp_sum r.packet words % 65535 ≡ 0))
          (handle_syn k m p ethh iph tcph)
  unfolding sent with_tcp
  handle_syn-tcp_sum words w len = rw handle_syn_lem (
    refl,
    fix_tcp_check-plain_sum k diff (with_tcp k p q ethh iph tcph daddr mac) words w (
        omega (
          arith,
          length-with_tcp k p q ethh iph tcph daddr mac length-q moved eth_fits ip_fits tcp_fits
              size mac_size,
        )),
  )

  -- A SYN packet of 54 bytes or more that has its headers inside, whose chosen target and hardware
  -- address are known, and in front of which `bpf_xdp_adjust_head` made room, goes out eight bytes
  -- longer: with the hardware address and the IP address of the target, the old hardware destination as
  -- its source, a total length of 8 more, a data offset of 2 more modulo 16, an option of kind 42
  -- that keeps the old IP destination, and its bytes from the 54th on unchanged.
  pub handle_syn-Redirected :
      Returns
        (λ r. (r.verdict ≡ xdp_tx) × Redirected p r.packet ethh iph tcph daddr mac)
        (handle_syn k m p ethh iph tcph)
  handle_syn-Redirected = rw handle_syn_lem (
    refl,
    sent-Redirected k p q ethh iph tcph daddr mac length-q moved eth_fits ip_fits tcp_fits size
        mac_size,
  )
