-- ===== src/Crab/Sent.antt =====
-- The rewritten SYN packet against the one that came in.
use dram_pvt_mk.Base.{
  ℕ, ◌+◌, ◌/◌, ◌%◌, ◌^◌, ◌≤◌, ◌<◌, ◌≡◌, ◌⊎◌, ap, ◌∙◌, arith, List, length, inl, inr, swap16, get_or,
}
use dram_pvt_mk.Base.Bytes.{
  Packet, byte_at, half_at, word_at, bytes_from, get_or-bytes_from, length-bytes_from,
}
use dram_pvt_mk.Crab.{Kernel, fix_ip_check, redir_opt, fix_tcp_check}
use dram_pvt_mk.Crab.Rewrite.{
  readdressed, rerouted, fix_ip_check-ne, length-fix_ip_check, length-readdressed, length-rerouted,
  rerouted-dest, rerouted-source, rerouted-ne, readdressed-eth, readdressed-above,
  readdressed-daddr, readdressed-tot_len,
}
use dram_pvt_mk.Crab.Options.{
  with_option, fix_tcp_check-ne, length-fix_tcp_check, length-with_option, with_option-ne,
  with_option-option, with_option-doff,
}

-- The packet that goes to the target, against the SYN packet that came in.
pub record Redirected (p out : Packet) (ethh iph tcph daddr : ℕ) (mac : List ℕ) : Type 0 where
  pub size : length out ≡ 8 + length p
  pub dest : (j : ℕ) → j < 6 → byte_at out j ≡ get_or mac j 0
  pub source : (j : ℕ) → j < 6 → byte_at out (6 + j) ≡ byte_at p (ethh + j)
  pub tot_len : swap16 (half_at out 16) ≡ (swap16 (half_at p (iph + 2)) + 8) % 2 ^ 16
  pub target : word_at out 30 ≡ daddr % 2 ^ 32
  pub doff : byte_at out 46 / 16 ≡ (byte_at p (tcph + 12) / 16 + 2) % 16
  pub kind : (byte_at out 54 ≡ 42) × (byte_at out 55 ≡ 6) × (half_at out 60 ≡ 0x0101)
  pub old_daddr : word_at out 56 ≡ word_at p (iph + 16) % 2 ^ 32
  pub rest : (i : ℕ) → 54 ≤ i → byte_at out (8 + i) ≡ byte_at p i

-- The packet with its new Ethernet and IP headers, then with its TCP header and the option as well, and
-- as it is sent.
unfoldable pub ip_ready : Kernel → Packet → Packet → ℕ → ℕ → ℕ → List ℕ → Packet
ip_ready k p q ethh iph daddr mac =
    fix_ip_check k (rerouted (readdressed q (bytes_from p ethh 14) (bytes_from p iph 20) daddr) mac)

unfoldable pub with_tcp : Kernel → Packet → Packet → ℕ → ℕ → ℕ → ℕ → List ℕ → Packet
with_tcp k p q ethh iph tcph daddr mac =
    with_option (ip_ready k p q ethh iph daddr mac) (bytes_from p tcph 20) (word_at p (iph + 16))

unfoldable pub sent : Kernel → Packet → Packet → ℕ → ℕ → ℕ → ℕ → List ℕ → Packet
unfolding with_tcp
sent k p q ethh iph tcph daddr mac = fix_tcp_check k (with_tcp k p q ethh iph tcph daddr mac)

module _ (k : Kernel) (p q : Packet) (ethh iph tcph daddr : ℕ) (mac : List ℕ)
    (length-q : length q ≡ 8 + length p) (moved : (i : ℕ) → byte_at q (8 + i) ≡ byte_at p i)
    (eth_fits : ethh + 14 ≤ length p) (ip_fits : iph + 20 ≤ length p)
    (tcp_fits : tcph + 20 ≤ length p) (size : 54 ≤ length p) (mac_size : length mac ≡ 6) where
  pub length-ip_ready : length (ip_ready k p q ethh iph daddr mac) ≡ 8 + length p
  unfolding ip_ready
  length-ip_ready =
      let a = readdressed q (bytes_from p ethh 14) (bytes_from p iph 20) daddr in
      length-fix_ip_check k (rerouted a mac)
      ∙ length-rerouted a mac
      ∙ length-readdressed q (bytes_from p ethh 14) (bytes_from p iph 20) daddr
      ∙ length-q

  length-tcp : length (bytes_from p tcph 20) ≡ 20
  length-tcp = length-bytes_from p tcph 20 tcp_fits

  room : 62 ≤ length (ip_ready k p q ethh iph daddr mac)
  room = omega (arith, length-ip_ready)

  pub length-with_tcp : length (with_tcp k p q ethh iph tcph daddr mac) ≡ 8 + length p
  unfolding with_tcp
  length-with_tcp = length-with_option (ip_ready k p q ethh iph daddr mac) _ _ ∙ length-ip_ready

  pub sent-below :
      (i : ℕ)
      → i < 34
      → byte_at (sent k p q ethh iph tcph daddr mac) i
        ≡ byte_at (ip_ready k p q ethh iph daddr mac) i
  unfolding sent with_tcp
  sent-below i h =
      fix_tcp_check-ne k (with_option (ip_ready k p q ethh iph daddr mac) _ _) i (inl (omega arith))
      ∙ with_option-ne (ip_ready k p q ethh iph daddr mac) (bytes_from p tcph 20) _ length-tcp room
          i (inl h)

  ip_ready-dest : (j : ℕ) → j < 6 → byte_at (ip_ready k p q ethh iph daddr mac) j ≡ get_or mac j 0
  unfolding ip_ready
  ip_ready-dest j h =
      let a = readdressed q (bytes_from p ethh 14) (bytes_from p iph 20) daddr in
      fix_ip_check-ne k (rerouted a mac) j (inl (omega arith))
      ∙ rerouted-dest a mac mac_size (omega (arith, length-a)) j h
    where
      length-a :
          length (readdressed q (bytes_from p ethh 14) (bytes_from p iph 20) daddr) ≡ 8 + length p
      length-a = length-readdressed q _ _ daddr ∙ length-q

  ip_ready-source :
      (j : ℕ) → j < 6 → byte_at (ip_ready k p q ethh iph daddr mac) (6 + j) ≡ byte_at p (ethh + j)
  unfolding ip_ready
  ip_ready-source j h =
      let eth = bytes_from p ethh 14 in
      let ip = bytes_from p iph 20 in
      let a = readdressed q eth ip daddr in
      let length-a = length-readdressed q eth ip daddr ∙ length-q in
      fix_ip_check-ne k (rerouted a mac) (6 + j) (inl (omega arith))
      ∙ rerouted-source a mac mac_size (omega (arith, length-a)) j h
      ∙ readdressed-eth q eth ip daddr (length-bytes_from p ethh 14 eth_fits)
          (length-bytes_from p iph 20 ip_fits) (omega (arith, length-q)) j (omega arith)
      ∙ get_or-bytes_from p ethh 14 j (omega arith)

  ip_ready-ne :
      (i : ℕ)
      → 12 ≤ i
      → (i < 24) ⊎ (26 ≤ i)
      → byte_at (ip_ready k p q ethh iph daddr mac) i
        ≡ byte_at (readdressed q (bytes_from p ethh 14) (bytes_from p iph 20) daddr) i
  unfolding ip_ready
  ip_ready-ne i l h =
      let a = readdressed q (bytes_from p ethh 14) (bytes_from p iph 20) daddr in
      fix_ip_check-ne k (rerouted a mac) i h
      ∙ rerouted-ne a mac mac_size
          (omega (
            arith,
            length-readdressed q (bytes_from p ethh 14) (bytes_from p iph 20) daddr,
            length-q,
          ))
          i l

  sent-tot_len :
      swap16 (half_at (sent k p q ethh iph tcph daddr mac) 16)
      ≡ (swap16 (half_at p (iph + 2)) + 8) % 2 ^ 16
  sent-tot_len =
      let ip = bytes_from p iph 20 in
      let next : iph + 3 ≡ iph + 2 + 1 = omega arith in
      omega (
        arith,
        sent-below 16 (omega arith),
        sent-below 17 (omega arith),
        ip_ready-ne 16 (omega arith) (inl (omega arith)),
        ip_ready-ne 17 (omega arith) (inl (omega arith)),
        readdressed-tot_len q (bytes_from p ethh 14) ip daddr (length-bytes_from p ethh 14 eth_fits)
            (length-bytes_from p iph 20 ip_fits) (omega (arith, length-q)),
        get_or-bytes_from p iph 20 2 (omega arith),
        get_or-bytes_from p iph 20 3 (omega arith),
        ap (byte_at p) next,
      )

  sent-target : word_at (sent k p q ethh iph tcph daddr mac) 30 ≡ daddr % 2 ^ 32
  sent-target =
      let b =
        λ (i : ℕ) (l : 26 ≤ i) (u : i < 34). sent-below i u ∙ ip_ready-ne i (omega arith) (inr l) in
      omega (
        arith,
        b 30,
        b 31,
        b 32,
        b 33,
        readdressed-daddr q (bytes_from p ethh 14) (bytes_from p iph 20) daddr
            (length-bytes_from p ethh 14 eth_fits) (length-bytes_from p iph 20 ip_fits)
            (omega (arith, length-q)),
      )

  sent-option :
      (j : ℕ)
      → j < 8
      → byte_at (sent k p q ethh iph tcph daddr mac) (54 + j)
        ≡ get_or (redir_opt (word_at p (iph + 16))) j 0
  unfolding sent with_tcp
  sent-option j h =
      fix_tcp_check-ne k (with_option (ip_ready k p q ethh iph daddr mac) _ _) (54 + j)
        (inr (omega arith))
      ∙ with_option-option (ip_ready k p q ethh iph daddr mac) (bytes_from p tcph 20) _ length-tcp
          room j h

  sent-rest : (i : ℕ) → 54 ≤ i → byte_at (sent k p q ethh iph tcph daddr mac) (8 + i) ≡ byte_at p i
  unfolding sent with_tcp
  sent-rest i h =
      fix_tcp_check-ne k (with_option (ip_ready k p q ethh iph daddr mac) _ _) (8 + i)
        (inr (omega arith))
      ∙ with_option-ne (ip_ready k p q ethh iph daddr mac) (bytes_from p tcph 20) _ length-tcp room
          (8 + i) (inr (omega arith))
      ∙ ip_ready-ne (8 + i) (omega arith) (inr (omega arith))
      ∙ readdressed-above q (bytes_from p ethh 14) (bytes_from p iph 20) daddr
          (length-bytes_from p ethh 14 eth_fits) (length-bytes_from p iph 20 ip_fits)
          (omega (arith, length-q)) (8 + i) (omega arith)
      ∙ moved i

  sent-doff :
      byte_at (sent k p q ethh iph tcph daddr mac) 46 / 16 ≡ (byte_at p (tcph + 12) / 16 + 2) % 16
  unfolding sent with_tcp
  sent-doff = omega (
    arith,
    fix_tcp_check-ne k
        (with_option (ip_ready k p q ethh iph daddr mac) (bytes_from p tcph 20)
          (word_at p (iph + 16)))
        46 (inl (omega arith)),
    with_option-doff (ip_ready k p q ethh iph daddr mac) (bytes_from p tcph 20)
        (word_at p (iph + 16)) length-tcp room,
    get_or-bytes_from p tcph 20 12 (omega arith),
  )

  length-sent : length (sent k p q ethh iph tcph daddr mac) ≡ 8 + length p
  unfolding sent with_tcp
  length-sent = length-fix_tcp_check k (with_tcp k p q ethh iph tcph daddr mac) ∙ length-with_tcp

  pub sent-Redirected : Redirected p (sent k p q ethh iph tcph daddr mac) ethh iph tcph daddr mac
  sent-Redirected = record {
    size = length-sent;
    dest = λ j h. sent-below j (omega arith) ∙ ip_ready-dest j h;
    source = λ j h. sent-below (6 + j) (omega arith) ∙ ip_ready-source j h;
    tot_len = sent-tot_len;
    target = sent-target;
    doff = sent-doff;
    kind = (
      sent-option 0 (omega arith),
      sent-option 1 (omega arith),
      omega (arith, sent-option 6, sent-option 7),
    );
    old_daddr = omega (arith, sent-option 2, sent-option 3, sent-option 4, sent-option 5);
    rest = sent-rest;
  }
