-- ===== src/Katran/Icmp/Reply.antt =====
-- The bytes of the reply to an echo request: send_icmp_reply.
use dram_pvt_mk.Base.{
  ℕ, ◌+◌, ◌%◌, ◌^◌, ◌≤◌, ◌<◌, ◌≡◌, ◌∙◌, refl, ap, arith, [], ◌∷◌, ltb-eq-false, length, IsBytes,
  All-append, All-take, All-drop,
}
use dram_pvt_mk.Base.Bytes.{
  Packet, byte_at, half_at, write, le_bytes, length-write, byte_at-write, byte_at-write_below,
  byte_at-write_above,
}
use dram_pvt_mk.Base.Exchange.{exchange, exchanged, length-exchange, byte_at-exchange}
use dram_pvt_mk.Base.Xdp.{xdp_tx}
use dram_pvt_mk.Checksum.Laws.{plain_sum, IsBytes-write}
use dram_pvt_mk.Checksum.Sums.{plain_sum-eq, half_at-write}
use dram_pvt_mk.Katran.{default_ttl}
use dram_pvt_mk.Katran.Csum.{ipv4_csum_inline}
use dram_pvt_mk.Katran.Csum.Laws.{plain_sum-ipv4_csum_inline}
use dram_pvt_mk.Katran.Icmp.{swap_mac_and_send, send_icmp_reply}

IsBytes-exchange : (p : Packet) (a n : ℕ) → IsBytes p → IsBytes (exchange p a n)
unfolding exchange
IsBytes-exchange p a n h =
    let cut = λ (i : ℕ). All-take (λ (x : ℕ). x < 256) n _ (All-drop (λ (x : ℕ). x < 256) i p h) in
    IsBytes-write p a _ h (All-append (λ (x : ℕ). x < 256) _ _ (cut (a + n)) (cut a))

exchanged-above : (a n i : ℕ) → a + n + n ≤ i → exchanged a n i ≡ i
exchanged-above a n i h = ground arith

module _ (p : Packet) (long : 42 ≤ length p) where
  a : Packet
  a = write p 34 (0 ∷ [])

  check : ℕ
  check = (half_at a 36 + 8) % 2 ^ 16

  b : Packet
  b = write a 36 (le_bytes 2 check)

  c : Packet
  c = exchange (write b 22 (default_ttl ∷ [])) 26 4

  z : Packet
  z = write c 24 (le_bytes 2 0)

  w : Packet
  w = write z 24 (le_bytes 2 (ipv4_csum_inline z 14))

  pub r : Packet
  r = exchange w 0 6

  pub run : send_icmp_reply p ≡ record { packet = r; verdict = xdp_tx }
  unfolding send_icmp_reply swap_mac_and_send r w z c b check a
  run = rw (ltb-eq-false (length p) 42 long) refl

  size_c : length c ≡ length p
  unfolding c b a
  size_c =
      length-exchange (write b 22 (default_ttl ∷ [])) 26 4
      ∙ length-write b 22 (default_ttl ∷ [])
      ∙ length-write a 36 (le_bytes 2 check)
      ∙ length-write p 34 (0 ∷ [])

  size_w : length w ≡ length p
  unfolding w z
  size_w = length-write z 24 _ ∙ length-write c 24 _ ∙ size_c

  pub size_r : length r ≡ length p
  unfolding r
  size_r = length-exchange w 0 6 ∙ size_w

  -- Behind the Ethernet header the swap of the addresses changes nothing, and behind the IP header
  -- only the two stores to the ICMP header do.
  r-w : (i : ℕ) → 12 ≤ i → byte_at r i ≡ byte_at w i
  unfolding r
  r-w i h =
      byte_at-exchange w 0 6 (omega (arith, size_w)) i ∙ ap (byte_at w) (exchanged-above 0 6 i h)

  r-b : (i : ℕ) → 34 ≤ i → byte_at r i ≡ byte_at b i
  unfolding w z c b a
  r-b i h =
      r-w i (omega arith)
      ∙ byte_at-write_above z 24 _ i (omega arith)
      ∙ byte_at-write_above c 24 _ i (omega arith)
      ∙ byte_at-exchange (write b 22 (default_ttl ∷ [])) 26 4 (omega (arith, size_c, size_b)) i
      ∙ ap (byte_at (write b 22 (default_ttl ∷ []))) (exchanged-above 26 4 i h)
      ∙ byte_at-write_above b 22 (default_ttl ∷ []) i (omega arith)
    where
      size_b : length (write b 22 (default_ttl ∷ [])) ≡ length p
      size_b =
          length-write b 22 (default_ttl ∷ [])
          ∙ length-write a 36 (le_bytes 2 check)
          ∙ length-write p 34 (0 ∷ [])

  r-a : (i : ℕ) → 34 ≤ i → (i < 36) → byte_at r i ≡ byte_at a i
  unfolding b
  r-a i h u = r-b i h ∙ byte_at-write_below a 36 (le_bytes 2 check) i u

  -- The source and the destination address, byte by byte.
  pub r-address : (i : ℕ) → 26 ≤ i → i < 34 → byte_at r i ≡ byte_at p (exchanged 26 4 i)
  unfolding w z c
  r-address i l u =
      let from = exchanged_in i l u in
      r-w i (omega arith)
      ∙ byte_at-write_above z 24 _ i (omega arith)
      ∙ byte_at-write_above c 24 _ i (omega arith)
      ∙ byte_at-exchange (write b 22 (default_ttl ∷ [])) 26 4 (omega (arith, size_c, size_b)) i
      ∙ byte_at-write_above b 22 (default_ttl ∷ []) (exchanged 26 4 i) (omega (arith, from.0))
      ∙ below (exchanged 26 4 i) from.1
    where
      exchanged_in : (j : ℕ) → 26 ≤ j → j < 34 → (26 ≤ exchanged 26 4 j) × (exchanged 26 4 j < 34)
      exchanged_in j l u = (ground arith, ground arith)

      size_b : length (write b 22 (default_ttl ∷ [])) ≡ length p
      size_b =
          unfold b a in
          length-write b 22 (default_ttl ∷ [])
          ∙ length-write a 36 (le_bytes 2 check)
          ∙ length-write p 34 (0 ∷ [])

      below : (j : ℕ) → j < 34 → byte_at b j ≡ byte_at p j
      below j h =
          unfold b a in
          byte_at-write_below a 36 (le_bytes 2 check) j (omega arith)
          ∙ byte_at-write_below p 34 (0 ∷ []) j h

  pub r-rest : (i : ℕ) → 38 ≤ i → byte_at r i ≡ byte_at p i
  unfolding b a
  r-rest i h =
      r-b i (omega arith)
      ∙ byte_at-write_above a 36 (le_bytes 2 check) i (omega arith)
      ∙ byte_at-write_above p 34 (0 ∷ []) i (omega arith)

  pub r-check : half_at r 36 ≡ (half_at p 36 + 8) % 2 ^ 16
  unfolding b check a
  r-check = omega (
    arith,
    r-b 36 (omega arith),
    r-b 37 (omega arith),
    half_at-write a 36 check (omega (arith, length-write p 34 (0 ∷ []))),
    byte_at-write_above p 34 (0 ∷ []) 36 (omega arith),
    byte_at-write_above p 34 (0 ∷ []) 37 (omega arith),
  )

  pub ip_sum : IsBytes p → plain_sum r 10 14 % 65535 ≡ 0
  unfolding w z c b a check
  ip_sum bytes =
      let one = IsBytes-write p 34 (0 ∷ []) bytes (omega arith) in
      let two = IsBytes-write a 36 (le_bytes 2 check) one (omega arith) in
      let three = IsBytes-write b 22 (default_ttl ∷ []) two (omega arith) in
      let four = IsBytes-exchange (write b 22 (default_ttl ∷ [])) 26 4 three in
      let z_bytes = IsBytes-write c 24 (le_bytes 2 0) four (omega arith) in
      omega (
        arith,
        plain_sum-eq w r 10 14 (λ i l u. r-w i (omega arith)),
        plain_sum-ipv4_csum_inline z 14 z_bytes
            (omega (arith, length-write c 24 (le_bytes 2 0), size_c))
            (half_at-write c 24 0 (omega (arith, size_c))),
      )

  pub r-first : byte_at p 34 ≡ 8 → half_at r 34 + 8 ≡ half_at p 34
  unfolding a
  r-first echo = omega (
    arith,
    echo,
    r-a 34 (omega arith) (omega arith),
    r-a 35 (omega arith) (omega arith),
    byte_at-write p 34 (0 ∷ []) 0 (omega arith) (omega arith),
    byte_at-write_above p 34 (0 ∷ []) 35 (omega arith),
  )

  c-below : (j : ℕ) → j < 26 → byte_at c j ≡ byte_at (write b 22 (default_ttl ∷ [])) j
  unfolding c exchange
  c-below j h = byte_at-write_below (write b 22 (default_ttl ∷ [])) 26 _ j h

  pub hardware : (i : ℕ) → i < 12 → byte_at r i ≡ byte_at p (exchanged 0 6 i)
  unfolding r w z b a
  hardware i h =
      let from = within i h in
      let j = exchanged 0 6 i in
      byte_at-exchange w 0 6 (omega (arith, size_w)) i
      ∙ byte_at-write_below z 24 _ j (omega (arith, from))
      ∙ byte_at-write_below c 24 _ j (omega (arith, from))
      ∙ c-below j (omega (arith, from))
      ∙ byte_at-write_below b 22 (default_ttl ∷ []) j (omega (arith, from))
      ∙ byte_at-write_below a 36 (le_bytes 2 check) j (omega (arith, from))
      ∙ byte_at-write_below p 34 (0 ∷ []) j (omega (arith, from))
    where
      within : (l : ℕ) → l < 12 → exchanged 0 6 l < 12
      within l u = ground arith
