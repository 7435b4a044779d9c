-- ===== src/Crab/Rewrite.antt =====
-- The packet that leaves the load balancer, byte by byte.
use dram_pvt_mk.Base.{
  ℕ, ◌+◌, ◌%◌, ◌^◌, ◌≤◌, ◌<◌, ◌≡◌, ◌⊎◌, refl, ap, ◌∙◌, arith, List, [], ◌∷◌, length, inl, inr,
  swap16, get_or,
}
use dram_pvt_mk.Base.Bytes.{
  Packet, byte_at, half_at, word_at, write, le_bytes, bytes_from, byte_at-write,
  byte_at-write_start, byte_at-write_ne, length-write, get_or-bytes_from, length-bytes_from,
}
use dram_pvt_mk.Checksum.Sums.{half_at-write}
use dram_pvt_mk.Crab.{Kernel, inverted, fix_tot_len, fix_ip_check}

-- The headers in front of the TCP header: `eth` and `ip` are the old ones, `mac` belongs to `daddr`.
abbrev pub readdressed : Packet → List ℕ → List ℕ → ℕ → Packet
readdressed q eth ip daddr = write (fix_tot_len (write (write q 0 eth) 14 ip)) 30 (le_bytes 4 daddr)

abbrev pub rerouted : Packet → List ℕ → Packet
rerouted p mac = write (write p 6 (bytes_from p 0 6)) 0 mac

-- Two stores at one place.
restore_ne :
    (p : Packet) (off : ℕ) (a b : List ℕ) (i : ℕ)
    → length a ≡ length b
    → (i < off) ⊎ (off + length b ≤ i)
    → byte_at (write (write p off a) off b) i ≡ byte_at p i
restore_ne p off a b i e h =
    byte_at-write_ne (write p off a) off b i h ∙ byte_at-write_ne p off a i (rw e h)

pub fix_ip_check-ne :
    (k : Kernel) (p : Packet) (i : ℕ)
    → (i < 24) ⊎ (26 ≤ i)
    → byte_at (fix_ip_check k p) i ≡ byte_at p i
unfolding fix_ip_check
fix_ip_check-ne k p i h =
    restore_ne p 24 (0 ∷ 0 ∷ [])
      (le_bytes 2 (inverted (k.csum_diff (write p 24 (0 ∷ 0 ∷ [])) 14 20 0))) i refl h

pub length-fix_ip_check : (k : Kernel) (p : Packet) → length (fix_ip_check k p) ≡ length p
unfolding fix_ip_check
length-fix_ip_check k p =
    length-write (write p 24 (0 ∷ 0 ∷ [])) 24 _ ∙ length-write p 24 (0 ∷ 0 ∷ [])

pub length-readdressed :
    (q : Packet) (eth ip : List ℕ) (daddr : ℕ) → length (readdressed q eth ip daddr) ≡ length q
unfolding fix_tot_len
length-readdressed q eth ip daddr =
    length-write (fix_tot_len (write (write q 0 eth) 14 ip)) 30 (le_bytes 4 daddr)
    ∙ length-write (write (write q 0 eth) 14 ip) 16 _
    ∙ length-write (write q 0 eth) 14 ip
    ∙ length-write q 0 eth

pub length-rerouted : (p : Packet) (mac : List ℕ) → length (rerouted p mac) ≡ length p
length-rerouted p mac = length-write (write p 6 (bytes_from p 0 6)) 0 mac ∙ length-write p 6 _

-- The Ethernet header: from the old destination to the address of the target.
module _ (p : Packet) (mac : List ℕ) (size : length mac ≡ 6) (room : 12 ≤ length p) where
  old_dest : length (bytes_from p 0 6) ≡ 6
  old_dest = length-bytes_from p 0 6 (omega arith)

  pub rerouted-dest : (j : ℕ) → j < 6 → byte_at (rerouted p mac) j ≡ get_or mac j 0
  rerouted-dest j h =
      byte_at-write_start (write p 6 (bytes_from p 0 6)) mac j (omega (arith, size))
        (omega (arith, size, length-write p 6 (bytes_from p 0 6)))

  pub rerouted-source : (j : ℕ) → j < 6 → byte_at (rerouted p mac) (6 + j) ≡ byte_at p j
  rerouted-source j h =
      byte_at-write_ne (write p 6 (bytes_from p 0 6)) 0 mac (6 + j) (inr (omega (arith, size)))
      ∙ byte_at-write p 6 (bytes_from p 0 6) j (omega (arith, old_dest)) (omega (arith, old_dest))
      ∙ get_or-bytes_from p 0 6 j h
      ∙ ap (byte_at p) at_start
    where
      at_start : 0 + j ≡ j
      at_start = omega arith

  pub rerouted-ne : (i : ℕ) → 12 ≤ i → byte_at (rerouted p mac) i ≡ byte_at p i
  rerouted-ne i h =
      byte_at-write_ne (write p 6 (bytes_from p 0 6)) 0 mac i (inr (omega (arith, size)))
      ∙ byte_at-write_ne p 6 (bytes_from p 0 6) i (inr (omega (arith, old_dest)))

module _ (q : Packet) (eth ip : List ℕ) (daddr : ℕ) (eth_size : length eth ≡ 14)
    (ip_size : length ip ≡ 20) (room : 34 ≤ length q) where
  copied : Packet
  copied = write (write q 0 eth) 14 ip

  length-copied : length copied ≡ length q
  unfolding copied
  length-copied = length-write (write q 0 eth) 14 ip ∙ length-write q 0 eth

  -- What the two last stores leave alone.
  outside :
      (i : ℕ) → (i < 16) ⊎ (34 ≤ i) → byte_at (readdressed q eth ip daddr) i ≡ byte_at copied i
  unfolding fix_tot_len copied
  outside i h =
      byte_at-write_ne (fix_tot_len copied) 30 (le_bytes 4 daddr) i
        (elim h [ inl x ↦ inl (omega arith) | inr x ↦ inr (omega arith) ])
      ∙ byte_at-write_ne copied 16 _ i (elim h [ inl x ↦ inl x | inr x ↦ inr (omega arith) ])

  pub readdressed-eth : (j : ℕ) → j < 14 → byte_at (readdressed q eth ip daddr) j ≡ get_or eth j 0
  unfolding copied
  readdressed-eth j h =
      outside j (inl (omega arith))
      ∙ byte_at-write_ne (write q 0 eth) 14 ip j (inl h)
      ∙ byte_at-write_start q eth j (omega (arith, eth_size)) (omega (arith, eth_size))

  pub readdressed-above : (i : ℕ) → 34 ≤ i → byte_at (readdressed q eth ip daddr) i ≡ byte_at q i
  unfolding copied
  readdressed-above i h =
      outside i (inr h)
      ∙ byte_at-write_ne (write q 0 eth) 14 ip i (inr (omega (arith, ip_size)))
      ∙ byte_at-write_ne q 0 eth i (inr (omega (arith, eth_size)))

  pub readdressed-daddr : word_at (readdressed q eth ip daddr) 30 ≡ daddr % 2 ^ 32
  unfolding fix_tot_len copied
  readdressed-daddr =
      let b = λ (j : ℕ) (h : j < 4). byte_at-write (fix_tot_len copied) 30 (le_bytes 4 daddr) j h (
        omega (
          arith,
          length-write copied 16 (le_bytes 2 (swap16 ((swap16 (half_at copied 16) + 8) % 2 ^ 16))),
          length-copied,
        )) in
      omega (arith, b 0, b 1, b 2, b 3)

  pub readdressed-tot_len :
      half_at (readdressed q eth ip daddr) 16 ≡ swap16 ((swap16 (half_at ip 2) + 8) % 2 ^ 16)
  unfolding fix_tot_len copied
  readdressed-tot_len =
      let v = swap16 ((swap16 (half_at copied 16) + 8) % 2 ^ 16) in
      let same : half_at copied 16 ≡ half_at ip 2 = omega (
        arith,
        byte_at-write (write q 0 eth) 14 ip 2 (omega (arith, ip_size))
            (omega (arith, ip_size, length-write q 0 eth)),
        byte_at-write (write q 0 eth) 14 ip 3 (omega (arith, ip_size))
            (omega (arith, ip_size, length-write q 0 eth)),
      ) in
      omega (
        arith,
        same,
        half_at-write copied 16 v (omega (arith, length-copied)),
        byte_at-write_ne (fix_tot_len copied) 30 (le_bytes 4 daddr) 16 (inl (omega arith)),
        byte_at-write_ne (fix_tot_len copied) 30 (le_bytes 4 daddr) 17 (inl (omega arith)),
      )
