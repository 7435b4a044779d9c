-- ===== src/Crab/Options.antt =====
-- The TCP header that leaves the load balancer, with the option behind it, byte by byte.
use dram_pvt_mk.Base.{
  ℕ, ◌+◌, ◌*◌, ◌/◌, ◌%◌, ◌≤◌, ◌<◌, ◌≡◌, ◌⊎◌, ◌∙◌, arith, List, [], ◌∷◌, length, inl, inr, get_or,
}
use dram_pvt_mk.Base.Bytes.{Packet, byte_at, write, byte_at-write, byte_at-write_ne, length-write}
use dram_pvt_mk.Crab.{Kernel, add_doff, redir_opt, fix_tcp_check}

-- The TCP header `tcp` and the option with the old destination.
abbrev pub with_option : Packet → List ℕ → ℕ → Packet
with_option p tcp daddr = write (add_doff (write p 34 tcp)) 54 (redir_opt daddr)

pub fix_tcp_check-ne :
    (k : Kernel) (p : Packet) (i : ℕ)
    → (i < 50) ⊎ (52 ≤ i)
    → byte_at (fix_tcp_check k p) i ≡ byte_at p i
unfolding fix_tcp_check
fix_tcp_check-ne k p i h = byte_at-write_ne z 50 _ i h ∙ byte_at-write_ne p 50 (0 ∷ 0 ∷ []) i h
  where
    z : Packet
    z = write p 50 (0 ∷ 0 ∷ [])

pub length-fix_tcp_check : (k : Kernel) (p : Packet) → length (fix_tcp_check k p) ≡ length p
unfolding fix_tcp_check
length-fix_tcp_check k p =
    length-write (write p 50 (0 ∷ 0 ∷ [])) 50 _ ∙ length-write p 50 (0 ∷ 0 ∷ [])

pub length-with_option :
    (p : Packet) (tcp : List ℕ) (daddr : ℕ) → length (with_option p tcp daddr) ≡ length p
unfolding add_doff
length-with_option p tcp daddr =
    length-write (add_doff (write p 34 tcp)) 54 (redir_opt daddr)
    ∙ length-write (write p 34 tcp) 46 _
    ∙ length-write p 34 tcp

module _ (p : Packet) (tcp : List ℕ) (daddr : ℕ) (size : length tcp ≡ 20)
    (room : 62 ≤ length p) where
  -- The bytes outside the TCP header and the option.
  pub with_option-ne :
      (i : ℕ) → (i < 34) ⊎ (62 ≤ i) → byte_at (with_option p tcp daddr) i ≡ byte_at p i
  unfolding add_doff
  with_option-ne i h =
      byte_at-write_ne (add_doff (write p 34 tcp)) 54 (redir_opt daddr) i
        (widen 54 8 h (omega arith) (omega arith))
      ∙ byte_at-write_ne (write p 34 tcp) 46 _ i (widen 46 1 h (omega arith) (omega arith))
      ∙ byte_at-write_ne p 34 tcp i (rw size (widen 34 20 h (omega arith) (omega arith)))
    where
      widen : (a n : ℕ) → (i < 34) ⊎ (62 ≤ i) → 34 ≤ a → a + n ≤ 62 → (i < a) ⊎ (a + n ≤ i)
      widen a n g l u = elim g [ inl x ↦ inl (omega arith) | inr x ↦ inr (omega arith) ]

  pub with_option-option :
      (j : ℕ) → j < 8 → byte_at (with_option p tcp daddr) (54 + j) ≡ get_or (redir_opt daddr) j 0
  unfolding add_doff
  with_option-option j h = byte_at-write (add_doff (write p 34 tcp)) 54 (redir_opt daddr) j h (
      omega (
        arith,
        length-write p 34 tcp,
        length-write (write p 34 tcp) 46 (
            (byte_at (write p 34 tcp) 46 % 16 + 16 * ((byte_at (write p 34 tcp) 46 / 16 + 2) % 16))
            ∷ []),
      ))

  pub with_option-doff : byte_at (with_option p tcp daddr) 46 / 16 ≡ (get_or tcp 12 0 / 16 + 2) % 16
  unfolding add_doff
  with_option-doff =
      let b = byte_at (write p 34 tcp) 46 in
      let v = b % 16 + 16 * ((b / 16 + 2) % 16) in
      omega (
        arith,
        byte_at-write_ne (add_doff (write p 34 tcp)) 54 (redir_opt daddr) 46 (inl (omega arith)),
        byte_at-write (write p 34 tcp) 46 (v ∷ []) 0 (omega arith)
            (omega (arith, length-write p 34 tcp)),
        byte_at-write p 34 tcp 12 (omega (arith, size)) (omega (arith, size)),
      )
