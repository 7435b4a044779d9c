-- ===== src/Paxos/Dispatch/Laws.antt =====
-- Which packets the fast path never touches, and which bytes an acknowledgement is read from.
use dram_pvt_mk.Base.{
  ℕ, ◌+◌, ◌≤◌, ◌<◌, ◌≡◌, ◌≢◌, refl, arith, Bool, true, false, not, ◌||◌, ltb, ◌==◌, Option, none,
  some, length, ltb-eq-false,
}
use dram_pvt_mk.Base.Bytes.{Packet, byte_at, half_at, word_at, ◌>>=◌, load32_lem}
use dram_pvt_mk.Base.Xdp.{xdp_pass}
use dram_pvt_mk.Paxos.{PaxosMaps, PaxosRun}
use dram_pvt_mk.Paxos.Quorum.{PrepareOk, read_prepareok, acknowledge, handle_prepareok}
use dram_pvt_mk.Paxos.Dispatch.{Flags, is_foreign, fast_paxos}

foreign_protocol : (p : Packet) → byte_at p 23 ≢ 10 → is_foreign p ≡ true
unfolding is_foreign
foreign_protocol p h =
    let no : (byte_at p 23 == 10) ≡ false = is_no (byte_at p 23) h in
    rw no (either (ltb (length p) 34) (ltb (length p) 42) (not (half_at p 36 == 12345)))
  where
    is_no : (n : ℕ) → n ≢ 10 → (n == 10) ≡ false
    is_no n h = ground arith

    either : (a b c : Bool) → (a || (b || (c || true))) ≡ true
    either true b c = refl
    either false true c = refl
    either false false true = refl
    either false false false = refl

-- With every choice of the build flags, a packet whose IP protocol is not 10, so every UDP packet
-- (17), is passed with the packet and all maps unchanged.
pub fast_paxos_protocol :
    (f : Flags) (m : PaxosMaps) (p : Packet) (room : Bool)
    → byte_at p 23 ≢ 10
    → fast_paxos f m p room ≡ some (record { maps = m; packet = p; verdict = xdp_pass })
unfolding fast_paxos
fast_paxos_protocol f m p room h = rw (foreign_protocol p h)

word_at-ext :
    (p q : Packet) (i : ℕ)
    → ((k : ℕ) → k < 12 → byte_at p k ≡ byte_at q k)
    → i + 3 < 12
    → word_at p i ≡ word_at q i
word_at-ext p q i h l = omega (
  arith,
  h i (omega arith),
  h (i + 1) (omega arith),
  h (i + 2) (omega arith),
  h (i + 2 + 1) (omega arith),
)

-- What a run leaves besides the packet.
abbrev pub effect : Option PaxosRun → Option (PaxosMaps × ℕ)
effect none = none
effect (some run) = some (run.maps, run.verdict)

read_prepareok_ethernet :
    (p q : Packet)
    → 12 ≤ length p
    → 12 ≤ length q
    → ((k : ℕ) → k < 12 → byte_at p k ≡ byte_at q k)
    → read_prepareok p ≡ read_prepareok q
unfolding read_prepareok
read_prepareok_ethernet p q hp hq h =
    rw
      (
        load32_lem p 0 (omega arith),
        load32_lem p 4 (omega arith),
        load32_lem p 8 (omega arith),
        load32_lem q 0 (omega arith),
        load32_lem q 4 (omega arith),
        load32_lem q 8 (omega arith),
      )
      (rw (
        word_at-ext p q 0 h (omega arith),
        word_at-ext p q 4 h (omega arith),
        word_at-ext p q 8 h (omega arith),
      ))

-- The acknowledgement is read from the first twelve bytes of the packet: two packets of twelve bytes
-- or more that agree there, in their hardware addresses, have the same effect on the maps and the
-- same verdict, whatever message follows.
pub handle_prepareok_ethernet :
    (m : PaxosMaps) (p q : Packet)
    → 12 ≤ length p
    → 12 ≤ length q
    → ((k : ℕ) → k < 12 → byte_at p k ≡ byte_at q k)
    → effect (handle_prepareok m p) ≡ effect (handle_prepareok m q)
unfolding handle_prepareok
handle_prepareok_ethernet m p q hp hq h =
    let tp : ltb (length p) 12 ≡ false = ltb-eq-false (length p) 12 hp in
    let tq : ltb (length q) 12 ≡ false = ltb-eq-false (length q) 12 hq in
    rw (tp, tq, read_prepareok_ethernet p q hp hq h) (same (read_prepareok q))
  where
    packet_last :
        (r : Option (PaxosMaps × ℕ))
        → effect (r >>= λ s. some (record { maps = s.0; packet = p; verdict = s.1 }))
          ≡ effect (r >>= λ s. some (record { maps = s.0; packet = q; verdict = s.1 }))
    packet_last none = refl
    packet_last (some s) = refl

    same :
        (o : Option PrepareOk)
        → effect (
            o >>= λ msg.
            acknowledge m msg >>= λ s. some (record { maps = s.0; packet = p; verdict = s.1 }))
          ≡ effect (
              o >>= λ msg.
              acknowledge m msg >>= λ s. some (record { maps = s.0; packet = q; verdict = s.1 }))
    same none = refl
    same (some msg) = packet_last (acknowledge m msg)
