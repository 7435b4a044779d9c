-- ===== src/Tests/Health.antt =====
-- The health checker on a packet that it sends, on one with no mark and on one that is too long.
use dram_pvt_mk.Base.{
  ℕ, ◌+◌, ◌≡◌, refl, sym, ap, ◌∙◌, arith, inl, inr, zero, suc, List, [], ◌∷◌, ◌++◌, Option, none,
  some, some_inj, ◌==◌, ltb, if◌then◌else◌, false, length, take, drop, Bool-cases, length-append,
  get_or-append_right, length-take, length-drop, get_or-drop, ltb-false→≤,
}
use dram_pvt_mk.Base.Bytes.{Packet, byte_at}
use dram_pvt_mk.Katran.{RealDefinition}
use dram_pvt_mk.Katran.Health.{HcStats, HcMaps, SkBuff, healthchecker}
use dram_pvt_mk.Katran.Health.Moves.{MakesRoom}
use dram_pvt_mk.Katran.Health.Laws.{HcOutcome, healthchecker-HcOutcome}

abbrev zeros : ℕ → List ℕ
zeros zero = []
zeros (suc n) = 0 ∷ zeros n

-- Zeros behind the first 14 bytes; a packet that is shorter cannot grow.
unfoldable insert : Packet → ℕ → Option Packet
insert p n = if ltb (length p) 14 then none else some (take 14 p ++ (zeros n ++ drop 14 p))

length-zeros : (n : ℕ) → length (zeros n) ≡ n
length-zeros zero = refl
length-zeros (suc n) = ap suc (length-zeros n)

insert-MakesRoom : MakesRoom insert
unfolding insert
insert-MakesRoom = record {
  inserts = λ p q n e. elim (Bool-cases (ltb (length p) 14)) [
    | inl short ↦ absurd (ground (arith, e, short))
    | inr long ↦
        let is = some_inj (rw long at e) in
        let wide = ltb-false→≤ (length p) 14 long in
        let head = length-take 14 p wide in
        let size = length-append (take 14 p) (zeros n ++ drop 14 p) in
        let rest = length-append (zeros n) (drop 14 p) in
        rw (sym is) (record {
          size = omega (arith, head, size, rest, length-zeros n, length-drop 14 p);
          inner = λ i h.
              get_or-append_right (take 14 p) (zeros n ++ drop 14 p) (n + i) 0 (omega (arith, head))
              ∙ get_or-append_right (zeros n) (drop 14 p) _ 0 (omega (arith, head, length-zeros n))
              ∙ get_or-drop 14 p _ 0
              ∙ ap (byte_at p) (omega (arith, head, length-zeros n));
        })
  ];
}

abbrev mac : List ℕ
mac = b'r' ∷ b'o' ∷ b'u' ∷ b't' ∷ b'e' ∷ b'r' ∷ []

abbrev real_seven : RealDefinition
real_seven = record { dst = record { w0 = 7; w1 = 0; w2 = 0; w3 = 0 }; flags = 0 }

-- Mark 5 is that of a real.
abbrev hc_maps : HcMaps
hc_maps = record {
  hc_ctrl_map = λ k. some 2;
  hc_reals_map = λ mark. if mark == 5 then some real_seven else none;
  hc_pckt_srcs_map = λ k. some real_seven;
  hc_pckt_macs = λ k. some mac;
}

abbrev no_packets : HcStats
no_packets = record { pckts_processed = 0; pckts_dropped = 0; pckts_skipped = 0; pckts_too_big = 0 }

abbrev check_packet : SkBuff
check_packet = record { packet = zeros 12 ++ (8 ∷ zeros 21); len = 34; mark = 5 }

skips_unmarked :
    (healthchecker false insert hc_maps (some no_packets) (record check_packet { mark = 0 })).stats
    ≡ some (record no_packets { pckts_skipped = 1 })
unfolding healthchecker
skips_unmarked = refl

drops_too_big :
    (healthchecker false insert hc_maps
      (some no_packets)
      (record check_packet { len = 1475 })).stats
    ≡ some (record no_packets { pckts_dropped = 1; pckts_too_big = 1 })
unfolding healthchecker
drops_too_big = refl

healthchecker-HcOutcome_example :
    HcOutcome false hc_maps check_packet no_packets
      (healthchecker false insert hc_maps (some no_packets) check_packet)
healthchecker-HcOutcome_example =
    healthchecker-HcOutcome false insert insert-MakesRoom hc_maps
      (λ k m e. ap length (sym (some_inj e))) no_packets check_packet
