-- ===== src/Hash/Jhash/Summary.antt =====
-- The hash against its stubs: every bucket of the ring, and no other, is reached.
use dram_pvt_mk.Base.{
  ℕ, zero, suc, ◌+◌, ◌-◌, ◌%◌, ◌<◌, ◌≤◌, ◌≡◌, ◌↔◌, refl, ap, arith, List, [], ◌∷◌, Option, some,
  true, ltb, ◌==◌, ==_iff, length, get_or, ltb→lt, Bool-cases, inl, inr,
}
use dram_pvt_mk.Base.Bits.{passes, passes_at}
use dram_pvt_mk.Base.Bytes.{Packet, load8, load32, load8_lem, load32_lem, Returns, Returns-bind}
use dram_pvt_mk.Hash.Jhash.{
  rol32, Words, mix_line, jhash_mix, final_line, jhash_final, jhash_loop, add_byte, jhash_switch,
  jhash, jhash_2words, get_packet_hash, GetPacketHashStub, JhashStubSymbolic,
}

switch_total :
    (n : ℕ) (key : Packet) (k : ℕ) (w : Words)
    → k + n ≤ length key
    → Returns (λ v. Unit) (jhash_switch n key k w)
unfolding jhash_switch
switch_total zero key k w h = tt
switch_total (suc i) key k w h =
    rw (load8_lem key (k + i) (omega arith)) (switch_total i key k _ (omega arith))

loop_total :
    (fuel : ℕ) (key : Packet) (k left : ℕ) (w : Words)
    → left < fuel
    → k + left ≤ length key
    → Returns (λ r. r.1 + r.2 ≤ length key) (jhash_loop fuel key k left w)
unfolding jhash_loop
loop_total zero key k left w h l = absurd (omega arith)
loop_total (suc fuel) key k left w h l = elim (Bool-cases (ltb 12 left)) [
  | inl more ↦
      let g = ltb→lt 12 left more in
      rw more (
        rw
          (
            load32_lem key k (omega (arith, l, g)),
            load32_lem key (k + 4) (omega (arith, l, g)),
            load32_lem key (k + 8) (omega (arith, l, g)),
          )
          (loop_total fuel key (k + 12) (left - 12) _ (omega (arith, h, g)) (omega (arith, l, g))))
  | inr done ↦ rw done l
]

-- The hash of the first `length` bytes of a buffer that has them ends, and it reads nothing behind
-- the buffer.
pub jhash_total :
    (key : Packet) (len initval : ℕ)
    → len ≤ length key
    → Returns (λ r. Unit) (jhash key len initval)
unfolding jhash
jhash_total key len initval h =
    Returns-bind (λ r. Unit) (jhash_loop (len + 1) key 0 len _) _
      (λ r l.
        Returns-bind (λ v. Unit) (jhash_switch r.2 key r.1 r.0) _ (λ v u. tt)
          (switch_total r.2 key r.1 r.0 l))
      (loop_total (len + 1) key 0 len _ (omega arith) (omega arith))

abbrev zero_address : Packet
zero_address = 0 ∷ 0 ∷ 0 ∷ 0 ∷ 0 ∷ 0 ∷ 0 ∷ 0 ∷ 0 ∷ 0 ∷ 0 ∷ 0 ∷ 0 ∷ 0 ∷ 0 ∷ 0 ∷ []

-- For each bucket, ports that are hashed there together with the address 0.
abbrev ports_of_bucket : List ℕ
ports_of_bucket =
    20 ∷ 483 ∷ 57 ∷ 77 ∷ 18 ∷ 527 ∷ 43 ∷ 55 ∷ 112 ∷ 72 ∷ 81 ∷ 75 ∷ 15 ∷ 37 ∷ 67 ∷ 78 ∷ 204 ∷ 26
    ∷ 265 ∷ 30 ∷ 174 ∷ 146 ∷ 89 ∷ 138 ∷ 11 ∷ 276 ∷ 21 ∷ 4 ∷ 216 ∷ 399 ∷ 245 ∷ 285 ∷ 36 ∷ 22 ∷ 428
    ∷ 184 ∷ 53 ∷ 24 ∷ 47 ∷ 148 ∷ 85 ∷ 7 ∷ 140 ∷ 3 ∷ 430 ∷ 110 ∷ 25 ∷ 130 ∷ 297 ∷ 58 ∷ 28 ∷ 83 ∷ 1
    ∷ 14 ∷ 215 ∷ 119 ∷ 363 ∷ 117 ∷ 46 ∷ 27 ∷ 2 ∷ 17 ∷ 102 ∷ 41 ∷ 135 ∷ 12 ∷ 243 ∷ 45 ∷ 32 ∷ 168
    ∷ 173 ∷ 186 ∷ 96 ∷ 207 ∷ 214 ∷ 601 ∷ 13 ∷ 472 ∷ 123 ∷ 50 ∷ 321 ∷ 71 ∷ 114 ∷ 188 ∷ 92 ∷ 201 ∷ 63
    ∷ 39 ∷ 34 ∷ 106 ∷ 16 ∷ 115 ∷ 124 ∷ 59 ∷ 31 ∷ 19 ∷ 205 ∷ 44 ∷ 630 ∷ 101 ∷ 73 ∷ 51 ∷ 52 ∷ 48 ∷ 68
    ∷ 6 ∷ 129 ∷ 33 ∷ 180 ∷ 84 ∷ 74 ∷ 270 ∷ 193 ∷ 70 ∷ 10 ∷ 686 ∷ 86 ∷ 0 ∷ 137 ∷ 107 ∷ 62 ∷ 23 ∷ 125
    ∷ 79 ∷ 295 ∷ 179 ∷ 229 ∷ []

zero_hash : jhash zero_address 16 32 ≡ some 4105235916
unfolding jhash jhash_loop jhash_switch jhash_final final_line jhash_mix mix_line rol32 add_byte
    load8 load32
zero_hash = refl

bucket_table :
    passes (λ r. jhash_2words 4105235916 (get_or ports_of_bucket r 0) 16129 % 127 == r) 127 ≡ true
unfolding passes jhash_2words jhash_final final_line rol32
bucket_table = refl

-- A result of the hash, for some address in sixteen bytes and some ports.
abbrev pub IsBucket : ℕ → Type 0
IsBucket r = (src : Packet) × (ports : ℕ) × (16 ≤ length src) × (get_packet_hash src ports ≡ some r)

bucket_reached :
    (r : ℕ) → r < 127 → get_packet_hash zero_address (get_or ports_of_bucket r 0) ≡ some r
unfolding get_packet_hash
bucket_reached r h = rw zero_hash (
    ap some (
      (==_iff (jhash_2words 4105235916 (get_or ports_of_bucket r 0) 16129 % 127) r).0
        (passes_at _ r h bucket_table)))

hash_below :
    (src : Packet) (ports : ℕ)
    → 16 ≤ length src
    → Returns (λ r. r < 127) (get_packet_hash src ports)
unfolding get_packet_hash
hash_below src ports h =
    Returns-bind (λ r. r < 127) (jhash src 16 32) _ (λ v u. omega arith) (jhash_total src 16 32 h)

below_of_some : (o : Option ℕ) (r : ℕ) → o ≡ some r → Returns (λ x. x < 127) o → r < 127
below_of_some o r e h = rw e at h

-- The stubs of the packet hash are exact: on every address of sixteen bytes the hash returns, and
-- a number is its result for some address and ports exactly when the generated stub allows it,
-- which is exactly when the symbolic stub allows it.
pub get_packet_hash-GetPacketHashStub :
    (r : ℕ)
    → (IsBucket r ↔ GetPacketHashStub r)
      × (GetPacketHashStub r ↔ JhashStubSymbolic r)
      × ((src : Packet) (ports : ℕ)
          → 16 ≤ length src
          → Returns GetPacketHashStub (get_packet_hash src ports))
get_packet_hash-GetPacketHashStub r = (
  (
    λ (src, ports, long, e).
        below_of_some (get_packet_hash src ports) r e (hash_below src ports long),
    λ h. (zero_address, get_or ports_of_bucket r 0, omega arith, bucket_reached r h),
  ),
  (λ h. (r, omega arith, omega arith), λ (x, f, e). omega arith),
  hash_below,
)
