-- ===== src/Hash/Jhash.antt =====
-- The Jenkins hash of examples/jhash_stub_demo/jhash_impl.c, with which the load balancer chooses a
-- bucket of its ring, and the stubs of the same directory that stand in for it.
pub mod Mix
pub mod Summary
use dram_pvt_mk.Base.{
  ℕ, zero, suc, ◌+◌, ◌-◌, ◌*◌, ◌/◌, ◌%◌, ◌^◌, ◌<◌, ◌≡◌, List, Option, none, some, Bool,
  if◌then◌else◌, ltb, bit_or, bit_xor, u32, add32, sub32,
}
use dram_pvt_mk.Base.Bytes.{Packet, ◌>>=◌, load8, load32}

-- `word << shift | word >> (-shift & 31)` on `u32`.
unfoldable pub rol32 : ℕ → ℕ → ℕ
rol32 word shift = bit_or (u32 (word * 2 ^ shift)) (word / 2 ^ ((2 ^ 32 - shift) % 32))

pub record Words : Type 0 where
  pub a : ℕ
  pub b : ℕ
  pub c : ℕ

-- One line of `__jhash_mix`: `x -= z; x ^= rol32(z, k); z += y;`. The next line has the words one
-- place on, so the result begins with `y`.
unfoldable pub mix_line : ℕ → Words → Words
unfolding rol32
mix_line k w = record { a = w.b; b = add32 w.c w.b; c = bit_xor (sub32 w.a w.c) (rol32 w.c k) }

unfoldable pub jhash_mix : Words → Words
unfolding mix_line
jhash_mix w = mix_line 4 (mix_line 19 (mix_line 16 (mix_line 8 (mix_line 6 (mix_line 4 w)))))

-- One line of `__jhash_final`: `x ^= z; x -= rol32(z, k);`.
unfoldable pub final_line : ℕ → ℕ → ℕ → ℕ
unfolding rol32
final_line k x z = sub32 (bit_xor x z) (rol32 z k)

unfoldable pub jhash_final : Words → Words
unfolding final_line
jhash_final w =
    let c1 = final_line 14 w.c w.b in
    let a1 = final_line 11 w.a c1 in
    let b1 = final_line 25 w.b a1 in
    let c2 = final_line 16 c1 b1 in
    let a2 = final_line 4 a1 c2 in
    let b2 = final_line 14 b1 a2 in record { a = a2; b = b2; c = final_line 24 c2 b2 }

abbrev pub jhash_initval : ℕ
jhash_initval = 0xdeadbeef

abbrev pub init_jhash_seed_v6 : ℕ
init_jhash_seed_v6 = 32

abbrev pub init_jhash_seed : ℕ
init_jhash_seed = 16129

abbrev pub ring_size : ℕ
ring_size = 127

-- The loop over twelve bytes of the key at `k`; `none` also means that the fuel ran out.
unfoldable pub jhash_loop : ℕ → Packet → ℕ → ℕ → Words → Option (Words × ℕ × ℕ)
unfolding jhash_mix
jhash_loop zero key k length w = none
jhash_loop (suc fuel) key k length w =
    let rest = load32 key k >>= λ x. load32 key (k + 4) >>= λ y. load32 key (k + 8) >>= λ z.
    jhash_loop fuel key (k + 12) (length - 12)
      (jhash_mix (record { a = add32 w.a x; b = add32 w.b y; c = add32 w.c z })) in
    if ltb 12 length then rest else some (w, k, length)

-- `case i + 1:` of the `switch`, which adds the byte at `i`.
unfoldable pub add_byte : ℕ → ℕ → Words → Words
add_byte i byte w =
    if ltb i 4
    then record w { a = add32 w.a (u32 (byte * 2 ^ (8 * i))) }
    else if ltb i 8
    then record w { b = add32 w.b (u32 (byte * 2 ^ (8 * (i - 4)))) }
    else record w { c = add32 w.c (u32 (byte * 2 ^ (8 * (i - 8)))) }

-- The cases fall through to `case 1`.
unfoldable pub jhash_switch : ℕ → Packet → ℕ → Words → Option Words
unfolding add_byte
jhash_switch zero key k w = some w
jhash_switch (suc i) key k w =
    load8 key (k + i) >>= λ byte. jhash_switch i key k (add_byte i byte w)

unfoldable pub jhash : Packet → ℕ → ℕ → Option ℕ
unfolding jhash_loop jhash_switch jhash_final
jhash key length initval =
    let start = u32 (jhash_initval + length + initval) in
    jhash_loop (length + 1) key 0 length (record { a = start; b = start; c = start })
    >>= λ (w, k, left). jhash_switch left key k w >>= λ v.
        some (elim left [ zero ↦ v.c | suc n ↦ (jhash_final v).c ])

unfoldable pub jhash_2words : ℕ → ℕ → ℕ → ℕ
unfolding jhash_final
jhash_2words a b initval =
    let c = u32 (jhash_initval + 8 + initval) in
    (jhash_final (record { a = add32 a c; b = add32 b c; c = c })).c

unfoldable pub get_packet_hash : Packet → ℕ → Option ℕ
unfolding jhash jhash_2words
get_packet_hash srcv6 ports = jhash srcv6 16 init_jhash_seed_v6 >>= λ h.
    some (jhash_2words h ports init_jhash_seed % ring_size)

-- The results of the stub get_packet_hash_stub_gen.c.
abbrev pub GetPacketHashStub : ℕ → Type 0
GetPacketHashStub result = result < 127

-- The results of jhash_stub_symbolic.c: any word, cut to the ring.
abbrev pub JhashStubSymbolic : ℕ → Type 0
JhashStubSymbolic r = (result : ℕ) × (result < 2 ^ 32) × (r ≡ result % ring_size)

-- The one result of jhash_stub_concrete.c.
abbrev pub jhash_stub_concrete : ℕ
jhash_stub_concrete = 42 % ring_size
