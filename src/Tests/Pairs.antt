-- ===== src/Tests/Pairs.antt =====
-- The firewall behind the address translation, and the other pairs of programs, on small packets.
use dram_pvt_mk.Base.{
  ℕ, zero, suc, ◌%◌, ◌≡◌, ◌≢◌, ◌↔◌, refl, sym, ap, ◌∙◌, arith, List, [], ◌∷◌, ◌++◌, Bool, true,
  true, ◌&&◌, ◌==◌, if◌then◌else◌, Bool-cases, inl, inr, Option, none, some, ==_self, some_inj,
}
use dram_pvt_mk.Base.Table.{Table, store, store_self, store_ne}
use dram_pvt_mk.Base.Update.{MapUpdate}
use dram_pvt_mk.Base.Bytes.{Packet}
use dram_pvt_mk.Checksum.Laws.{plain_sum}
use dram_pvt_mk.FwNat.{NatMaps, not_ipv4, saddr, translated, xdp_nat}
use dram_pvt_mk.FwNat.Laws.{xdp_nat-plain_sum, xdp_nat-shared}
use dram_pvt_mk.MapPair.{SimpleStruct, SharedMaps, Updates}

abbrev zeros : ℕ → List ℕ
zeros zero = []
zeros (suc n) = 0 ∷ zeros n

-- An IPv4 packet with these two bytes in front of its source address.
abbrev ip_packet : ℕ → ℕ → Packet
ip_packet a b = zeros 12 ++ (8 ∷ (zeros 13 ++ (a ∷ b ∷ zeros 6)))

empty : Table ℕ
empty k = none

set_number : MapUpdate ℕ ℕ
set_number = record {
  update = λ t k v. some (store t k v);
  finds = λ t t' k v e. ap (λ f. f k) (sym (some_inj e)) ∙ store_self t k v;
  keeps = λ t t' k j v e ne. ap (λ f. f j) (sym (some_inj e)) ∙ store_ne t k j v ne;
}

same_key : SimpleStruct → SimpleStruct → Bool
same_key a b = a.c == b.c && (a.x == b.x && (a.y == b.y && a.pad == b.pad))

set_key : (SimpleStruct → Option ℕ) → SimpleStruct → ℕ → SimpleStruct → Option ℕ
set_key t k v j = if same_key k j then some v else t j

set_key_self : (t : SimpleStruct → Option ℕ) (k : SimpleStruct) (v : ℕ) → set_key t k v k ≡ some v
unfolding same_key set_key
set_key_self t k v = rw (==_self k.c, ==_self k.x, ==_self k.y, ==_self k.pad) refl

same_key→≡ : (k j : SimpleStruct) → same_key k j ≡ true → k ≡ j
unfolding same_key
same_key→≡ k j e =
    let same_c : k.c ≡ j.c = ground arith in
    let same_x : k.x ≡ j.x = ground arith in
    let same_y : k.y ≡ j.y = ground arith in
    let same_pad : k.pad ≡ j.pad = ground arith in
    λ i. record { c = same_c i; x = same_x i; y = same_y i; pad = same_pad i }

set_key_ne :
    (t : SimpleStruct → Option ℕ) (k j : SimpleStruct) (v : ℕ) → k ≢ j → set_key t k v j ≡ t j
unfolding set_key
set_key_ne t k j v ne = elim (Bool-cases (same_key k j)) [
  | inl e ↦ absurd (ne (same_key→≡ k j e))
  | inr e ↦ rw e refl
]

updates : Updates
updates = record {
  hash_map = record {
    update = λ t k v. some (set_key t k v);
    finds = λ t t' k v e. ap (λ f. f k) (sym (some_inj e)) ∙ set_key_self t k v;
    keeps = λ t t' k j v e ne. ap (λ f. f j) (sym (some_inj e)) ∙ set_key_ne t k j v ne;
  };
  array_map = set_number;
}

-- The entry 5 of `array_map` is there: an array has all its entries.
abbrev shared : SharedMaps
shared = record { hash_map = λ k. none; array_map = store empty 5 0 }

abbrev nat_maps : NatMaps
nat_maps = record {
  whitelist_addresses = store empty 1 1;
  inner2outer = empty;
  outer2inner = empty;
}

xdp_nat-plain_sum_example :
    let out = (xdp_nat set_number nat_maps (ip_packet 255 255)).packet in
    (plain_sum out 10 14 % 65535 ≡ 0) ↔ (saddr out % 65535 ≡ saddr (ip_packet 255 255) % 65535)
unfolding xdp_nat set_number empty not_ipv4 translated
xdp_nat-plain_sum_example =
    xdp_nat-plain_sum set_number nat_maps (ip_packet 255 255) (omega arith) refl refl

xdp_nat-shared_example :
    let first = xdp_nat set_number nat_maps (ip_packet 9 9) in
    let second = xdp_nat set_number first.maps (ip_packet 8 8) in
    (saddr first.packet ≡ 1)
    × (saddr second.packet ≡ 1)
    × (second.maps.outer2inner (saddr (ip_packet 9 9)) ≡ some 1)
    × (second.maps.outer2inner (saddr (ip_packet 8 8)) ≡ some 1)
    × (second.maps.inner2outer 1 ≡ some (saddr (ip_packet 8 8)))
unfolding xdp_nat set_number empty not_ipv4 translated
xdp_nat-shared_example =
    xdp_nat-shared set_number nat_maps (ip_packet 9 9) (ip_packet 8 8) refl refl refl refl
      (λ e. omega (arith, e))
