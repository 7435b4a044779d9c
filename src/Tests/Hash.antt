-- ===== src/Tests/Hash.antt =====
-- The hash routines.
use dram_pvt_mk.Base.{
  ℕ, ◌%◌, ◌/◌, ◌*◌, ◌≤◌, ◌<◌, ◌≡◌, ◌↔◌, ◌⊎◌, refl, arith, List, [], ◌∷◌, bit_xor, length,
}
use dram_pvt_mk.Hash.Fnv.{fnv_hash, bmc_hash_keys, perbyte_hash, cache_entry_count}
use dram_pvt_mk.Hash.Fnv.Summary.{
  BmcHashKeysStub, bmc_hash_keys-BmcHashKeysStub, bmc_hash_keys-fnv_hash,
}
use dram_pvt_mk.Base.Bytes.{Packet, Returns}
use dram_pvt_mk.Hash.Jhash.{Words, get_packet_hash, GetPacketHashStub, JhashStubSymbolic}
use dram_pvt_mk.Hash.Jhash.Summary.{IsBucket, get_packet_hash-GetPacketHashStub}
use dram_pvt_mk.Hash.Crc16.{crc16, crc_step}
use dram_pvt_mk.Hash.Crc16.Reference.{crc_bits, crc_step-eq-crc_bits_iff}

-- "ab c\r"
abbrev request : List ℕ
request = 97 ∷ 98 ∷ 32 ∷ 99 ∷ 13 ∷ []

fnv_hash_runs : (fnv_hash request).key_len ≡ 2
unfolding fnv_hash
fnv_hash_runs = refl

perbyte_hash_runs : (perbyte_hash request).matches ≡ 1
unfolding perbyte_hash
perbyte_hash_runs = refl

crc16_runs : crc16 (49 ∷ 50 ∷ 51 ∷ []) ≡ 0x5bce
unfolding crc16
crc16_runs = refl

bmc_hash_keys-BmcHashKeysStub_example : BmcHashKeysStub (bmc_hash_keys request)
bmc_hash_keys-BmcHashKeysStub_example = bmc_hash_keys-BmcHashKeysStub request

bmc_hash_keys-fnv_hash_example :
    ((bmc_hash_keys request).key_len ≡ (fnv_hash request).key_len)
    × ((bmc_hash_keys request).hash ≡ (fnv_hash request).hash % cache_entry_count)
bmc_hash_keys-fnv_hash_example = bmc_hash_keys-fnv_hash request

crc_step-eq-crc_bits_iff_example :
    (crc_step 0x1234 0x56 ≡ crc_bits 8 (bit_xor 0x1234 (0x56 * 256)))
    ↔ ((bit_xor (0x1234 / 256) 0x56 < 0x40) ⊎ (0x80 ≤ bit_xor (0x1234 / 256) 0x56))
crc_step-eq-crc_bits_iff_example = crc_step-eq-crc_bits_iff 0x1234 0x56 (omega arith) (omega arith)

abbrev sixteen : List ℕ
sixteen = 32 ∷ 1 ∷ 13 ∷ 184 ∷ 0 ∷ 0 ∷ 0 ∷ 0 ∷ 0 ∷ 0 ∷ 0 ∷ 0 ∷ 0 ∷ 0 ∷ 0 ∷ 1 ∷ []

get_packet_hash-GetPacketHashStub_example :
    (IsBucket 42 ↔ GetPacketHashStub 42)
    × (GetPacketHashStub 42 ↔ JhashStubSymbolic 42)
    × ((src : Packet) (ports : ℕ)
        → 16 ≤ length src
        → Returns GetPacketHashStub (get_packet_hash src ports))
get_packet_hash-GetPacketHashStub_example = get_packet_hash-GetPacketHashStub 42

abbrev one_state : Words
one_state = record { a = 1; b = 2; c = 3 }
