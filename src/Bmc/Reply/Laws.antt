-- ===== src/Bmc/Reply/Laws.antt =====
-- What the copy loops write, and how a key is counted.
use dram_pvt_mk.Base.{
  ℕ, zero, suc, ◌+◌, ◌%◌, ◌≤◌, ◌<◌, ◌≡◌, ◌∙◌, refl, sym, ap, arith, List, [], ◌∷◌, ◌++◌, true,
  false, ◌&&◌, ◌==◌, ltb, leb, if◌then◌else◌, Option, some, length, add32, Option-cases, set,
  ==_self, take, drop, length-take, Bool-cases, inl, inr, ltb→lt, ltb-false→≤,
}
use dram_pvt_mk.Base.Bytes.{Packet, bytes_from, write, length-write}
use dram_pvt_mk.Base.Xdp.{xdp_pass}
use dram_pvt_mk.Bmc.{
  CacheEntry, MemcachedKey, ParsingContext, BmcStats, Maps, bmc_cache_entry_count,
}
use dram_pvt_mk.Bmc.Frame.{Frame, Delta, forward, packet_of}
use dram_pvt_mk.Bmc.Reply.{
  Writing, copy_words, copy_bytes, copy_entry, serve, write_reply, next_key, count_key,
}

write-append :
    (p : Packet) (a : ℕ) (xs ys : List ℕ)
    → write p a (xs ++ ys) ≡ write (write p a xs) (a + length xs) ys
unfolding write
write-append p a [] ys = ap (λ k. write p k ys) (omega arith)
write-append p a (x ∷ xs) ys =
    let e : a + 1 + length xs ≡ a + suc (length xs) = omega arith in
    write-append (set p a x) (a + 1) xs ys ∙ ap (λ k. write (write (set p a x) (a + 1) xs) k ys) e

write_nil : (p : Packet) → write p 0 [] ≡ p
unfolding write
write_nil p = refl

take_nil : (n : ℕ) → Path (List ℕ) (take n []) []
take_nil zero = refl
take_nil (suc n) = refl

take-add : (n k : ℕ) (xs : List ℕ) → take (n + k) xs ≡ take n xs ++ take k (drop n xs)
take-add zero k xs = ap (λ j. take j xs) (omega arith)
take-add (suc n) k [] = take_nil (suc n + k) ∙ sym (take_nil k)
take-add (suc n) k (x ∷ xs) =
    let e : suc n + k ≡ suc (n + k) = omega arith in rw e (ap (λ l. x ∷ l) (take-add n k xs))

-- The smallest of the size of the entry, its length and the packet.
abbrev pub smaller : ℕ → ℕ → ℕ
smaller a b = if ltb b a then b else a

abbrev pub copied_length : CacheEntry → Packet → ℕ
copied_length entry p = smaller 1303 (smaller entry.len (length p))

byte_test :
    (a b c o : ℕ) → (ltb o a && (ltb o b && leb (o + 1) c)) ≡ ltb o (smaller a (smaller b c))
byte_test a b c o = ground arith

word_test :
    (a b c o : ℕ)
    → (ltb (o + 8) a && (leb (o + 8) b && leb (o + 8) c)) ≡ true
    → o + 8 ≤ smaller a (smaller b c)
word_test a b c o h = ground arith

smaller-le : (a b : ℕ) → smaller a b ≤ a
smaller-le a b = ground arith

-- The state of the loops after `o` bytes.
abbrev pub written_to : CacheEntry → Packet → ℕ → Writing
written_to entry p o = record { off = o; written = o; packet = write p 0 (take o entry.data_bytes) }

module _ (entry : CacheEntry) (p : Packet) (whole : length entry.data_bytes ≡ 1303) where
  write_more :
      (o k : ℕ)
      → o + k ≤ 1303
      → write (write p 0 (take o entry.data_bytes)) o (bytes_from entry.data_bytes o k)
        ≡ write p 0 (take (o + k) entry.data_bytes)
  write_more o k h =
      let d = entry.data_bytes in
      let e : 0 + length (take o d) ≡ o =
        omega (arith, length-take o d (omega (arith, whole, h))) in
      ap (λ j. write (write p 0 (take o d)) j (take k (drop o d))) (sym e)
      ∙ sym (write-append p 0 (take o d) (take k (drop o d)))
      ∙ ap (write p 0) (sym (take-add o k d))

  length_after : (o : ℕ) → length (write p 0 (take o entry.data_bytes)) ≡ length p
  length_after o = length-write p 0 (take o entry.data_bytes)

  copy_bytes_lem :
      (left o : ℕ)
      → o ≤ copied_length entry p
      → copied_length entry p ≤ o + left
      → copy_bytes left entry (written_to entry p o) ≡ written_to entry p (copied_length entry p)
  unfolding copy_bytes
  copy_bytes_lem zero o h k = ap (written_to entry p) (omega arith)
  copy_bytes_lem (suc left) o h k = elim (Bool-cases (ltb o (copied_length entry p))) [
    | inl more ↦
        let l = ltb→lt o (copied_length entry p) more in
        let b = smaller-le 1303 (smaller entry.len (length p)) in
        rw (length_after o) (
          rw (byte_test 1303 entry.len (length p) o) (
            rw more (
              rw (write_more o 1 (omega (arith, l, b)))
                (copy_bytes_lem left (o + 1) (omega (arith, l)) (omega (arith, k))))))
    | inr done ↦
        let g = ltb-false→≤ o (copied_length entry p) done in
        let e : o ≡ copied_length entry p = omega (arith, g, h) in
        rw (length_after o)
          (rw (byte_test 1303 entry.len (length p) o) (rw done (ap (written_to entry p) e)))
  ]

  copy_words_lem :
      (left o : ℕ)
      → o ≤ copied_length entry p
      → (o' : ℕ) × (o' ≤ copied_length entry p)
        × (copy_words left entry (written_to entry p o) ≡ written_to entry p o')
  unfolding copy_words
  copy_words_lem zero o h = (o, h, refl)
  copy_words_lem (suc left) o h =
      let test = ltb (o + 8) 1303 && (leb (o + 8) entry.len && leb (o + 8) (length p)) in
      rw (length_after o) (elim (Bool-cases test) [
        | inl more ↦
            let l = word_test 1303 entry.len (length p) o more in
            let b = smaller-le 1303 (smaller entry.len (length p)) in
            rw more (rw (write_more o 8 (omega (arith, l, b))) (copy_words_lem left (o + 8) l))
        | inr done ↦ rw done (o, h, refl)
      ])

  -- For an entry whose buffer is whole, the two loops copy the data of the entry to the beginning
  -- of the packet, as many bytes as the entry's length, the buffer's size and the packet allow, and
  -- report this number; the packet's other bytes stay as they are.
  pub copy_entry_lem :
      let n = copied_length entry p in
      copy_entry entry p
      ≡ record { off = n; written = n; packet = write p 0 (take n entry.data_bytes) }
  unfolding copy_entry
  copy_entry_lem =
      let (o, h, e) = copy_words_lem 163 0 (omega arith) in
      let b = smaller-le 1303 (smaller entry.len (length p)) in
      let start : written_to entry p 0 ≡ record { off = 0; written = 0; packet = p } =
        ap (λ q. record { off = 0; written = 0; packet = q }) (write_nil p) in
      ap (λ w. copy_bytes 1303 entry (copy_words 163 entry w)) (sym start)
      ∙ ap (copy_bytes 1303 entry) e
      ∙ copy_bytes_lem 1303 o h (omega (arith, b))

serve_invalid :
    (key : MemcachedKey) (entry : CacheEntry) (p : Packet)
    → entry.valid ≡ false
    → serve key entry p ≡ (true, record { off = 0; written = 0; packet = p })
unfolding serve
serve_invalid key entry p v = rw v refl

positive : (n : ℕ) → 0 < n → (n == 0) ≡ false
positive n h = ground arith

-- The last key with nothing written.
next_key_miss :
    (adjust_head : Frame → Delta → Option Frame) (adjust_tail : Frame → ℕ → Option Frame) (m : Maps)
    (f : Frame) (p : Packet) (pctx : ParsingContext) (stats : BmcStats)
    → pctx.current_key ≡ pctx.key_count
    → pctx.write_pkt_offset ≡ 0
    → let r = next_key adjust_head adjust_tail m f p 0 pctx stats in
      (r.verdict ≡ xdp_pass)
      × (r.maps.stats 0
          ≡ some
              (record stats { hit_misprediction = add32 stats.hit_misprediction pctx.key_count }))
unfolding next_key
next_key_miss adjust_head adjust_tail m f p pctx stats c w =
    rw (c, w)
      (rw (==_self pctx.key_count) (elim (Option-cases (adjust_head f (forward 78))) [
        | inl e ↦ rw e (refl, refl)
        | inr (g, e) ↦ rw e (refl, refl)
      ]))

-- When the entry of the only key was invalidated after the request was counted, the request is
-- counted twice, as a hit and as a misprediction, and goes to memcached: the verdict is XDP_PASS.
pub write_reply_invalid :
    (adjust_head : Frame → Delta → Option Frame) (adjust_tail : Frame → ℕ → Option Frame)
    → (m : Maps) (f : Frame) (pctx : ParsingContext) (key : MemcachedKey) (entry : CacheEntry)
      (stats : BmcStats)
    → 0 < length (packet_of f)
    → m.parsing_context 0 ≡ some pctx
    → m.keys pctx.current_key ≡ some key
    → m.kcache (key.hash % bmc_cache_entry_count) ≡ some entry
    → m.stats 0 ≡ some stats
    → entry.valid ≡ false
    → pctx.write_pkt_offset ≡ 0
    → add32 pctx.current_key 1 ≡ pctx.key_count
    → let r = write_reply adjust_head adjust_tail m f in
      (r.verdict ≡ xdp_pass)
      × (r.maps.stats 0
          ≡ some (record stats {
            hit_count = add32 stats.hit_count 1;
            hit_misprediction = add32 stats.hit_misprediction pctx.key_count;
          }))
unfolding write_reply count_key
write_reply_invalid adjust_head adjust_tail m f pctx key entry stats l hc hk he hs v w c =
    let t : (length (packet_of f) == 0) ≡ false = positive (length (packet_of f)) l in
    rw t (
      rw hc (
        rw hk (
          rw he (
            rw (serve_invalid key entry (packet_of f) v)
              (rw hs (next_key_miss adjust_head adjust_tail _ _ (packet_of f) _ _ c w))))))
