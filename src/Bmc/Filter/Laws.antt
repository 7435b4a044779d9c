-- ===== src/Bmc/Filter/Laws.antt =====
-- The filters against what follows them: the request that reaches the key hashing, and the reply
-- that reaches the cache.
use dram_pvt_mk.Base.{
  ℕ, zero, suc, ◌+◌, ◌≤◌, ◌<◌, ◌≡◌, ◌≢◌, ◌∙◌, refl, sym, ap, arith, List, [], ◌∷◌, ◌++◌, true,
  false, ltb, Option, some, length, drop, swap16, ltb-eq-false, lt→ltb, drop-append, length-append,
}
use dram_pvt_mk.Base.Table.{store}
use dram_pvt_mk.Base.Bytes.{Packet, byte_at, half_at}
use dram_pvt_mk.Base.Xdp.{xdp_aborted, ipproto_udp}
use dram_pvt_mk.Bmc.{Maps, ParsingContext, BmcStats, memcached_payload}
use dram_pvt_mk.Bmc.Frame.{Frame, Delta, forward, packet_of, Adjusts}
use dram_pvt_mk.Bmc.Update.{update_cache}
use dram_pvt_mk.Bmc.Filter.{
  starts_with, get_text, value_text, skip_spaces, transport, count_get, begin_get, rx_filter,
  count_reply, tx_filter,
}

abbrev pub spaces : ℕ → List ℕ
spaces zero = []
spaces (suc n) = 32 ∷ spaces n

skip_spaces_lem :
    (n k off c : ℕ) (rest : Packet)
    → c ≢ 32
    → k < n
    → skip_spaces n off (spaces k ++ c ∷ rest) ≡ off + k
unfolding skip_spaces
skip_spaces_lem zero k off c rest h l = absurd (omega arith)
skip_spaces_lem (suc n) zero off c rest h l = ground arith
skip_spaces_lem (suc n) (suc k) off c rest h l =
    skip_spaces_lem n k (off + 1) c rest h (omega arith) ∙ omega arith

drop_nil : (n : ℕ) → Path Packet (drop n []) []
drop_nil zero = refl
drop_nil (suc n) = refl

drop-drop : (n m : ℕ) (p : Packet) → drop n (drop m p) ≡ drop (m + n) p
drop-drop n zero p = ap (λ k. drop k p) (omega arith)
drop-drop n (suc m) [] = drop_nil n ∙ sym (drop_nil (suc m + n))
drop-drop n (suc m) (b ∷ p) =
    let e : suc m + n ≡ suc (m + n) = omega arith in rw e (drop-drop n m p)

length-spaces : (k : ℕ) → length (spaces k) ≡ k
length-spaces zero = refl
length-spaces (suc k) = ap suc (length-spaces k)

-- A GET request: headers to port 11211, "get ", spaces, and the text from the first key on.
pub record IsGet (f : Frame) (header : Packet) (k c : ℕ) (rest : Packet) : Type 0 where
  pub bytes : packet_of f ≡ header ++ (get_text ++ (spaces k ++ c ∷ rest))
  pub headers : length header ≡ memcached_payload
  pub over_udp : byte_at (packet_of f) 23 ≡ ipproto_udp
  pub to_memcached : half_at (packet_of f) 36 ≡ swap16 11211
  pub key_begins : c ≢ 32
  pub in_reach : k < 1496

-- What the filter leaves in the maps for a request with `k` more spaces.
abbrev pub parsed : ℕ → Maps → BmcStats → ParsingContext → Maps
parsed k m stats pctx = record m {
  stats = store m.stats 0 (count_get stats);
  parsing_context = store m.parsing_context 0 (record pctx {
    key_count = 0;
    current_key = 0;
    write_pkt_offset = 0;
    read_pkt_offset = 4 + k;
  });
}

module _ (adjust_head : Frame → Delta → Option Frame) (moves : Adjusts adjust_head) (f g : Frame)
    (header rest : Packet) (k c : ℕ) (get : IsGet f header k c rest)
    (moved : adjust_head f (forward (54 + k)) ≡ some g) where
  text_of_get : drop 50 (packet_of f) ≡ get_text ++ (spaces k ++ c ∷ rest)
  text_of_get = rw (get.bytes) (drop-append 50 header _ get.headers)

  after_key : drop (54 + k) (packet_of f) ≡ c ∷ rest
  after_key =
      let e : 54 + k ≡ 50 + (4 + k) = omega arith in
      rw e (
        sym (drop-drop (4 + k) 50 (packet_of f))
        ∙ sym (drop-drop k 4 (drop 50 (packet_of f)))
        ∙ ap (λ q. drop k (drop 4 q)) text_of_get
        ∙ drop-append k (spaces k) (c ∷ rest) (length-spaces k))

  key_of_get : packet_of g ≡ c ∷ rest
  key_of_get =
      let m = moves.moves_forward f g (54 + k) moved in
      rw (m.0, m.1) (sym (drop-drop (54 + k) f.head f.buffer) ∙ after_key)

  length_of_get : 54 ≤ length (packet_of f)
  length_of_get =
      rw (get.bytes)
        (omega (arith, get.headers, length-append header (get_text ++ (spaces k ++ c ∷ rest))))

  transport_of_get : transport (packet_of f) ≡ some (swap16 11211, 50)
  unfolding transport
  transport_of_get =
      let l1 : ltb (length (packet_of f)) 34 ≡ false =
        ltb-eq-false _ 34 (omega (arith, length_of_get)) in
      let l2 : ltb (length (packet_of f)) 42 ≡ false =
        ltb-eq-false _ 42 (omega (arith, length_of_get)) in
      rw (l1, get.over_udp) (rw (l2, get.to_memcached) refl)

  begin_get_lem :
      (m : Maps) (stats : BmcStats) (pctx : ParsingContext)
      → m.stats 0 ≡ some stats
      → m.parsing_context 0 ≡ some pctx
      → begin_get adjust_head m f
        ≡ record { maps = parsed k m stats pctx; frame = g; verdict = xdp_aborted }
  unfolding begin_get
  begin_get_lem m stats pctx hs hp =
      let text : drop 54 (packet_of f) ≡ spaces k ++ c ∷ rest =
        sym (drop-drop 4 50 (packet_of f)) ∙ ap (drop 4) text_of_get in
      let off : skip_spaces 1496 4 (drop 54 (packet_of f)) ≡ 4 + k =
        ap (skip_spaces 1496 4) text
        ∙ skip_spaces_lem 1496 k 4 c rest get.key_begins get.in_reach in
      let fits : ltb (4 + k) 1500 ≡ true = lt→ltb (4 + k) 1500 (omega (arith, get.in_reach)) in
      let delta : 50 + (4 + k) ≡ 54 + k = omega arith in
      rw hs (rw hp (rw off (rw fits (rw delta (rw moved)))))

  -- A GET request over UDP to port 11211, with up to 1495 more spaces before its first key, is
  -- counted, the parsing context starts anew at the first key, and when `bpf_xdp_adjust_head`
  -- succeeds the packet that the key hashing takes begins with that key.
  pub rx_filter_get :
      (m : Maps) (stats : BmcStats) (pctx : ParsingContext)
      → m.stats 0 ≡ some stats
      → m.parsing_context 0 ≡ some pctx
      → let r = rx_filter adjust_head m f in
        (r.maps ≡ parsed k m stats pctx)
        × (packet_of r.frame ≡ c ∷ rest)
        × (r.verdict ≡ xdp_aborted)
  unfolding rx_filter
  rx_filter_get m stats pctx hs hp =
      let long : ltb (length (packet_of f)) 54 ≡ false = ltb-eq-false _ 54 length_of_get in
      rw transport_of_get (
        rw (long, get.over_udp)
          (rw text_of_get (rw (begin_get_lem m stats pctx hs hp) (refl, key_of_get, refl))))

-- A reply of memcached within the size of a cache entry is counted and handed to the cache, with
-- its packet unchanged.
pub tx_filter_value :
    (m : Maps) (skb_len : ℕ) (p : Packet) (stats : BmcStats)
    → skb_len ≤ 1353
    → 56 ≤ length p
    → byte_at p 23 ≡ ipproto_udp
    → half_at p 34 ≡ swap16 11211
    → starts_with value_text (drop 50 p) ≡ true
    → m.stats 0 ≡ some stats
    → tx_filter m skb_len p
      ≡ update_cache (record m { stats = store m.stats 0 (count_reply stats) }) p
unfolding tx_filter
tx_filter_value m n p stats h l u s t c =
    let t0 = ltb-eq-false 1353 n h in
    let t1 = ltb-eq-false (length p) 34 (omega (arith, l)) in
    let t2 = ltb-eq-false (length p) 42 (omega (arith, l)) in
    let t3 = ltb-eq-false (length p) 56 (omega (arith, l)) in
    rw t0 (rw t1 (rw u (rw t2 (rw s (rw (t3, t) (rw c))))))
