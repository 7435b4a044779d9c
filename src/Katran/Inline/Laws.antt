-- ===== src/Katran/Inline/Laws.antt =====
-- Inline decapsulation gives back the packet that was put behind outer headers, with one hop less.
use dram_pvt_mk.Base.{
  ℕ, ◌+◌, ◌-◌, ◌%◌, ◌≤◌, ◌<◌, ◌==◌, ◌≡◌, ◌∙◌, refl, sym, ap, inl, inr, arith, List, [], ◌∷◌, Bool,
  true, false, Option, some, length, ltb, ltb→lt, ltb-false→≤, Bool-cases,
}
use dram_pvt_mk.Base.Outer.{Outer}
use dram_pvt_mk.Base.Bytes.{
  Packet, byte_at, write, le_bytes, length-write, byte_at-write, byte_at-write_below,
  byte_at-write_above,
}
use dram_pvt_mk.Base.Adjust.{ShrinkHead}
use dram_pvt_mk.Base.Bytes.{bytes_from}
use dram_pvt_mk.Katran.{BalancerKernel}
use dram_pvt_mk.Katran.Encap.{decap, decrement_ttl}
use dram_pvt_mk.Katran.Encap.Decap.{Restored, decap-Restored}
use dram_pvt_mk.Katran.Inline.{Inlined, ending_after, inline_decap}

-- The same bytes stored in a packet and, `n` bytes on, in its encapsulation.
write-Outer :
    (n : ℕ) (p r : Packet) (mac : List ℕ) (off : ℕ) (bs : List ℕ)
    → 14 ≤ off
    → off + length bs ≤ length p
    → Outer n p r mac
    → Outer n (write p off bs) (write r (n + off) bs) mac
write-Outer n p r mac off bs low room o = record {
  size = length-write r (n + off) bs ∙ o.size ∙ omega (arith, length-write p off bs);
  dest = λ i h. byte_at-write_below r (n + off) bs i (omega arith) ∙ o.dest i h;
  source = λ i h.
      byte_at-write_below r (n + off) bs (6 + i) (omega arith)
      ∙ o.source i h
      ∙ sym (byte_at-write_below p off bs i (omega arith));
  inner = λ i h. elim (Bool-cases (ltb i off)) [
    | inl before ↦
        let lt = ltb→lt i off before in
        byte_at-write_below r (n + off) bs (n + i) (omega arith)
        ∙ o.inner i h
        ∙ sym (byte_at-write_below p off bs i lt)
    | inr from ↦ elim (Bool-cases (ltb i (off + length bs))) [
      | inl within ↦
          let le = ltb-false→≤ i off from in
          let lt = ltb→lt i (off + length bs) within in stored i le lt
      | inr above ↦
          let le = ltb-false→≤ i (off + length bs) above in
          byte_at-write_above r (n + off) bs (n + i) (omega arith)
          ∙ o.inner i h
          ∙ sym (byte_at-write_above p off bs i le)
    ]
  ];
}
  where
    stored :
        (i : ℕ)
        → off ≤ i
        → i < off + length bs
        → byte_at (write r (n + off) bs) (n + i) ≡ byte_at (write p off bs) i
    stored i le lt =
        let there : n + i ≡ n + off + (i - off) = omega arith in
        let here : off + (i - off) ≡ i = omega arith in
        ap (byte_at (write r (n + off) bs)) there
        ∙ byte_at-write r (n + off) bs (i - off) (omega arith) (omega (arith, o.size))
        ∙ sym (byte_at-write p off bs (i - off) (omega arith) room)
        ∙ ap (byte_at (write p off bs)) here

ltb-shift : (n a b c : ℕ) → a ≡ n + b → ltb a (n + 14 + c) ≡ ltb b (14 + c)
ltb-shift n a b c e = ground arith

-- The time to live of an inner packet is that of the packet itself.
decrement_ttl-Outer :
    (n : ℕ) (p r : Packet) (mac : List ℕ) (is_ipv6 : Bool)
    → Outer n p r mac
    → Outer n (decrement_ttl p 14 is_ipv6).0 (decrement_ttl r (n + 14) is_ipv6).0 mac
      × ((decrement_ttl r (n + 14) is_ipv6).1 ≡ (decrement_ttl p 14 is_ipv6).1)
unfolding decrement_ttl
decrement_ttl-Outer n p r mac true o =
    let at : n + 14 + 7 ≡ n + 21 = omega arith in
    let hops = (byte_at p 21 + 255) % 256 in
    rw (ltb-shift n (length r) (length p) 40 o.size, at, o.inner 21 (omega arith))
      (elim (Bool-cases (ltb (length p) 54)) [
        | inl short ↦ rw short (o, refl)
        | inr long ↦
            let room = ltb-false→≤ (length p) 54 long in
            rw long (write-Outer n p r mac 21 (hops ∷ []) (omega arith) (omega arith) o, refl)
      ])
decrement_ttl-Outer n p r mac false o =
    let at : n + 14 + 8 ≡ n + 22 = omega arith in
    let sum_at : n + 14 + 10 ≡ n + 24 = omega arith in
    let ttl = (byte_at p 22 + 255) % 256 in
    rw (ltb-shift n (length r) (length p) 20 o.size, at, sum_at, o.inner 22 (omega arith))
      (elim (Bool-cases (ltb (length p) 34)) [
        | inl short ↦ rw short (o, refl)
        | inr long ↦
            let room = ltb-false→≤ (length p) 34 long in
            let q = write-Outer n p r mac 22 (ttl ∷ []) (omega arith) (omega arith) o in
            rw long (elim (Bool-cases (ttl == 0)) [
              | inl dead ↦ rw dead (q, refl)
              | inr alive ↦
                  let second : n + 24 + 1 ≡ n + 25 = omega arith in
                  rw (alive, second, q.inner 24 (omega arith), q.inner 25 (omega arith))
                    (
                      write-Outer n _ _ mac 24 _ (omega arith)
                          (omega (arith, length-write p 22 (ttl ∷ []))) q,
                      refl,
                    )
            ])
      ])

-- `bpf_xdp_adjust_head` succeeds where an Ethernet header is left.
abbrev pub Succeeds : (Packet → ℕ → Option Packet) → Type 0
Succeeds shrink_head =
    (p : Packet) (n : ℕ) → n + 14 ≤ length p → (q : Packet) × (shrink_head p n ≡ some q)

decap-moved :
    (k : BalancerKernel) (p : Packet) (n proto : ℕ)
    → Succeeds k.shrink_head
    → n + 14 ≤ length p
    → (decap k p n proto).moved ≡ true
unfolding decap
decap-moved k p n proto succeeds room =
    let a = write p (n + 6) (bytes_from p 6 6) in
    let b = write a n (bytes_from a 0 6) in
    let size = length-write b (n + 12) (le_bytes 2 proto) in
    let same : length b ≡ length p =
      length-write a n (bytes_from a 0 6) ∙ length-write p (n + 6) (bytes_from p 6 6) in
    let (q, e) = succeeds (write b (n + 12) (le_bytes 2 proto)) n (omega (arith, size, same)) in
    rw e refl

length-decrement_ttl :
    (p : Packet) (offset : ℕ) (is_ipv6 : Bool)
    → length (decrement_ttl p offset is_ipv6).0 ≡ length p
unfolding decrement_ttl
length-decrement_ttl p offset true = elim (Bool-cases (ltb (length p) (offset + 40))) [
  | inl short ↦ rw short refl
  | inr long ↦ rw long (length-write p (offset + 7) _)
]
length-decrement_ttl p offset false = elim (Bool-cases (ltb (length p) (offset + 20))) [
  | inl short ↦ rw short refl
  | inr long ↦ rw long (elim (Bool-cases ((byte_at p (offset + 8) + 255) % 256 == 0)) [
    | inl dead ↦ rw dead (length-write p (offset + 8) _)
    | inr alive ↦ rw alive (length-write _ (offset + 10) _ ∙ length-write p (offset + 8) _)
  ])
]

-- The inner packet, with one hop less, and what becomes of it.
abbrev pub Hopped : Packet → List ℕ → ℕ → Bool → Bool → Inlined → Type 0
Hopped p mac proto inner_v6 passes run =
    Restored (decrement_ttl p 14 inner_v6).0 run.packet mac proto
    × (run.ending ≡ ending_after (decrement_ttl p 14 inner_v6).1 passes)

pub inline_decap-Hopped :
    (k : BalancerKernel) (n : ℕ) (p r : Packet) (mac : List ℕ) (proto : ℕ) (inner_v6 passes : Bool)
    → ShrinkHead k.shrink_head
    → Succeeds k.shrink_head
    → 14 ≤ n
    → 14 ≤ length p
    → Outer n p r mac
    → Hopped p mac proto inner_v6 passes
        (inline_decap r (n + 14) inner_v6 (λ q. decap k q n proto) passes)
unfolding inline_decap
inline_decap-Hopped k n p r mac proto inner_v6 passes shrinks succeeds long wide o =
    let (o', same) = decrement_ttl-Outer n p r mac inner_v6 o in
    let size = length-decrement_ttl p 14 inner_v6 in
    let moved =
      decap-moved k (decrement_ttl r (n + 14) inner_v6).0 n proto succeeds
        (omega (arith, o'.size, size)) in
    rw moved (
      decap-Restored k shrinks n _ _ mac proto long (omega (arith, size)) o' moved,
      ap (λ a. ending_after a passes) same,
    )
