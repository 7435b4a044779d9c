-- ===== src/Paxos/Request/Laws.antt =====
-- The share of the requests that goes on to user space.
use native.Mathlib.Nat.{mod_self, mod-eq_of_lt}
use dram_pvt_mk.Base.{
  ℕ, suc, ◌+◌, ◌*◌, ◌%◌, ◌^◌, ◌≤◌, ◌<◌, ◌≡◌, inl, inr, refl, ap, ◌∙◌, arith, List, [], ◌∷◌, All,
  true, false, if◌then◌else◌, ltb, ◌==◌, ltb-eq-false, Bool-cases, ==_iff, Option, some, length,
  add32,
}
use dram_pvt_mk.Base.Bytes.{Packet, ◌>>=◌, Returns, Returns-bind}
use dram_pvt_mk.Base.Xdp.{xdp_drop, xdp_pass}
use dram_pvt_mk.Paxos.{PaxosMaps, CtrState, PaxosRun}
use dram_pvt_mk.Paxos.Request.{next_counter, buffer_request, batch_request, handle_request}

-- One request after another, with the number of those that were passed.
abbrev pub handle_all : PaxosMaps → List Packet → Option (PaxosMaps × ℕ)
handle_all m [] = some (m, 0)
handle_all m (p ∷ ps) = handle_request m p true >>= λ run.
    handle_all run.maps ps >>= λ r. some (r.0, (if run.verdict == xdp_pass then suc r.1 else r.1))

-- A request that the program takes: its fields are there, and its body fits the buffer.
abbrev pub IsRequest : Packet → Type 0
IsRequest p = (99 ≤ length p) × (length p ≤ 227)

pub record Batches (m : PaxosMaps) (counter batch_size : ℕ) : Type 0 where
  pub counts : m.batch_context 0 ≡ some counter
  pub state : CtrState
  pub finds : m.ctr_state 0 ≡ some state
  pub size : state.batch_size ≡ batch_size
  pub below : counter < batch_size
  pub fits : batch_size < 2 ^ 32

-- The counter after one more request, and whether the request ended a batch.
data Counted (counter batch_size num verdict : ℕ) : Type 0 where
  ended :
      counter + 1 ≡ batch_size
      → num ≡ 0
      → verdict ≡ xdp_pass
      → Counted counter batch_size num verdict
  goes_on :
      counter + 1 < batch_size
      → num ≡ counter + 1
      → verdict ≡ xdp_drop
      → Counted counter batch_size num verdict

abbrev HasCounted : ℕ → ℕ → PaxosRun → Type 0
HasCounted c b run = (num : ℕ) × (Batches run.maps num b × Counted c b num run.verdict)

next_counter_lem :
    (c b : ℕ) → c < b → b < 2 ^ 32 → next_counter c b ≡ some (if c + 1 == b then 0 else c + 1)
unfolding next_counter
next_counter_lem c b h k =
    let some_size : (b == 0) ≡ false = ground arith in
    let no_wrap : add32 c 1 ≡ c + 1 = omega arith in
    rw (some_size, no_wrap)
      (elim (Bool-cases (c + 1 == b)) [
        | inl e ↦ rw e (ap some (ap (λ x. x % b) ((==_iff (c + 1) b).0 e) ∙ mod_self b))
        | inr n ↦ rw n (ap some (mod-eq_of_lt (short n)))
      ])
  where
    short : (c + 1 == b) ≡ false → c + 1 < b
    short n = ground arith

handle_request-Counted :
    (m : PaxosMaps) (p : Packet) (c b : ℕ)
    → Batches m c b
    → IsRequest p
    → Returns (HasCounted c b) (handle_request m p true)
unfolding handle_request batch_request buffer_request
handle_request-Counted m p c b t h =
    let t1 : ltb (length p) 99 ≡ false = ltb-eq-false (length p) 99 h.0 in
    let t2 : ltb 227 (length p) ≡ false = ltb-eq-false 227 (length p) h.1 in
    let next : next_counter c t.state.batch_size ≡ some (if c + 1 == b then 0 else c + 1) =
      ap (next_counter c) t.size ∙ next_counter_lem c b t.below t.fits in
    let still : (m' : PaxosMaps) (num : ℕ)
        → m'.batch_context 0 ≡ some num
        → m'.ctr_state ≡ m.ctr_state
        → num < b
        → Batches m' num b =
      λ m' num e k l. record {
        counts = e;
        state = t.state;
        finds = ap (λ f. f 0) k ∙ t.finds;
        size = t.size;
        below = l;
        fits = t.fits;
      } in
    let nonzero : (c + 1 == 0) ≡ false = ground arith in
    rw t1 (
      rw (t.counts) (
        rw (t.finds) (
          rw next (elim (Bool-cases (c + 1 == b)) [
            | inl e ↦ rw e (
              0,
              (
                still _ 0 refl refl (omega (arith, t.below)),
                ended ((==_iff (c + 1) b).0 e) refl refl,
              ),
            )
            | inr n ↦
                let l : c + 1 < b = short t.below n in
                rw n (rw (nonzero, t2) (c + 1, (still _ (c + 1) refl refl l, goes_on l refl refl)))
          ]))))
  where
    short : c < b → (c + 1 == b) ≡ false → c + 1 < b
    short l n = ground arith

-- How the requests of a run split into batches.
pub record Split (counter batch_size count : ℕ) (r : PaxosMaps × ℕ) : Type 0 where
  pub num : ℕ
  pub held : Batches r.0 num batch_size
  pub total : r.1 * batch_size + num ≡ counter + count

count_one :
    (run : PaxosRun) (c b n num : ℕ) (o : Option (PaxosMaps × ℕ))
    → Counted c b num run.verdict
    → Returns (Split num b n) o
    → Returns
        (Split c b (suc n))
        (o >>= λ r. some (r.0, (if run.verdict == xdp_pass then suc r.1 else r.1)))
count_one run c b n num o (ended e z v) h =
    Returns-bind (Split c b (suc n)) o _
      (λ r s. let t = s.total in rw v (record { num = s.num; held = s.held; total = omega arith }))
      h
count_one run c b n num o (goes_on l z v) h =
    Returns-bind (Split c b (suc n)) o _
      (λ r s. let t = s.total in rw v (record { num = s.num; held = s.held; total = omega arith }))
      h

-- Of a run of requests that the program takes, it passes one for each full batch: with a batch size
-- from 1 to 2^32 - 1 and the counter below it, the number of passed requests times the batch size,
-- plus the new counter, is the old counter plus the number of requests. None of them faults.
pub handle_all-Split :
    (m : PaxosMaps) (ps : List Packet) (c b : ℕ)
    → Batches m c b
    → All IsRequest ps
    → Returns (Split c b (length ps)) (handle_all m ps)
handle_all-Split m [] c b t h = record { num = c; held = t; total = omega arith }
handle_all-Split m (p ∷ ps) c b t h =
    Returns-bind (Split c b (suc (length ps))) (handle_request m p true) _
      (λ run counted.
        count_one run c b (length ps) counted.0 _ counted.1.1
          (handle_all-Split run.maps ps counted.0 b counted.1.0 h.1))
      (handle_request-Counted m p c b t h.0)
