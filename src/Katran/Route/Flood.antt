-- ===== src/Katran/Route/Flood.antt =====
-- How many new connections a second admits: is_under_flood.
use dram_pvt_mk.Base.{
  ℕ, suc, ◌+◌, ◌-◌, ◌%◌, ◌^◌, ◌≤◌, ◌<◌, ◌≡◌, refl, arith, List, [], ◌∷◌, if◌then◌else◌, ltb, leb,
  ltb-eq-false, some, length, All,
}
use dram_pvt_mk.Base.Table.{Table, store, store_self}
use dram_pvt_mk.Katran.{LbStats, one_sec, max_conn_rate, sub64}
use dram_pvt_mk.Katran.Route.{conn_rate_key, is_under_flood}

-- The calls of a run, at the given times, that are not under flood.
pub admitted : Table LbStats → List ℕ → ℕ
admitted t [] = 0
admitted t (now ∷ times) =
    let r = is_under_flood t now in
    let rest = admitted r.stats times in if r.under_flood then rest else suc rest

-- A time within a second of the beginning of the quantum.
abbrev pub InQuantum : ℕ → ℕ → Type 0
InQuantum start now = sub64 now start ≤ one_sec

step :
    (t : Table LbStats) (s : LbStats) (now : ℕ)
    → t conn_rate_key ≡ some s
    → InQuantum s.v2 now
    → s.v1 + 1 < 2 ^ 64
    → is_under_flood t now ≡ record {
      stats = store t conn_rate_key (record s { v1 = s.v1 + 1 });
      under_flood = ltb max_conn_rate (s.v1 + 1);
      cur_time = now;
    }
unfolding is_under_flood
step t s now e h small =
    let no_wrap : (s.v1 + 1) % 2 ^ 64 ≡ s.v1 + 1 = omega arith in
    rw (e, ltb-eq-false one_sec (sub64 now s.v2) h, no_wrap) refl

-- Calls within a second of the beginning of a quantum are admitted as long as the quantum's counter is
-- below 125000, and no longer: of `n` of them, with the counter at `v1` before, exactly the smaller
-- one of `n` and 125000 - v1, when the counter does not wrap.
pub is_under_flood-admitted :
    (times : List ℕ) (t : Table LbStats) (s : LbStats)
    → t conn_rate_key ≡ some s
    → All (InQuantum s.v2) times
    → s.v1 + length times < 2 ^ 64
    → admitted t times
      ≡ (if leb (length times) (max_conn_rate - s.v1) then length times else max_conn_rate - s.v1)
unfolding admitted
is_under_flood-admitted [] t s e h small = ground arith
is_under_flood-admitted (now ∷ times) t s e h small = rw (step t s now e h.0 (omega arith)) (
    let next : LbStats = record s { v1 = s.v1 + 1 } in
    let ih =
      is_under_flood-admitted times (store t conn_rate_key next) next
        (store_self t conn_rate_key next) h.1 (omega arith) in
    ground (arith, ih))
