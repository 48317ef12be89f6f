-- ===== src/Controller/Logger/Laws.antt =====
-- controller/sys_measure.go: the rounds of RunFaaSLogger, and the report at the end of a log.
use low_latency_faa_s.Prelude.{
  ℕ, ◌+◌, ◌-◌, ◌≤◌, ◌<◌, ◌≡◌, refl, inl, inr, Bool, true, false, not, List, [], ◌∷◌, ◌++◌, Option,
  none, leb, if◌then◌else◌, length, take, arith, Bool-cases,
}
use low_latency_faa_s.Go.{Run, returns}
use low_latency_faa_s.Controller.Logger.{
  Snapshot, Logger, Report, is_idle, start_log, store_snapshot, end_log, log_round,
}
use low_latency_faa_s.Controller.Logger.Ending.{Written, Ended, ended_with, end_log_lem}

-- How many idle snapshots the list ends with, where `n` stood before it.
abbrev pub idle_run : ℕ → List Snapshot → ℕ
idle_run n [] = n
idle_run n (s ∷ ss) = idle_run (if is_idle s then n + 1 else 0) ss

idle_run-snoc :
    (n : ℕ) (s : Snapshot) (ss : List Snapshot)
    → idle_run n (ss ++ s ∷ []) ≡ (if is_idle s then idle_run n ss + 1 else 0)
idle_run-snoc n s [] = refl
idle_run-snoc n s (t ∷ ss) = idle_run-snoc (if is_idle t then n + 1 else 0) s ss

idle_run_bound : (n : ℕ) (ss : List Snapshot) → idle_run n ss ≤ n + length ss
idle_run_bound n [] = omega arith
idle_run_bound n (s ∷ ss) = elim (Bool-cases (is_idle s)) [
  | inl e ↦ rw e (omega (arith, idle_run_bound (n + 1) ss))
  | inr e ↦ rw e (omega (arith, idle_run_bound 0 ss))
]

-- The store of a log that is on starts with a snapshot that is not idle.
abbrev pub starts_busy : List Snapshot → Bool
starts_busy [] = false
starts_busy (s ∷ ss) = not (is_idle s)

-- While a log is on, its store starts with a snapshot that is not idle, and the counter is the number
-- of idle ones that it ends with, below 5.
pub record IsLogging (l : Logger) : Type 0 where
  pub busy : l.log_on ≡ true → starts_busy l.snapshot_store ≡ true
  pub counted : l.log_on ≡ true → l.idle_counter ≡ idle_run 0 l.snapshot_store
  pub below : l.log_on ≡ true → l.idle_counter < 5

idle_run-busy : (ss : List Snapshot) → starts_busy ss ≡ true → idle_run 0 ss < length ss
idle_run-busy [] h = absurd (ground (arith, h))
idle_run-busy (s ∷ ss) h = elim (Bool-cases (is_idle s)) [
  | inl e ↦ absurd (ground (arith, e, h))
  | inr e ↦ rw e (omega (arith, idle_run_bound 0 ss))
]

-- A round from `l` with the snapshot `s`: with no log on, an idle snapshot is dropped; a log that is
-- on, or that the snapshot starts, goes on with the snapshot at its end; or it ends, with a report on
-- all its snapshots but the last 5, of which there is at least one.
pub data Round (created : Bool) (s : Snapshot) (l : Logger)
    : Run (Logger × Option Report) → Type 0 where
  dropped : l.log_on ≡ false → is_idle s ≡ true → Round created s l (returns (l, none))
  going :
      (m : Logger)
      → m.log_on ≡ true
      → m.snapshot_store ≡ (if l.log_on then l.snapshot_store else []) ++ s ∷ []
      → m.log_index ≡ l.log_index
      → IsLogging m
      → Round created s l (returns (m, none))
  ended :
      (m : Logger) (r : Option Report)
      → l.log_on ≡ true
      → m.log_on ≡ false
      → m.log_index ≡ l.log_index + 1
      → 5 < length (l.snapshot_store ++ s ∷ [])
      → Written l.log_index
          (take (length (l.snapshot_store ++ s ∷ []) - 5) (l.snapshot_store ++ s ∷ []))
          created
          r
      → Round created s l (returns (m, r))

starts_busy-snoc :
    (ss : List Snapshot) (s : Snapshot) → starts_busy ss ≡ true → starts_busy (ss ++ s ∷ []) ≡ true
starts_busy-snoc [] s h = absurd (ground (arith, h))
starts_busy-snoc (t ∷ ss) s h = h

-- A snapshot after a log that is on.
stored-IsLogging :
    (s : Snapshot) (l : Logger)
    → l.log_on ≡ true
    → IsLogging l
    → leb 5 (store_snapshot s l).idle_counter ≡ false
    → IsLogging (store_snapshot s l)
unfolding store_snapshot
stored-IsLogging s l on v few = record {
  busy = λ e. starts_busy-snoc l.snapshot_store s (v.busy on);
  counted = λ e. ground (arith, idle_run-snoc 0 s l.snapshot_store, v.counted on);
  below = λ e. ground (arith, few);
}

-- The equations of a round, where `m` is the logger after its first part.
module _ (created : Bool) (now : ℕ) (s : Snapshot) (l m : Logger) (p : start_log now s l ≡ m) where
  log_round-off : m.log_on ≡ false → log_round created now s l ≡ returns (m, none)
  unfolding log_round
  log_round-off off = rw (p, off) refl

  log_round-many :
      m.log_on ≡ true
      → leb 5 (store_snapshot s m).idle_counter ≡ true
      → log_round created now s l ≡ end_log created (store_snapshot s m)
  unfolding log_round
  log_round-many on many = rw p (rw (many, on) refl)

  log_round-few :
      m.log_on ≡ true
      → leb 5 (store_snapshot s m).idle_counter ≡ false
      → log_round created now s l ≡ returns (store_snapshot s m, none)
  unfolding log_round
  log_round-few on few = rw p (rw (few, on) refl)

-- Five idle snapshots at its end make a store longer than five.
many-long :
    (s : Snapshot) (l : Logger)
    → l.log_on ≡ true
    → IsLogging l
    → leb 5 (store_snapshot s l).idle_counter ≡ true
    → 5 < length (l.snapshot_store ++ s ∷ [])
unfolding store_snapshot
many-long s l on v many = ground (
  arith,
  idle_run-busy (l.snapshot_store ++ s ∷ []),
  starts_busy-snoc l.snapshot_store s (v.busy on),
  idle_run-snoc 0 s l.snapshot_store,
  v.counted on,
  many,
)

Ended-Round :
    (created : Bool) (s : Snapshot) (l : Logger) (r : Run (Logger × Option Report))
    → l.log_on ≡ true
    → 5 < length (l.snapshot_store ++ s ∷ [])
    → Ended created
        (record (store_snapshot s l) {
          snapshot_store =
              take
                (length (store_snapshot s l).snapshot_store - 5)
                (store_snapshot s l).snapshot_store;
        })
        r
    → Round created s l r
unfolding store_snapshot
Ended-Round created s l _ on long (ended_with m r off index w) = ended m r on off index long w

few-Round :
    (created : Bool) (s : Snapshot) (l : Logger)
    → l.log_on ≡ true
    → IsLogging l
    → leb 5 (store_snapshot s l).idle_counter ≡ false
    → Round created s l (returns (store_snapshot s l, none))
unfolding store_snapshot
few-Round created s l on v few =
    going (store_snapshot s l) on (rw on refl) refl (stored-IsLogging s l on v few)

module _ (created : Bool) (now : ℕ) (s : Snapshot) (l : Logger) (v : IsLogging l) where
  stays_on : l.log_on ≡ true → start_log now s l ≡ l
  unfolding start_log
  stays_on on = rw on refl

  stays_off : is_idle s ≡ true → start_log now s l ≡ l
  unfolding start_log
  stays_off idle = ground (arith, idle)

  stored_long :
      5 < length (l.snapshot_store ++ s ∷ []) → 5 < length (store_snapshot s l).snapshot_store
  unfolding store_snapshot
  stored_long h = h

  log_round-on : l.log_on ≡ true → Round created s l (log_round created now s l)
  log_round-on on = elim (Bool-cases (leb 5 (store_snapshot s l).idle_counter)) [
    | inl many ↦
        let long = many-long s l on v many in
        rw (log_round-many created now s l l (stays_on on) on many) (
          Ended-Round created s l _ on long
            (end_log_lem created (store_snapshot s l) (stored_long long)))
    | inr few ↦
        rw (log_round-few created now s l l (stays_on on) on few) (few-Round created s l on v few)
  ]

  abbrev reset : Logger
  reset = record l {
    log_start_time = now;
    log_on = true;
    snapshot_store = [];
    avg_core_usage = (0, 1);
    max_core_usage = 0;
    idle_counter = 0;
  }

  starts : l.log_on ≡ false → is_idle s ≡ false → start_log now s l ≡ reset
  unfolding start_log
  starts off busy = ground (arith, off, busy)

  reset-IsLogging : is_idle s ≡ false → IsLogging (store_snapshot s reset)
  unfolding store_snapshot
  reset-IsLogging busy = record {
    busy = λ e. ground (arith, busy);
    counted = λ e. ground (arith, busy);
    below = λ e. ground (arith, busy);
  }

  reset-few : is_idle s ≡ false → leb 5 (store_snapshot s reset).idle_counter ≡ false
  unfolding store_snapshot
  reset-few busy = ground (arith, busy)

  reset-Round :
      l.log_on ≡ false
      → is_idle s ≡ false
      → Round created s l (returns (store_snapshot s reset, none))
  unfolding store_snapshot
  reset-Round off busy =
      going (store_snapshot s reset) refl (rw off refl) refl (reset-IsLogging busy)

  -- A round of RunFaaSLogger never fails, not even when it writes a report on the first snapshot of its
  -- store, and does what Round says, from a logger in which a log that is on starts with a snapshot that
  -- is not idle and counts the idle ones at its end.
  pub log_round-Round : Round created s l (log_round created now s l)
  log_round-Round = elim (Bool-cases l.log_on) [
    | inl on ↦ log_round-on on
    | inr off ↦ elim (Bool-cases (is_idle s)) [
      | inl idle ↦ rw (log_round-off created now s l l (stays_off idle) off) (dropped off idle)
      | inr busy ↦
          rw (log_round-few created now s l reset (starts off busy) refl (reset-few busy))
            (reset-Round off busy)
    ]
  ]
