-- ===== src/Controller/Logger.antt =====
-- controller/sys_measure.go: the logger of a test's cores and packet rate.
-- A time is in nanoseconds, on Go's monotonic clock. The average is kept as the two integers whose
-- quotient in float64 it is.
pub mod Ending
pub mod Laws
pub mod Stop
use low_latency_faa_s.Prelude.{
  ℕ, ◌+◌, ◌-◌, ◌*◌, ◌/◌, Bool, true, false, not, ◌&&◌, ◌||◌, List, [], ◌∷◌, ◌++◌, map, Option, none,
  some, ltb, leb, ◌==◌, if◌then◌else◌, length, get_elem?, take,
}
use low_latency_faa_s.Go.{Run, returns, ◌>>=◌, or_panic}
use low_latency_faa_s.Controller.State.{World}

pub record Snapshot : Type 0 where
  pub ts : ℕ
  pub core_cnt : ℕ
  pub pkt_rate : ℕ

-- What concerns the log: `state` and its lock only end the loop.
pub record Logger : Type 0 where
  pub snapshot_store : List Snapshot
  pub log_on : Bool
  pub log_index : ℕ
  pub log_start_time : ℕ
  pub test_duration : ℕ
  pub avg_core_usage : ℕ × ℕ
  pub max_core_usage : ℕ
  pub idle_counter : ℕ

unfoldable pub new_logger : ℕ → Logger
new_logger now = record {
  snapshot_store = [];
  log_on = false;
  log_index = 0;
  log_start_time = now;
  test_duration = 0;
  avg_core_usage = (0, 1);
  max_core_usage = 0;
  idle_counter = 0;
}

-- The groups that run on a worker and their packet rates, added up.
unfoldable pub sum_running : World → List ℕ → ℕ × ℕ
sum_running w [] = (0, 0)
sum_running w (p ∷ ps) =
    let sg = w.sgroups p in
    let (cores, rate) = sum_running w ps in
    if sg.is_sched && sg.is_active then (cores + 1, rate + sg.pkt_rate_kpps) else (cores, rate)

abbrev pub get_per_worker_snapshot_summary : World → ℕ → ℕ × ℕ
get_per_worker_snapshot_summary w wk = sum_running w (w.workers wk).sgroups

unfoldable pub sum_workers : World → List ℕ → ℕ × ℕ
sum_workers w [] = (0, 0)
sum_workers w (wk ∷ wks) =
    let (c, p) = get_per_worker_snapshot_summary w wk in
    let (cores, rate) = sum_workers w wks in (c + cores, p + rate)

unfoldable pub get_snapshot_summary : List ℕ → ℕ → World → Snapshot
get_snapshot_summary wks now w =
    let (cores, rate) = sum_workers w wks in record { ts = now; core_cnt = cores; pkt_rate = rate }

-- The loop of ComputeKeyMetrics: the largest number of cores, and the sum of cores times milliseconds.
unfoldable pub max_cores : ℕ → List Snapshot → ℕ
max_cores m [] = m
max_cores m (s ∷ ss) = max_cores (if ltb m s.core_cnt then s.core_cnt else m) ss

unfoldable pub core_time : Snapshot → List Snapshot → ℕ
core_time prev [] = 0
core_time prev (s ∷ ss) = (s.ts - prev.ts) / 1000000 * s.core_cnt + core_time s ss

unfoldable pub compute_key_metrics : Logger → Run Logger
compute_key_metrics l = if not l.log_on || ltb (length l.snapshot_store) 10 then returns l else do
  first ← or_panic (get_elem? l.snapshot_store 0)
  last ← or_panic (get_elem? l.snapshot_store (length l.snapshot_store - 1))
  returns record l {
    test_duration = last.ts - first.ts;
    max_core_usage = max_cores l.max_core_usage l.snapshot_store;
    avg_core_usage = (core_time first l.snapshot_store, (last.ts - first.ts) / 1000000);
  }

-- The file that is written: its numbers, and its lines of a time from the start, cores and rate.
pub record Report : Type 0 where
  pub index : ℕ
  pub duration : ℕ
  pub avg_cores : ℕ × ℕ
  pub max_cores : ℕ
  pub timeline : List (ℕ × ℕ × ℕ)

-- `created` says whether os.Create succeeds; if not, the error is dropped by the only caller.
unfoldable pub write_results_to_file : Bool → Logger → Run (Option Report)
write_results_to_file created l = if not created then returns none else do
  first ← or_panic (get_elem? l.snapshot_store 0)
  returns (
      some record {
        index = l.log_index;
        duration = l.test_duration / 1000000;
        avg_cores = l.avg_core_usage;
        max_cores = l.max_core_usage;
        timeline = map (λ s. (s.ts - first.ts, s.core_cnt, s.pkt_rate)) l.snapshot_store;
      })

abbrev pub is_idle : Snapshot → Bool
is_idle s = s.core_cnt == 0 && s.pkt_rate == 0

-- The first part of a round of RunFaaSLogger: a snapshot that is not idle starts a log.
unfoldable pub start_log : ℕ → Snapshot → Logger → Logger
start_log now s l =
    if not l.log_on && (ltb 0 s.core_cnt || ltb 0 s.pkt_rate)
    then record l {
      log_start_time = now;
      log_on = true;
      snapshot_store = [];
      avg_core_usage = (0, 1);
      max_core_usage = 0;
      idle_counter = 0;
    }
    else l

-- The snapshot is stored, and the counter of idle snapshots kept.
unfoldable pub store_snapshot : Snapshot → Logger → Logger
store_snapshot s l = record l {
  snapshot_store = l.snapshot_store ++ s ∷ [];
  idle_counter = if is_idle s then l.idle_counter + 1 else 0;
}

-- The end of a measurement period.
unfoldable pub end_log : Bool → Logger → Run (Logger × Option Report)
end_log created l = do
  m ←
      compute_key_metrics
        record l { snapshot_store = take (length l.snapshot_store - 5) l.snapshot_store }
  r ← write_results_to_file created m
  returns (record m { log_index = m.log_index + 1; log_on = false }, r)

-- A round of the loop, without the sleep.
unfoldable pub log_round : Bool → ℕ → Snapshot → Logger → Run (Logger × Option Report)
log_round created now s l =
    let l₁ = start_log now s l in
    let l₂ = store_snapshot s l₁ in
    if not l₁.log_on
    then returns (l₁, none)
    else if leb 5 l₂.idle_counter
    then end_log created l₂
    else returns (l₂, none)
