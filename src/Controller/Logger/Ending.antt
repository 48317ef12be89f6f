-- ===== src/Controller/Logger/Ending.antt =====
-- controller/sys_measure.go: ComputeKeyMetrics, WriteResultsToFile and the end of a log.
use mathlib.Core.Path.{subst}
use low_latency_faa_s.Prelude.{
  ℕ, ◌+◌, ◌-◌, ◌<◌, ◌≡◌, refl, inl, inr, Bool, true, false, not, List, Option, none, some, length,
  get_elem?_cases, length-map, length-take, ap, sym, ltb, ◌||◌, take, arith, Bool-cases,
}
use low_latency_faa_s.Go.{Run, returns, ◌>>=◌}
use low_latency_faa_s.Controller.Logger.{
  Snapshot, Logger, Report, compute_key_metrics, write_results_to_file, end_log,
}

-- The metrics are computed, and leave the store and the index of the log as they are.
data Computed (l : Logger) : Run Logger → Type 0 where
  computed :
      (m : Logger)
      → m.snapshot_store ≡ l.snapshot_store
      → m.log_index ≡ l.log_index
      → Computed l (returns m)

compute_key_metrics_lem : (l : Logger) → Computed l (compute_key_metrics l)
unfolding compute_key_metrics
compute_key_metrics_lem l = elim (Bool-cases (not l.log_on || ltb (length l.snapshot_store) 10)) [
  | inl e ↦ rw e (computed l refl refl)
  | inr e ↦ elim (get_elem?_cases l.snapshot_store 0) [
    | inr h ↦ absurd (ground (arith, e, h.0))
    | inl h ↦ elim (get_elem?_cases l.snapshot_store (length l.snapshot_store - 1)) [
      | inr k ↦ absurd (ground (arith, e, k.0))
      | inl k ↦ rw (e, h.1.1, k.1.1) (computed _ refl refl)
    ]
  ]
]

-- What a call of WriteResultsToFile on a store gives: no report if the file is not created; or else
-- one with the index of the log, and a line for each snapshot of the store.
pub data Written (index : ℕ) (ss : List Snapshot) : Bool → Option Report → Type 0 where
  lost : Written index ss false none
  written :
      (r : Report)
      → r.index ≡ index
      → length r.timeline ≡ length ss
      → Written index ss true (some r)

data Writes (created : Bool) (l : Logger) : Run (Option Report) → Type 0 where
  writes :
      (r : Option Report)
      → Written l.log_index l.snapshot_store created r
      → Writes created l (returns r)

write_results_to_file_lem :
    (created : Bool) (l : Logger)
    → 0 < length l.snapshot_store
    → Writes created l (write_results_to_file created l)
unfolding write_results_to_file
write_results_to_file_lem false l h = writes none lost
write_results_to_file_lem true l h = elim (get_elem?_cases l.snapshot_store 0) [
  | inr k ↦ absurd (omega (arith, h, k.0))
  | inl k ↦ rw k.1.1 (writes _ (written _ refl (length-map l.snapshot_store _)))
]

-- The log ends.
pub data Ended (created : Bool) (l : Logger) : Run (Logger × Option Report) → Type 0 where
  ended_with :
      (m : Logger) (r : Option Report)
      → m.log_on ≡ false
      → m.log_index ≡ l.log_index + 1
      → Written l.log_index l.snapshot_store created r
      → Ended created l (returns (m, r))

after_writing :
    (created : Bool) (l m : Logger) (c : Run (Option Report))
    → m.snapshot_store ≡ l.snapshot_store
    → m.log_index ≡ l.log_index
    → Writes created m c
    → Ended created l (
        c >>= λ (r : Option Report).
        returns (record m { log_index = m.log_index + 1; log_on = false }, r))
after_writing created l m _ store index (writes r w) =
    ended_with (record m { log_index = m.log_index + 1; log_on = false }) r refl
      (ap (λ n. n + 1) index)
      (subst (λ n. Written n l.snapshot_store created r) index
        (subst (λ ss. Written m.log_index ss created r) store w))

after_computing :
    (created : Bool) (l : Logger) (c : Run Logger)
    → 0 < length l.snapshot_store
    → Computed l c
    → Ended created l (
        c >>= λ (m : Logger). write_results_to_file created m >>= λ (r : Option Report).
        returns (record m { log_index = m.log_index + 1; log_on = false }, r))
after_computing created l _ h (computed m store index) =
    after_writing created l m (write_results_to_file created m) store index
      (write_results_to_file_lem created m (subst (λ ss. 0 < length ss) (sym store) h))

pub end_log_lem :
    (created : Bool) (l : Logger)
    → 5 < length l.snapshot_store
    → Ended created
        (record l { snapshot_store = take (length l.snapshot_store - 5) l.snapshot_store })
        (end_log created l)
unfolding end_log
end_log_lem created l h =
    after_computing created _ _
      (omega (arith, h, length-take (length l.snapshot_store - 5) l.snapshot_store))
      (compute_key_metrics_lem _)
