-- ===== src/Controller/Attach/Placement.antt =====
-- Which groups are on which core of a worker.
use low_latency_faa_s.Prelude.{ℕ, ◌≤◌, ◌<◌, ◌≡◌, ◌≢◌, List, none}
use low_latency_faa_s.Prelude.Int.{ℤ}
use low_latency_faa_s.Prelude.Count.{count}
use low_latency_faa_s.Controller.State.{World, idle_core_id, invalid_core_id}
use low_latency_faa_s.Controller.Core.{groups_on, find_core}
use low_latency_faa_s.Controller.Core.Laws.{IsNamed, Within}

-- How often the group `p` stands on the core `id` of the worker `wk`.
abbrev pub on : World → ℕ → ℤ → ℕ → ℕ
on w wk id p = count p (groups_on id (w.workers wk).cores)

-- Groups `gs` with different IDs, all of the worker; a core lists some of them, each once, and
-- only those whose coreID it is.
pub record IsPlaced (w : World) (wk : ℕ) (gs : List ℕ) : Type 0 where
  pub named : IsNamed w.sgroups gs
  pub owned : (p : ℕ) → 0 < count p gs → (w.sgroups p).worker ≡ wk
  pub inside : (id : ℤ) → Within (groups_on id (w.workers wk).cores) gs
  pub once : (id : ℤ) (p : ℕ) → on w wk id p ≤ 1
  pub valid : find_core invalid_core_id (w.workers wk).cores ≡ none
  pub placed : (id : ℤ) (p : ℕ) → 0 < on w wk id p → (w.sgroups p).core_id ≡ id

-- No two groups share a core, other than core 1, where groups wait.
abbrev pub IsExclusive : World → ℕ → Type 0
IsExclusive w wk =
    (id : ℤ) (p q : ℕ) → id ≢ idle_core_id → 0 < on w wk id p → 0 < on w wk id q → p ≡ q
