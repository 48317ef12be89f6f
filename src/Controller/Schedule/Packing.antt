-- ===== src/Controller/Schedule/Packing.antt =====
-- controller/schedule.go: the packing scheduler. scheduleOnce and advancedFitScheduleOnce have the same
-- body. `sort` is sort.Sort on the reverse order of the groups by their packet rates, a library call,
-- which leaves the worker's list in that order.
pub mod Loads
pub mod Like
pub mod Packed
use low_latency_faa_s.Prelude.{ℕ, ◌+◌, Bool, not, List, [], ◌∷◌, ltb, if◌then◌else◌, length}
use low_latency_faa_s.Prelude.Int.{pos}
use low_latency_faa_s.Controller.State.{SGroup, World, Env, put_worker}
use low_latency_faa_s.Controller.Attach.{attach_sgroup}
use low_latency_faa_s.Controller.Traffic.{get_pkt_load}
use low_latency_faa_s.Controller.Schedule.{park}

-- SGroupSlice of controller/pool.go: the order that the sort uses.
abbrev pub slower : (ℕ → SGroup) → ℕ → ℕ → Bool
slower sgs p q = ltb (sgs p).pkt_rate_kpps (sgs q).pkt_rate_kpps

module _ (env : Env) where
  -- The loop, for `n` cores, on the core `core_id` with `load` on it. A group that does not fit moves on
  -- to the next core; when there is none, the loop ends.
  unfoldable pub pack : ℕ → ℕ → ℕ → List ℕ → World → World
  pack n core_id load [] w = w
  pack n core_id load (p ∷ ps) w =
      let sg = w.sgroups p in
      let more = get_pkt_load sg in
      let skipped = pack n core_id load ps w in
      let parked = pack n core_id load ps (park env p w) in
      let here = pack n core_id (load + more) ps (attach_sgroup env p (pos core_id) w).1 in
      let next = pack n (core_id + 1) more ps (attach_sgroup env p (pos (core_id + 1)) w).1 in
      if not sg.is_ready
      then skipped
      else if not sg.is_active
      then parked
      else if ltb (load + more) 80
      then here
      else if ltb core_id n
      then next
      else w

  unfoldable pub schedule_once : ((ℕ → ℕ → Bool) → List ℕ → List ℕ) → ℕ → World → World
  schedule_once sort wk w =
      let a = w.workers wk in
      let sorted = sort (slower w.sgroups) a.sgroups in
      pack (length a.cores) 0 80 sorted (put_worker wk (record a { sgroups = sorted }) w)
