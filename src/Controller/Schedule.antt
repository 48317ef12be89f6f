-- ===== src/Controller/Schedule.antt =====
-- controller/schedule.go: the rounds of a worker's CPU scheduler. A round holds the lock of the
-- worker's group lists, so the list that it ranges over does not change under it.
pub mod Round
pub mod Packing
pub mod Interleaving
use low_latency_faa_s.Prelude.{
  ℕ, zero, suc, ◌+◌, Bool, true, false, not, List, [], ◌∷◌, map, Option, none, some, ltb,
  if◌then◌else◌, length,
}
use low_latency_faa_s.Prelude.Int.{ℤ, pos}
use low_latency_faa_s.Utils.MinHeap.{equal}
use low_latency_faa_s.Go.{Error}
use low_latency_faa_s.Controller.State.{SGroup, Core, Worker, World, Env, idle_core_id}
use low_latency_faa_s.Controller.Core.{find_core}
use low_latency_faa_s.Controller.Attach.{attach_sgroup, detach_sgroup}

-- The first core with no groups, over the map in the order of `ids`.
unfoldable pub first_idle : List Core → List ℤ → Option ℤ
first_idle cs [] = none
first_idle cs (id ∷ ids) = elim (find_core id cs) [
  | none ↦ first_idle cs ids
  | some c ↦ elim c.sgroups [ [] ↦ some c.core_id | _ ∷ _ ↦ first_idle cs ids ]
]

-- The second step of parking a group: off the scheduler.
abbrev pub detach_after : Env → ℕ → Option Error × World → World
detach_after env p (some e, w) = w
detach_after env p (none, w) = (detach_sgroup env p w).1

module _ (env : Env) where
  unfoldable pub get_idle_core : ℕ → World → Option ℤ × World
  get_idle_core wk w =
      let cs = (w.workers wk).cores in
      (
        first_idle cs (env.core_order w.tick (map (λ c. c.core_id) cs)),
        record w { tick = w.tick + 1 },
      )

  -- A scheduled group that is not active any more goes to core 1, and is detached there. A failure
  -- ends its turn; it is only logged.
  unfoldable pub park : ℕ → World → World
  park p w =
      let sg = w.sgroups p in
      if not sg.is_sched
      then w
      else if equal sg.core_id idle_core_id
      then (detach_sgroup env p w).1
      else detach_after env p (attach_sgroup env p idle_core_id w)

  -- An active group that is not scheduled goes to an idle core, if there is one.
  unfoldable pub serve : ℕ → ℕ → World → World
  serve wk p w =
      let (idle, w₁) = get_idle_core wk w in
      if (w.sgroups p).is_sched
      then w
      else elim idle [ none ↦ w₁ | some id ↦ (attach_sgroup env p id w₁).1 ]

  -- One turn of the loop of noPackingScheduleOnce.
  unfoldable pub turn : ℕ → ℕ → World → World
  turn wk p w =
      let sg = w.sgroups p in
      if not sg.is_ready then w else if not sg.is_active then park p w else serve wk p w

  unfoldable pub turns : ℕ → List ℕ → World → World
  turns wk [] w = w
  turns wk (p ∷ ps) w = turns wk ps (turn wk p w)

  unfoldable pub no_packing_schedule_once : ℕ → World → World
  no_packing_schedule_once wk w = turns wk (w.workers wk).sgroups w
