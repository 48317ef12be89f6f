-- ===== src/Controller/Schedule/Round.antt =====
-- controller/schedule.go: a round of noPackingScheduleOnce keeps every core but core 1 to one group.
use low_latency_faa_s.Prelude.{
  ℕ, ◌<◌, ◌≡◌, refl, ap, ◌∙◌, inl, inr, ◌⊎◌, not, List, [], ◌∷◌, Option, none, some, arith,
  Bool-cases, Option-cases, List-cases,
}
use low_latency_faa_s.Prelude.Int.{ℤ}
use low_latency_faa_s.Prelude.Count.{count}
use low_latency_faa_s.Utils.MinHeap.{equal}
use low_latency_faa_s.Go.{Error}
use low_latency_faa_s.Controller.State.{Core, World, Env, idle_core_id, invalid_core_id}
use low_latency_faa_s.Controller.Core.{find_core, groups_on}
use low_latency_faa_s.Controller.Core.Laws.{Within, find_core-id}
use low_latency_faa_s.Controller.Attach.{worker_detach, settle_detach, attach_sgroup, detach_sgroup}
use low_latency_faa_s.Controller.Attach.Placement.{on, IsPlaced, IsExclusive}
use low_latency_faa_s.Controller.Attach.Safety.{attach_sgroup-IsPlaced, attach_sgroup-IsExclusive}
use low_latency_faa_s.Controller.Schedule.{
  first_idle, get_idle_core, detach_after, park, serve, turn, turns, no_packing_schedule_once,
}

-- What a round keeps.
pub record IsSafe (wk : ℕ) (gs : List ℕ) (w : World) : Type 0 where
  pub placed : IsPlaced w wk gs
  pub exclusive : IsExclusive w wk

-- Cores as they were, groups with the same ids, cores and worker.
pub record SameCores (w w' : World) : Type 0 where
  pub cores : (wk : ℕ) → (w'.workers wk).cores ≡ (w.workers wk).cores
  pub ids : (p : ℕ) → (w'.sgroups p).pcie_idx ≡ (w.sgroups p).pcie_idx
  pub owners : (p : ℕ) → (w'.sgroups p).worker ≡ (w.sgroups p).worker
  pub places : (p : ℕ) → (w'.sgroups p).core_id ≡ (w.sgroups p).core_id

pub SameCores-IsPlaced :
    (wk : ℕ) (gs : List ℕ) (w w' : World) → SameCores w w' → IsPlaced w wk gs → IsPlaced w' wk gs
SameCores-IsPlaced wk gs w w' s v =
    let same = λ (id : ℤ) (q : ℕ). ap (λ cs. count q (groups_on id cs)) (s.cores wk) in
    record {
      named = λ p q hp hq e. ground (arith, s.ids p, s.ids q, v.named p q hp hq);
      owned = λ p hp. ground (arith, s.owners p, v.owned p hp);
      inside = λ id q hq. ground (arith, same id q, v.inside id q);
      once = λ id q. ground (arith, same id q, v.once id q);
      valid = ap (find_core invalid_core_id) (s.cores wk) ∙ v.valid;
      placed = λ id q hq. ground (arith, same id q, s.places q, v.placed id q);
    }

pub SameCores-IsSafe :
    (wk : ℕ) (gs : List ℕ) (w w' : World) → SameCores w w' → IsSafe wk gs w → IsSafe wk gs w'
SameCores-IsSafe wk gs w w' s v =
    let same = λ (id : ℤ) (q : ℕ). ap (λ cs. count q (groups_on id cs)) (s.cores wk) in
    record {
      placed = SameCores-IsPlaced wk gs w w' s v.placed;
      exclusive =
          λ id p q apart hp hq. ground (arith, same id p, same id q, v.exclusive id p q apart);
    }

pub detach_sgroup-SameCores :
    (env : Env) (p : ℕ) (w : World) → SameCores w (detach_sgroup env p w).1
unfolding detach_sgroup worker_detach settle_detach
detach_sgroup-SameCores env p w = record {
  cores = λ wk. ground arith;
  ids = λ q. ground arith;
  owners = λ q. ground arith;
  places = λ q. ground arith;
}

first_idle-empty :
    (cs : List Core) (ids : List ℤ) (id : ℤ) → first_idle cs ids ≡ some id → groups_on id cs ≡ []
unfolding first_idle
first_idle-empty cs [] id e = cc
first_idle-empty cs (i ∷ ids) id e = elim (Option-cases (find_core i cs)) [
  | inl missing ↦ first_idle-empty cs ids id (ground (arith, missing))
  | inr (c, found) ↦ elim (List-cases c.sgroups) [
    | inl free ↦
        let here : i ≡ id = ground (arith, found, find_core-id i c cs found) in
        ground (arith, found, here)
    | inr (y, ys, busy) ↦ first_idle-empty cs ids id (ground (arith, found, busy))
  ]
]

get_idle_core-SameCores : (env : Env) (wk : ℕ) (w : World) → SameCores w (get_idle_core env wk w).1
unfolding get_idle_core
get_idle_core-SameCores env wk w = record {
  cores = λ a. refl;
  ids = λ q. refl;
  owners = λ q. refl;
  places = λ q. refl;
}

-- A core that getIdleCore picks has no groups.
pub get_idle_core-empty :
    (env : Env) (wk : ℕ) (w : World) (id : ℤ)
    → (get_idle_core env wk w).0 ≡ some id
    → (q : ℕ) → on (get_idle_core env wk w).1 wk id q ≡ 0
unfolding get_idle_core count
get_idle_core-empty env wk w id e q =
    let cs = (w.workers wk).cores in ap (count q) (first_idle-empty cs _ id e)

module _ (env : Env) (wk : ℕ) (gs : List ℕ) (p : ℕ) (h : 0 < count p gs) where
  attach-IsSafe :
      (w : World) (id : ℤ)
      → (id ≡ idle_core_id) ⊎ ((q : ℕ) → on w wk id q ≡ 0)
      → IsSafe wk gs w
      → IsSafe wk gs (attach_sgroup env p id w).1
  attach-IsSafe w id f v = record {
    placed = attach_sgroup-IsPlaced env wk p gs w id v.placed h;
    exclusive = attach_sgroup-IsExclusive env wk p gs w id v.placed h f v.exclusive;
  }

  detach-IsSafe : (w : World) → IsSafe wk gs w → IsSafe wk gs (detach_sgroup env p w).1
  detach-IsSafe w v = SameCores-IsSafe wk gs w _ (detach_sgroup-SameCores env p w) v

  detach_after-IsSafe :
      (r : Option Error × World) → IsSafe wk gs r.1 → IsSafe wk gs (detach_after env p r)
  detach_after-IsSafe (some e, w) v = v
  detach_after-IsSafe (none, w) v = detach-IsSafe w v

  park-IsSafe : (w : World) → IsSafe wk gs w → IsSafe wk gs (park env p w)
  unfolding park
  park-IsSafe w v = elim (Bool-cases (not (w.sgroups p).is_sched)) [
    | inl out ↦ rw out v
    | inr sched ↦ elim (Bool-cases (equal (w.sgroups p).core_id idle_core_id)) [
      | inl there ↦ rw (sched, there) (detach-IsSafe w v)
      | inr away ↦
          rw (sched, away) (detach_after-IsSafe _ (attach-IsSafe w idle_core_id (inl refl) v))
    ]
  ]

  serve-IsSafe : (w : World) → IsSafe wk gs w → IsSafe wk gs (serve env wk p w)
  unfolding serve
  serve-IsSafe w v =
      let w₁ = (get_idle_core env wk w).1 in
      let same = get_idle_core-SameCores env wk w in
      let v₁ = SameCores-IsSafe wk gs w w₁ same v in
      elim (Bool-cases (w.sgroups p).is_sched) [
        | inl sched ↦ rw sched v
        | inr out ↦ elim (Option-cases (get_idle_core env wk w).0) [
          | inl busy ↦ rw (out, busy) v₁
          | inr (id, idle) ↦
              rw (out, idle) (attach-IsSafe w₁ id (inr (get_idle_core-empty env wk w id idle)) v₁)
        ]
      ]

  turn-IsSafe : (w : World) → IsSafe wk gs w → IsSafe wk gs (turn env wk p w)
  unfolding turn
  turn-IsSafe w v = elim (Bool-cases (not (w.sgroups p).is_ready)) [
    | inl unready ↦ rw unready v
    | inr ready ↦ elim (Bool-cases (not (w.sgroups p).is_active)) [
      | inl idle ↦ rw (ready, idle) (park-IsSafe w v)
      | inr active ↦ rw (ready, active) (serve-IsSafe w v)
    ]
  ]

turns-IsSafe :
    (env : Env) (wk : ℕ) (gs ps : List ℕ) (w : World)
    → Within ps gs
    → IsSafe wk gs w
    → IsSafe wk gs (turns env wk ps w)
unfolding turns count
turns-IsSafe env wk gs [] w i v = v
turns-IsSafe env wk gs (p ∷ ps) w i v =
    turns-IsSafe env wk gs ps _ (λ q hq. i q (omega arith))
      (turn-IsSafe env wk gs p (i p (ground arith)) w v)

-- A round of the scheduler keeps every core but core 1 to one group, and each group on the core
-- whose id it has or on none, whatever CooperativeSched answers and in whatever order Go ranges
-- over the cores.
pub no_packing_schedule_once-IsSafe :
    (env : Env) (wk : ℕ) (gs : List ℕ) (w : World)
    → Within (w.workers wk).sgroups gs
    → IsSafe wk gs w
    → IsSafe wk gs (no_packing_schedule_once env wk w)
unfolding no_packing_schedule_once
no_packing_schedule_once-IsSafe env wk gs w i v =
    turns-IsSafe env wk gs (w.workers wk).sgroups w i v
