-- ===== src/Controller/Schedule/Interleaving/Members.antt =====
-- controller/schedule.go: what a round of the scheduler leaves of the lists of groups.
use low_latency_faa_s.Prelude.{
  ℕ, ◌≡◌, refl, ◌∙◌, inl, inr, not, List, [], ◌∷◌, Option, none, some, arith, Bool-cases,
  Option-cases,
}
use low_latency_faa_s.Prelude.Int.{ℤ}
use low_latency_faa_s.Utils.MinHeap.{equal}
use low_latency_faa_s.Go.{Error}
use low_latency_faa_s.Controller.State.{World, Env, idle_core_id}
use low_latency_faa_s.Controller.Attach.{
  attach_sgroup, worker_attach, take_off, put_on, settle_attach, detach_sgroup, worker_detach,
  settle_detach,
}
use low_latency_faa_s.Controller.Schedule.{get_idle_core, detach_after, park, serve, turn, turns}
use low_latency_faa_s.Controller.Schedule.Interleaving.Aside.{members}

attach_sgroup-members :
    (env : Env) (p b : ℕ) (id : ℤ) (w : World)
    → members b (attach_sgroup env p id w).1 ≡ members b w
unfolding attach_sgroup worker_attach take_off put_on settle_attach
attach_sgroup-members env p b id w = ground arith

detach_sgroup-members :
    (env : Env) (p b : ℕ) (w : World) → members b (detach_sgroup env p w).1 ≡ members b w
unfolding detach_sgroup worker_detach settle_detach
detach_sgroup-members env p b w = ground arith

module _ (env : Env) (b : ℕ) where
  detach_after-members :
      (p : ℕ) (r : Option Error × World) → members b (detach_after env p r) ≡ members b r.1
  detach_after-members p (some e, w) = refl
  detach_after-members p (none, w) = detach_sgroup-members env p b w

  park-members : (p : ℕ) (w : World) → members b (park env p w) ≡ members b w
  unfolding park
  park-members p w = elim (Bool-cases (not (w.sgroups p).is_sched)) [
    | inl out ↦ rw out refl
    | inr sched ↦ elim (Bool-cases (equal (w.sgroups p).core_id idle_core_id)) [
      | inl there ↦ rw (sched, there) (detach_sgroup-members env p b w)
      | inr away ↦
          rw (sched, away)
            (detach_after-members p (attach_sgroup env p idle_core_id w)
              ∙ attach_sgroup-members env p b idle_core_id w)
    ]
  ]

  serve-members : (wk p : ℕ) (w : World) → members b (serve env wk p w) ≡ members b w
  unfolding serve get_idle_core
  serve-members wk p w =
      let w₁ = (get_idle_core env wk w).1 in
      elim (Bool-cases (w.sgroups p).is_sched) [
        | inl sched ↦ rw sched refl
        | inr out ↦ elim (Option-cases (get_idle_core env wk w).0) [
          | inl busy ↦ rw (out, busy) refl
          | inr (id, idle) ↦ rw (out, idle) (attach_sgroup-members env p b id w₁)
        ]
      ]

  pub turns-members :
      (wk : ℕ) (ps : List ℕ) (w : World) → members b (turns env wk ps w) ≡ members b w
  unfolding turns turn
  turns-members wk [] w = refl
  turns-members wk (p ∷ ps) w =
      turns-members wk ps (turn env wk p w) ∙ elim (Bool-cases (not (w.sgroups p).is_ready)) [
        | inl unready ↦ rw unready refl
        | inr ready ↦ elim (Bool-cases (not (w.sgroups p).is_active)) [
          | inl idle ↦ rw (ready, idle) (park-members p w)
          | inr active ↦ rw (ready, active) (serve-members wk p w)
        ]
      ]
