-- ===== src/Controller/Attach/Failure.antt =====
-- attachSGroup of SGroup (controller/sgroup.go) where CooperativeSched does not accept the request.
use low_latency_faa_s.Prelude.{ℕ, ◌<◌, ◌≡◌, ◌≢◌, ◌⊎◌, inl, inr, false, List, none, arith, ap}
use low_latency_faa_s.Prelude.Int.{ℤ}
use low_latency_faa_s.Prelude.Count.{count}
use low_latency_faa_s.Utils.MinHeap.Count.{equal_iff}
use low_latency_faa_s.Controller.State.{World, Env, accepted}
use low_latency_faa_s.Controller.Core.{find_core}
use low_latency_faa_s.Controller.Attach.{
  request, reply_error, worker_attach, settle_attach, attach_sgroup,
}
use low_latency_faa_s.Controller.Attach.Placement.{on, IsPlaced}
use low_latency_faa_s.Controller.Attach.Moves.{take_off_cases}
use low_latency_faa_s.Controller.Attach.Safety.{
  stays, refused as missing, loses, moves, attach_sgroup-Ended,
}

-- The next AttachChain of the worker fails: there is no connection, or it is not accepted.
abbrev pub AttachFails : Env → ℕ → World → Type 0
AttachFails env wk w =
    ((w.workers wk).sched_connected ≡ false) ⊎ (env.attach_chain w.tick ≢ accepted)

request_fails :
    (env : Env) (wk : ℕ) (w : World)
    → AttachFails env wk w
    → reply_error (request env.attach_chain wk w).0 ≢ none
request_fails env wk w f = ground arith

worker_attach_fails :
    (env : Env) (wk p : ℕ) (gs : List ℕ) (w : World) (id : ℤ)
    → IsPlaced w wk gs
    → 0 < count p gs
    → AttachFails env wk w
    → (worker_attach env wk p id w).0 ≢ none
unfolding worker_attach
worker_attach_fails env wk p gs w id v h f = elim (take_off_cases wk p gs w v h) [
  | inl (off, _) ↦ ground (arith, off)
  | inr (w₁, off, l, t) ↦
      let f₁ : AttachFails env wk w₁ = ground (arith, t, l.same.connected) in
      ground (arith, off, request_fails env wk w₁ f₁)
]

-- Where the request fails, attachSGroup reports an error after it has taken the group off its core:
-- the group is on no core, while its coreID and its isSched say what they said before.
pub attach_sgroup_loses :
    (env : Env) (wk p : ℕ) (gs : List ℕ) (w : World) (id : ℤ)
    → IsPlaced w wk gs
    → 0 < count p gs
    → find_core (w.sgroups p).core_id (w.workers wk).cores ≢ none
    → (w.sgroups p).core_id ≢ id
    → AttachFails env wk w
    → let (e, w') = attach_sgroup env p id w in
      (e ≢ none) × (w'.sgroups ≡ w.sgroups) × ((j : ℤ) → on w' wk j p ≡ 0)
unfolding attach_sgroup settle_attach
attach_sgroup_loses env wk p gs w id v h found apart f =
    elim (attach_sgroup-Ended wk p gs w v h env id) [
      | stays same _ _ ↦ absurd (apart same)
      | missing none_there _ ↦ absurd (found none_there)
      | loses e w' l run ↦ rw run (ground arith, l.same.groups, λ j. ground (arith, l.counts j p))
      | moves w' put run ↦ absurd (
          ground (
            arith,
            ap (λ r. r.0) run,
            v.owned p h,
            equal_iff (w.sgroups p).core_id id,
            worker_attach_fails env wk p gs w id v h f,
          ))
    ]
