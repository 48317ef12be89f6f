-- ===== src/Controller/Attach/Safety.antt =====
-- attachSGroup of SGroup (controller/sgroup.go) keeps the cores in order, also where it fails.
use mathlib.Core.Path.{subst}
use low_latency_faa_s.Prelude.{
  ℕ, ◌<◌, ◌≡◌, ap, sym, ◌⊎◌, inl, inr, true, ◌&&◌, List, Option, none, some, arith, Bool-cases,
}
use low_latency_faa_s.Prelude.Int.{ℤ}
use low_latency_faa_s.Prelude.Count.{count}
use low_latency_faa_s.Utils.MinHeap.{equal}
use low_latency_faa_s.Utils.MinHeap.Count.{equal_iff}
use low_latency_faa_s.Go.{Error, core_not_found}
use low_latency_faa_s.Controller.State.{World, Env, invalid_core_id, idle_core_id, put_sgroup}
use low_latency_faa_s.Controller.Core.{find_core}
use low_latency_faa_s.Controller.Core.Laws.{IsNamed}
use low_latency_faa_s.Controller.Attach.{settle_attach, attach_sgroup}
use low_latency_faa_s.Controller.Attach.Placement.{on, IsPlaced, IsExclusive}
use low_latency_faa_s.Controller.Attach.Moves.{
  Lost, Put, unknown, lost, moved, worker_attach-Attached,
}

-- How SGroup.attachSGroup ends.
pub data Ended (wk p : ℕ) (id : ℤ) (w : World) (r : Option Error × World) : Type 0 where
  stays :
      (w.sgroups p).core_id ≡ id → (w.sgroups p).is_sched ≡ true → r ≡ (none, w) → Ended wk p id w r
  refused :
      find_core (w.sgroups p).core_id (w.workers wk).cores ≡ none
      → r ≡ (some core_not_found, w)
      → Ended wk p id w r
  loses : (e : Error) (w' : World) → Lost wk p w w' → r ≡ (some e, w') → Ended wk p id w r
  moves :
      (w' : World)
      → Put wk p id w w'
      → r ≡ (none, put_sgroup p (record (w'.sgroups p) { core_id = id; is_sched = true }) w')
      → Ended wk p id w r

module _ (wk p : ℕ) (gs : List ℕ) (w : World) (v : IsPlaced w wk gs) (h : 0 < count p gs) where
  pub attach_sgroup-Ended : (env : Env) (id : ℤ) → Ended wk p id w (attach_sgroup env p id w)
  unfolding attach_sgroup settle_attach
  attach_sgroup-Ended env id =
      elim (Bool-cases (equal (w.sgroups p).core_id id && (w.sgroups p).is_sched)) [
        | inl same ↦
            stays (ground (arith, equal_iff (w.sgroups p).core_id id)) (ground arith)
              (rw (same, attach_sgroup))
        | inr other ↦ elim (worker_attach-Attached env wk p gs w v h id) [
          | unknown missing run ↦ refused missing (rw (other, v.owned p h, run))
          | lost e w' l run ↦ loses e w' l (rw (other, v.owned p h, run))
          | moved w' put run ↦ moves w' put (rw (other, v.owned p h, run))
        ]
      ]

  pub Lost-IsPlaced : (w' : World) → Lost wk p w w' → IsPlaced w' wk gs
  Lost-IsPlaced w' l =
      let same = λ (q : ℕ). ap (λ sgs. sgs q) l.same.groups in
      record {
        named = subst (λ sgs. IsNamed sgs gs) (sym l.same.groups) v.named;
        owned = λ q hq. ground (arith, same q, v.owned q hq);
        inside = λ id q hq. ground (arith, l.counts id q, v.inside id q);
        once = λ id q. ground (arith, l.counts id q, v.once id q);
        valid = (l.same.cores invalid_core_id).1 v.valid;
        placed = λ id q hq. ground (arith, same q, l.counts id q, v.placed id q);
      }

  pub Lost-IsExclusive : (w' : World) → Lost wk p w w' → IsExclusive w wk → IsExclusive w' wk
  Lost-IsExclusive w' l x =
      λ id q r apart hq hr. ground (arith, l.counts id q, l.counts id r, x id q r apart)

  module _ (id : ℤ) (w' : World) (put : Put wk p id w w') where
    abbrev settled : World
    settled = put_sgroup p (record (w'.sgroups p) { core_id = id; is_sched = true }) w'

    pub Put-IsPlaced : IsPlaced settled wk gs
    Put-IsPlaced =
        let same = λ (q : ℕ). ap (λ sgs. sgs q) put.same.groups in
        record {
          named = λ q r hq hr e. ground (arith, same q, same r, same p, v.named q r hq hr);
          owned = λ q hq. ground (arith, same q, same p, v.owned q hq);
          inside = λ j q hq. ground (arith, put.counts j q, v.inside j q, h);
          once = λ j q. ground (arith, put.counts j q, v.once j q);
          valid = (put.same.cores invalid_core_id).1 v.valid;
          placed = λ j q hq. ground (arith, same q, equal_iff id j, put.counts j q, v.placed j q);
        }

    pub Put-IsExclusive :
        (id ≡ idle_core_id) ⊎ ((q : ℕ) → on w wk id q ≡ 0)
        → IsExclusive w wk
        → IsExclusive settled wk
    Put-IsExclusive (inl idle) x = λ j q r apart hq hr.
        ground (arith, equal_iff id j, put.counts j q, put.counts j r, x j q r apart)
    Put-IsExclusive (inr free) x = λ j q r apart hq hr.
        ground
          (arith, equal_iff id j, free q, free r, put.counts j q, put.counts j r, x j q r apart)

-- attachSGroup of a group of the worker keeps the placement, whatever core it names and whatever the
-- scheduler answers: groups have different IDs, a core lists groups of the worker, each at most once,
-- and only groups whose coreID is its own.
pub attach_sgroup-IsPlaced :
    (env : Env) (wk p : ℕ) (gs : List ℕ) (w : World) (id : ℤ)
    → IsPlaced w wk gs
    → 0 < count p gs
    → IsPlaced (attach_sgroup env p id w).1 wk gs
attach_sgroup-IsPlaced env wk p gs w id v h = elim (attach_sgroup-Ended wk p gs w v h env id) [
  | stays _ _ run ↦ rw run v
  | refused _ run ↦ rw run v
  | loses e w' l run ↦ rw run (Lost-IsPlaced wk p gs w v h w' l)
  | moves w' put run ↦ rw run (Put-IsPlaced wk p gs w v h id w' put)
]

-- attachSGroup to core 1, or to a core with no groups, keeps every other core to at most one group,
-- whatever the scheduler answers.
pub attach_sgroup-IsExclusive :
    (env : Env) (wk p : ℕ) (gs : List ℕ) (w : World) (id : ℤ)
    → IsPlaced w wk gs
    → 0 < count p gs
    → (id ≡ idle_core_id) ⊎ ((q : ℕ) → on w wk id q ≡ 0)
    → IsExclusive w wk
    → IsExclusive (attach_sgroup env p id w).1 wk
attach_sgroup-IsExclusive env wk p gs w id v h f x =
    elim (attach_sgroup-Ended wk p gs w v h env id) [
      | stays _ _ run ↦ rw run x
      | refused _ run ↦ rw run x
      | loses e w' l run ↦ rw run (Lost-IsExclusive wk p gs w v h w' l x)
      | moves w' put run ↦ rw run (Put-IsExclusive wk p gs w v h id w' put f x)
    ]
