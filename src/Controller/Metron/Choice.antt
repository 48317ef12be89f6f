-- ===== src/Controller/Metron/Choice.antt =====
-- controller/metron.go: how metronGetFreeSGroup ends.
use low_latency_faa_s.Prelude.{
  ℕ, zero, suc, ◌+◌, ◌≡◌, refl, String, true, false, List, [], ◌∷◌, ◌++◌, Option, none, some, ◌==◌,
  arith, map, ◌<◌, ◌≢◌, if◌then◌else◌,
}
use low_latency_faa_s.Prelude.Int.{ℤ}
use low_latency_faa_s.Utils.MinHeap.{equal}
use low_latency_faa_s.Utils.MinHeap.Count.{count as ℤ_count}
use low_latency_faa_s.Go.{Run, returns, panic, hangs}
use low_latency_faa_s.Controller.State.{Core, World, Env}
use low_latency_faa_s.Controller.Core.{find_core}
use low_latency_faa_s.Controller.Metron.{draw_other, metron_get_free_sgroup}

draw_other_hangs :
    (fuel : ℕ) (draw : ℕ → ℕ) (k first : ℕ)
    → ((k : ℕ) → draw k ≡ first)
    → draw_other fuel draw k first ≡ hangs
unfolding draw_other
draw_other_hangs zero draw k first h = refl
draw_other_hangs (suc fuel) draw k first h =
    let same : (draw k == first) ≡ true = ground (arith, h k) in
    rw same (draw_other_hangs fuel draw (k + 1) first h)

-- Every core that is ranged over has a group.
abbrev pub AreBusy : List Core → List ℤ → Type 0
AreBusy cs order =
    (id : ℤ) (c : Core) → 0 < ℤ_count id order → find_core id cs ≡ some c → c.sgroups ≢ []

-- The group is off the list of the worker `wk`, which now is `rest`, and has a core of its worker, which had no groups
-- and now has just this one, as its coreID. The other cores of its worker and the other groups are as before.
pub record IsPlacedAlone (wk p : ℕ) (rest : List ℕ) (w w' : World) : Type 0 where
  pub id : ℤ
  pub core : Core
  pub found : find_core id (w.workers (w.sgroups p).worker).cores ≡ some core
  pub idle : core.sgroups ≡ []
  pub alone :
      (j : ℤ)
      → find_core j (w'.workers (w.sgroups p).worker).cores ≡ (
          if equal id j
          then some (record core { sgroups = p ∷ [] })
          else find_core j (w.workers (w.sgroups p).worker).cores)
  pub frees : (w'.workers wk).free_sgroups ≡ rest
  pub place : (w'.sgroups p).core_id ≡ id
  pub others : (q : ℕ) → (p == q) ≡ false → w'.sgroups q ≡ w.sgroups q

module _ (env : Env) (others : ℕ → World → World) where
  -- Where rand.Intn always draws the same number, as it does with one worker, metronGetFreeSGroup does
  -- not come back, whatever the fuel.
  pub metron_get_free_sgroup_hangs :
      (fuel : ℕ) (draw : ℕ → ℕ) (workers : List (String × ℕ)) (w : World)
      → ((k : ℕ) → draw k ≡ draw 0)
      → metron_get_free_sgroup env others fuel draw workers w ≡ hangs
  unfolding metron_get_free_sgroup
  metron_get_free_sgroup_hangs fuel draw workers w h =
      rw (draw_other_hangs fuel draw 1 (draw 0) h) refl

  -- How it ends with the worker `wk`; the cores are ranged over in the order that `env` gives.
  pub data Chosen (w : World) (wk : ℕ) : Run (Option ℕ × World) → Type 0 where
    no_group : (w.workers wk).free_sgroups ≡ [] → Chosen w wk (returns (none, w))
    no_core :
        (p : ℕ) (rest : List ℕ)
        → (w.workers wk).free_sgroups ≡ rest ++ p ∷ []
        → AreBusy
            (w.workers (w.sgroups p).worker).cores
            (env.core_order w.tick (map (λ c. c.core_id) (w.workers (w.sgroups p).worker).cores))
        → Chosen w wk panic
    placed :
        (p : ℕ) (rest : List ℕ) (w' : World)
        → (w.workers wk).free_sgroups ≡ rest ++ p ∷ []
        → IsPlacedAlone wk p rest w w'
        → Chosen w wk (returns (some p, w'))
