-- ===== src/Controller/Groups/Leftover.antt =====
-- controller/worker.go and controller/sgroup.go: what destroySGroup leaves of a group.
use low_latency_faa_s.Prelude.{ℕ, ◌≡◌, refl, ap, inl, inr, List, [], ◌∷◌, Bool-cases}
use low_latency_faa_s.Controller.State.{World, Env}
use low_latency_faa_s.Controller.Groups.{
  tick, free_port, destroy_instance, destroy_instances, reset, destroy_sgroup,
}
use low_latency_faa_s.Controller.Groups.Ports.{update-same}
use low_latency_faa_s.Controller.Groups.Pcie.{reset-IsQuiet}

record IsSame (w w' : World) : Type 0 where
  sgroups : w'.sgroups ≡ w.sgroups
  dags : w'.dags ≡ w.dags

destroy_instances-IsSame :
    (env : Env) (wk : ℕ) (is : List ℕ) (w : World) → IsSame w (destroy_instances env wk is w)
unfolding destroy_instances destroy_instance free_port
destroy_instances-IsSame env wk [] w = record { sgroups = refl; dags = refl }
destroy_instances-IsSame env wk (i ∷ is) w = elim (Bool-cases (env.delete w.tick)) [
  | inl ok ↦
      let r = destroy_instances-IsSame env wk is (free_port wk (w.instances i).port (tick w)) in
      rw (ok, destroy_instances, destroy_instance) (record { sgroups = r.sgroups; dags = r.dags })
  | inr failed ↦
      let r = destroy_instances-IsSame env wk is (tick w) in
      rw (failed, destroy_instances, destroy_instance)
        (record { sgroups = r.sgroups; dags = r.dags })
]

-- What the code that chooses groups reads of a group.
pub record IsLeft (wk p : ℕ) (w w' : World) : Type 0 where
  pub members : (w'.workers wk).sgroups ≡ (w.workers wk).sgroups
  pub dags : w'.dags ≡ w.dags
  pub ready : (w'.sgroups p).is_ready ≡ (w.sgroups p).is_ready
  pub active : (w'.sgroups p).is_active ≡ (w.sgroups p).is_active
  pub core : (w'.sgroups p).core_id ≡ (w.sgroups p).core_id
  pub emptied : (w'.sgroups p).instances ≡ []

-- destroySGroup leaves the group among the groups of its worker and of every DAG, and as ready and active
-- as it was, with the same coreID, though it has no instances any more.
pub destroy_sgroup_leaves :
    (env : Env) (wk p : ℕ) (w : World) → IsLeft wk p w (destroy_sgroup env wk p w).1
unfolding destroy_sgroup reset
destroy_sgroup_leaves env wk p w =
    let q = reset-IsQuiet env wk p w in
    let r = destroy_instances-IsSame env (w.sgroups p).worker (w.sgroups p).instances w in
    let w₁ = destroy_instances env (w.sgroups p).worker (w.sgroups p).instances w in
    record {
      members = rw (update-same (reset env p w).workers wk _) q.members;
      dags = r.dags;
      ready = rw (update-same w₁.sgroups p _) (ap (λ f. (f p).is_ready) r.sgroups);
      active = rw (update-same w₁.sgroups p _) (ap (λ f. (f p).is_active) r.sgroups);
      core = rw (update-same w₁.sgroups p _) (ap (λ f. (f p).core_id) r.sgroups);
      emptied = rw (update-same w₁.sgroups p _) refl;
    }
