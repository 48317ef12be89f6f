-- ===== src/Controller/Groups/Rollback/Outcome.antt =====
-- controller/background.go: how createSGroup ends.
use low_latency_faa_s.Prelude.{
  ℕ, ◌≤◌, ◌<◌, ◌≡◌, refl, subst, ap, String, Bool, true, List, [], ◌∷◌, ◌++◌, some, arith, length,
}
use low_latency_faa_s.Prelude.Int.{ℤ}
use low_latency_faa_s.Go.{Run, returns, ◌>>=◌}
use low_latency_faa_s.Controller.Dag.{Nf}
use low_latency_faa_s.Controller.State.{World, Env}
use low_latency_faa_s.Controller.Groups.{pcie_at}
use low_latency_faa_s.Controller.Groups.Startup.{
  deploy_chain, chain_of, complete, settle_deployed, create_sgroup,
}
use low_latency_faa_s.Controller.Groups.Ports.{ports_left, update-same}
use low_latency_faa_s.Controller.Groups.Startup.Unset.{complete-waits}
use low_latency_faa_s.Controller.Groups.Rollback.{IsDeployed, IsUndone}
use low_latency_faa_s.Controller.Groups.Rollback.Deployment.{
  AllDone, FirstFails, IsAround, Deployment, deployed, undone, deploy_chain-Deployment,
}

module _ (base : ℤ) (n wk p : ℕ) (held : List ℤ) where
  module _ (env : Env) (del : (k : ℕ) → env.delete k ≡ true) where
    -- A group on which the chain of the DAG `d`, of `k` NFs, was deployed.
    pub record IsStarted (k d : ℕ) (w₀ w : World) : Type 0 where
      pub deployed : IsDeployed base n wk p held w
      pub size : length (w.sgroups p).instances ≡ k
      pub whole : (w.sgroups p).is_complete ≡ true
      pub dag : (w.sgroups p).dag ≡ some d
      pub members : (w.workers wk).sgroups ≡ (w₀.workers wk).sgroups ++ p ∷ []
      pub frees : (w.workers wk).free_sgroups ≡ (w₀.workers wk).free_sgroups
      pub of_dag : (w.dags d).sgroups ≡ (w₀.dags d).sgroups ++ p ∷ []

    -- How createSGroup ends.
    pub data Startup (k d : ℕ) (w₀ : World) : Run World → Type 0 where
      gave_up :
          {w : World}
          → FirstFails env w₀.tick k
          → IsUndone base n wk p held (w₀.workers wk).free_sgroups w
          → Startup k d w₀ (returns w)
      started :
          {w : World} → AllDone env w₀.tick k → IsStarted k d w₀ w → Startup k d w₀ (returns w)

    complete-IsStarted :
        (k d : ℕ) (w₀ w : World)
        → IsDeployed base n wk p held w
        → length (w.sgroups p).instances ≡ k
        → IsAround wk w₀ w
        → IsStarted k d w₀ (complete wk p d 1 w)
    unfolding complete
    complete-IsStarted k d w₀ w v e a =
        let same =
          update-same w.sgroups p (record (w.sgroups p) { dag = some d; is_complete = true }) in
        record {
          deployed = record {
            shared = rw (same, update-same w.workers wk _) v.shared;
            unset = record { old = rw (same) v.unset.old; tids = rw (same) v.unset.tids };
            home = rw (same) v.home;
          };
          size = rw (same) e;
          whole = rw (same) refl;
          dag = rw (same) refl;
          members = rw (update-same w.workers wk _) (ap (λ l. l ++ p ∷ []) a.members);
          frees = rw (update-same w.workers wk _) a.frees;
          of_dag = rw (update-same w.dags d _) (ap (λ f. (f d).sgroups ++ p ∷ []) a.dags);
        }

    settle_deployed-Startup :
        (others : ℕ → World → World) (fuel k d : ℕ) (w₀ : World) (r : Run (Bool × World))
        → 0 < k
        → Deployment base n wk p held env k k w₀ r
        → Startup k d w₀ (r >>= λ (r : Bool × World). settle_deployed env others fuel wk p d 1 r)
    unfolding settle_deployed
    settle_deployed-Startup others fuel k d w₀ r l (deployed {w = w} all v e a) =
        rw (complete-waits env others fuel wk p d 1 w v.unset (omega (arith, l, e)))
          (started all (complete-IsStarted k d w₀ w v e a))
    settle_deployed-Startup others fuel k d w₀ r l (undone f v) = gave_up f v

    -- Where Kubernetes does every deletion, the chain of the DAG is not empty, the worker of a group with no instances
    -- has a port for each NF of the chain, and the group's PCIe index has a device: createSGroup on it comes back. If
    -- one of the deployments of the chain fails in all its tries, every port is given back, and the group is left with
    -- no instances and no DAG at the end of the free groups. If all are done, the group is complete and the DAG's, at
    -- the end of the groups of its worker and of those of the DAG, and has one instance for each NF, where each port is
    -- in the pool, or of one instance, or held by others.
    pub create_sgroup-Startup :
        (others : ℕ → World → World) (fuel d : ℕ) (dev : String) (nfs : List Nf) (w : World)
        → chain_of env others (w.dags d).nf_map (w.dags d).chains ≡ returns nfs
        → 0 < length nfs
        → length nfs ≤ ports_left wk w
        → pcie_at (w.workers wk) (w.sgroups p).pcie_idx ≡ returns dev
        → (w.sgroups p).instances ≡ []
        → IsDeployed base n wk p held w
        → Startup (length nfs) d w (create_sgroup env others fuel wk p d w)
    unfolding create_sgroup
    create_sgroup-Startup others fuel d dev nfs w c some_nf l e bare v = rw (c) (
        settle_deployed-Startup others fuel (length nfs) d w _ some_nf (
          subst
            (λ k.
              Deployment base n wk p held env (length nfs) k w
                (deploy_chain env others wk p nfs 0 (length nfs) w))
            (omega (arith, ap length bare))
            (deploy_chain-Deployment base n wk p held env del others nfs 0 (length nfs) dev w l e
              v)))
