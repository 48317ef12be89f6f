-- ===== src/Controller/Lifecycle/Retry.antt =====
-- controller/controller.go: the loop of ActivateDAG over the free groups of a worker, where no deployment succeeds.
use low_latency_faa_s.Prelude.{
  ℕ, zero, suc, ◌-◌, ◌<◌, ◌≡◌, refl, ap, ◌∙◌, String, Bool, true, false, List, [], ◌∷◌, ◌++◌, none,
  some, arith, leb, ◌==◌, length, length-append, get_elem?, take,
}
use low_latency_faa_s.Prelude.Int.{ℤ}
use low_latency_faa_s.Go.{Error, returns, hangs, ◌>>=◌}
use low_latency_faa_s.Kubectl.Deploy.{create_tries}
use low_latency_faa_s.Controller.Dag.{Nf}
use low_latency_faa_s.Controller.State.{SGroup, World, Env, put_worker, put_sgroup, update}
use low_latency_faa_s.Controller.Traffic.{count_ready, count_pending_sgroups}
use low_latency_faa_s.Controller.LoadBalance.{get_free_sgroup}
use low_latency_faa_s.Controller.Groups.{
  pcie_at, tick, take_port, free_port, add_free, create_instance, destroy_instances, reset,
  destroy_sgroup,
}
use low_latency_faa_s.Controller.Groups.Ports.{update-same, pcie_at-pcie}
use low_latency_faa_s.Controller.Groups.Pcie.Steady.{
  IsSteady, IsSteady-trans, take_port-IsSteady, free_port-IsSteady,
}
use low_latency_faa_s.Controller.Groups.Ready.Calls.{part-update}
use low_latency_faa_s.Controller.Groups.Startup.{
  deploy_chain, chain_of, settle_deployed, create_sgroup,
}
use low_latency_faa_s.Controller.Lifecycle.{wait_pending, start_groups}

get_elem?-last : (rest : List ℕ) (p : ℕ) → get_elem? (rest ++ p ∷ []) (length rest) ≡ some p
get_elem?-last [] p = refl
get_elem?-last (q ∷ rest) p = get_elem?-last rest p

take-last : (rest : List ℕ) (p : ℕ) → take (length rest) (rest ++ p ∷ []) ≡ rest
take-last [] p = refl
take-last (q ∷ rest) p = ap (λ l. q ∷ l) (take-last rest p)

get_free_sgroup-last :
    (wk p : ℕ) (rest : List ℕ) (w : World)
    → (w.workers wk).free_sgroups ≡ rest ++ p ∷ []
    → get_free_sgroup wk w
      ≡ (some p, put_worker wk (record (w.workers wk) { free_sgroups = rest }) w)
unfolding get_free_sgroup
get_free_sgroup-last wk p rest w e =
    let n : length (rest ++ p ∷ []) - 1 ≡ length rest =
      omega (arith, length-append rest (p ∷ [])) in
    rw (e, n, get_elem?-last rest p, get_free_sgroup) (rw (e, n, take-last rest p) refl)

count_ready-same :
    (f g : ℕ → SGroup) (ps : List ℕ)
    → ((q : ℕ) → (g q).is_ready ≡ (f q).is_ready)
    → count_ready g ps ≡ count_ready f ps
unfolding count_ready
count_ready-same f g [] e = refl
count_ready-same f g (p ∷ ps) e = rw (e p, count_ready-same f g ps e) refl

module _ (env : Env) (others : ℕ → World → World) (wk d p : ℕ) (rest : List ℕ) (dev : String)
    (nf : Nf) (nfs : List Nf) where
  -- The group `p` is the last free one of the worker, and can be deployed on.
  pub record IsFree (w : World) : Type 0 where
    pub frees : (w.workers wk).free_sgroups ≡ rest ++ p ∷ []
    pub bare : (w.sgroups p).instances ≡ []
    pub home : (w.sgroups p).worker ≡ wk
    pub device : pcie_at (w.workers wk) (w.sgroups p).pcie_idx ≡ returns dev
    pub chain : chain_of env others (w.dags d).nf_map (w.dags d).chains ≡ returns (nf ∷ nfs)
    pub few : count_pending_sgroups wk w < 20

  -- The world when the group is taken, and after createInstance has failed.
  abbrev taken : World → World
  taken w = put_worker wk (record (w.workers wk) { free_sgroups = rest }) w

  abbrev undeployed : World → World
  undeployed w = free_port wk (take_port wk w).0 (tick (take_port wk w).1)

  module _ (fails : (k : ℕ) → (e : Error) × (create_tries none (env.attempts k) ≡ some e)) where
    create_instance-fails :
        (ts : List String) (cost : ℕ) (idx : ℤ) (prim ing eg : Bool) (w : World)
        → pcie_at (w.workers wk) idx ≡ returns dev
        → create_instance env wk ts cost idx prim ing eg w ≡ returns (none, undeployed w)
    unfolding create_instance
    create_instance-fails ts cost idx prim ing eg w e =
        let (err, f) = fails w.tick in rw (e, f) refl

    create_sgroup-fails :
        (fuel : ℕ) (w : World)
        → pcie_at (w.workers wk) (w.sgroups p).pcie_idx ≡ returns dev
        → chain_of env others (w.dags d).nf_map (w.dags d).chains ≡ returns (nf ∷ nfs)
        → create_sgroup env others fuel wk p d w
          ≡ returns (destroy_sgroup env wk p (undeployed w)).1
    unfolding create_sgroup deploy_chain settle_deployed
    create_sgroup-fails fuel w e c =
        rw
          (
            c,
            create_instance-fails (nf.func_type ∷ []) nf.cycles (w.sgroups p).pcie_idx false true
                (0 == length (nf ∷ nfs) - 1) w e,
          )
          refl

    -- The end of destroySGroup, from a world that leaves what the loop reads.
    reset-IsFree :
        (w u : World)
        → IsFree w
        → IsSteady wk (taken w) u
        → u.dags ≡ w.dags
        → IsFree (
            add_free env wk p
              (put_sgroup p (record (u.sgroups p) { instances = []; tids = []; dag = none }) u))
    reset-IsFree w u v s e =
        let sg = record (u.sgroups p) { instances = []; tids = []; dag = none } in
        let same : (q : ℕ) → (update u.sgroups p sg q).is_ready ≡ (w.sgroups q).is_ready = λ q.
          part-update (λ s. s.is_ready) u.sgroups p sg refl q
          ∙ ap (λ f. (f q).is_ready) s.sgroups in
        let a = record (u.workers wk) { free_sgroups = (u.workers wk).free_sgroups ++ p ∷ [] } in
        let at : (taken w).workers wk ≡ record (w.workers wk) { free_sgroups = rest } =
          update-same w.workers wk _ in
        record {
          frees =
              rw (update-same u.workers wk _)
                (ap (λ l. l ++ p ∷ []) (s.frees ∙ ap (λ a. a.free_sgroups) at));
          bare = rw (update-same u.sgroups p sg) refl;
          home = rw (update-same u.sgroups p sg) (ap (λ f. (f p).worker) s.sgroups ∙ v.home);
          device =
              rw (update-same u.sgroups p sg, update-same u.workers wk a, s.sgroups)
                (pcie_at-pcie a (w.workers wk) (w.sgroups p).pcie_idx (s.pcie ∙ ap (λ a. a.pcie) at)
                  ∙ v.device);
          chain = rw e v.chain;
          few =
              rw (update-same u.workers wk _, s.members ∙ ap (λ a. a.sgroups) at)
                (omega (
                  arith,
                  v.few,
                  count_ready-same w.sgroups (update u.sgroups p sg) (w.workers wk).sgroups same,
                ));
        }

    undeployed-IsSteady : (w : World) → IsSteady wk w (undeployed w)
    undeployed-IsSteady w =
        IsSteady-trans wk w _ _ (take_port-IsSteady wk w)
          (free_port-IsSteady wk (take_port wk w).0 (tick (take_port wk w).1))

    destroy_sgroup-IsFree :
        (w : World) → IsFree w → IsFree (destroy_sgroup env wk p (undeployed (taken w))).1
    unfolding destroy_sgroup reset destroy_instances take_port free_port
    destroy_sgroup-IsFree w v =
        rw (v.bare) (reset-IsFree w (undeployed (taken w)) v (undeployed-IsSteady (taken w)) refl)

    -- Where no deployment succeeds, and the last free group of a worker can be deployed on, for a DAG with a chain,
    -- while fewer than 20 groups of the worker are ready: the loop of ActivateDAG takes the group, fails, gets it back
    -- and takes it again, and so does not come back, whatever the fuel.
    pub start_groups_hangs :
        (fuel : ℕ) (w : World) → IsFree w → start_groups env others fuel wk d w ≡ hangs
    unfolding start_groups wait_pending
    start_groups_hangs zero w v = refl
    start_groups_hangs (suc zero) w v =
        rw (get_free_sgroup-last wk p rest w v.frees, start_groups) refl
    start_groups_hangs (suc (suc fuel)) w v =
        let few : leb 20 (count_pending_sgroups wk (taken w)) ≡ false =
          ground (
            arith,
            v.few,
            ap (λ a. count_ready w.sgroups a.sgroups) (update-same w.workers wk _),
          ) in
        rw (get_free_sgroup-last wk p rest w v.frees, start_groups)
          (rw (get_free_sgroup-last wk p rest w v.frees, few, v.home)
            (ap (λ r. r >>= λ (u : World). start_groups env others (suc fuel) wk d u)
                (create_sgroup-fails (suc fuel) (taken w)
                  (rw (update-same w.workers wk _) (
                    pcie_at-pcie (record (w.workers wk) { free_sgroups = rest }) (w.workers wk)
                      (w.sgroups p).pcie_idx refl
                    ∙ v.device))
                  v.chain)
              ∙ start_groups_hangs (suc fuel) _ (destroy_sgroup-IsFree w v)))
