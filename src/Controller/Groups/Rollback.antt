-- ===== src/Controller/Groups/Rollback.antt =====
-- controller/background.go and controller/worker.go: the ports of a group that a chain is deployed on, and of one that
-- is taken back.
pub mod Deployment
pub mod Outcome
use low_latency_faa_s.Prelude.{
  ℕ, suc, ◌+◌, ◌-◌, ◌≤◌, ◌<◌, ◌≡◌, refl, subst, ap, inl, inr, Bool-cases, ◌∙◌, String, Bool, true,
  false, List, [], ◌∷◌, ◌++◌, map, Option, none, some, arith, ◌==◌, length, length-append,
}
use low_latency_faa_s.Prelude.Int.{ℤ, pos, negsuc}
use low_latency_faa_s.Prelude.Count.{count, count-snoc, count-first, count-later}
use low_latency_faa_s.Utils.MinHeap.Count.{count as ℤ_count, tally}
use low_latency_faa_s.Utils.IndexPool.History.{IsShared}
use low_latency_faa_s.Utils.IndexPool.{IndexPool, size}
use low_latency_faa_s.Go.{Run, returns, ◌>>=◌}
use low_latency_faa_s.Controller.Dag.{Nf}
use low_latency_faa_s.Controller.State.{put_sgroup, Instance, Worker, World, Env}
use low_latency_faa_s.Controller.Traffic.{append_instance}
use low_latency_faa_s.Controller.Groups.{
  pcie_at, add_free, tick, free_port, destroy_instance, destroy_instances, reset, destroy_sgroup,
}
use low_latency_faa_s.Controller.Groups.Startup.{
  deploy_chain, chain_of, complete, settle_deployed, create_sgroup,
}
use low_latency_faa_s.Controller.Groups.Ready.{all_up, preprocess_before_ready}
use low_latency_faa_s.Controller.Groups.Ready.Calls.{part-update}
use low_latency_faa_s.Controller.Groups.Startup.Unset.{IsBorn, AreUnset, append_instance-AreUnset}
use low_latency_faa_s.Controller.Groups.Ports.{
  ArePortsShared, ports_left, IsKept, IsCreated, Creation, failed, created,
  create_instance-Creation, give_back, free_port-IsFreed, update-same,
}

abbrev pub ports_of : (ℕ → Instance) → List ℕ → List ℤ
ports_of ins is = map (λ i. (ins i).port) is

abbrev pub nf_types : (ℕ → Instance) → List ℕ → List String
nf_types ins is = map (λ i. (ins i).func_type) is

-- Only how often a port is held matters.
pub same_held :
    (base : ℤ) (n : ℕ) (pool : IndexPool) (held held' : List ℤ)
    → ((x : ℤ) → ℤ_count x held' ≡ ℤ_count x held)
    → IsShared base n (record { pool = pool; held = held })
    → IsShared base n (record { pool = pool; held = held' })
same_held base n pool held held' e v = record {
  valid = v.valid;
  shared = λ x. omega (arith, e x, v.shared x);
}

module _ (base : ℤ) (n wk p : ℕ) (held : List ℤ) where
  -- The group `p` of the worker holds the ports of its instances, and others hold `held`; no instance of it has told
  -- its thread's ID.
  pub record IsDeployed (w : World) : Type 0 where
    pub shared : ArePortsShared base n wk (ports_of w.instances (w.sgroups p).instances ++ held) w
    pub unset : AreUnset p w
    pub home : (w.sgroups p).worker ≡ wk

  -- The group has no instances and no DAG, is the last of the free groups, and nothing but `held` is held.
  pub record IsUndone (frees : List ℕ) (w : World) : Type 0 where
    pub shared : ArePortsShared base n wk held w
    pub emptied : (w.sgroups p).instances ≡ []
    pub no_dag : (w.sgroups p).dag ≡ none
    pub free : (w.workers wk).free_sgroups ≡ frees ++ p ∷ []

  destroy_instances-ArePortsShared :
      (env : Env) (is : List ℕ) (w : World)
      → ((k : ℕ) → env.delete k ≡ true)
      → ArePortsShared base n wk (ports_of w.instances is ++ held) w
      → ArePortsShared base n wk held (destroy_instances env wk is w)
        × ((destroy_instances env wk is w).workers wk).free_sgroups ≡ (w.workers wk).free_sgroups
  unfolding destroy_instances destroy_instance
  destroy_instances-ArePortsShared env [] w d v = (v, refl)
  destroy_instances-ArePortsShared env (i ∷ is) w d v =
      let w₁ = free_port wk (w.instances i).port (tick w) in
      let f = free_port-IsFreed wk (w.instances i).port (tick w) in
      let v₁ =
        give_back base n wk (w.instances i).port (ports_of w.instances is ++ held) (tick w) v in
      let (r, e) = destroy_instances-ArePortsShared env is w₁ d (rw (f.instances) v₁) in
      rw (d w.tick, destroy_instances, destroy_instance) (r, e ∙ f.free_sgroups)

  -- The end of a reset, from the world that the loop over the instances leaves.
  emptied-IsUndone :
      (env : Env) (frees : List ℕ) (w : World)
      → ArePortsShared base n wk held w
      → (w.workers wk).free_sgroups ≡ frees
      → IsUndone frees (
          add_free env wk p
            (put_sgroup p (record (w.sgroups p) { instances = []; tids = []; dag = none }) w))
  emptied-IsUndone env frees w v e = record {
    shared = rw (update-same w.workers wk _) v;
    emptied = rw (update-same w.sgroups p _) refl;
    no_dag = rw (update-same w.sgroups p _) refl;
    free = rw (update-same w.workers wk _) (ap (λ l. l ++ p ∷ []) e);
  }

  pub destroy_sgroup-IsUndone :
      (env : Env) (w : World)
      → ((k : ℕ) → env.delete k ≡ true)
      → IsDeployed w
      → IsUndone (w.workers wk).free_sgroups (destroy_sgroup env wk p w).1
  unfolding destroy_sgroup reset
  destroy_sgroup-IsUndone env w d v =
      let (r, e) = destroy_instances-ArePortsShared env (w.sgroups p).instances w d v.shared in
      rw (v.home) (emptied-IsUndone env _ (destroy_instances env wk (w.sgroups p).instances w) r e)

  ports_of-append :
      (f g : ℕ → Instance) (is : List ℕ) (i b : ℕ) (port : ℤ)
      → ((j : ℕ) → 0 < count j is → j < b)
      → ((j : ℕ) → j < b → (g j).port ≡ (f j).port)
      → (g i).port ≡ port
      → (x : ℤ)
      → ℤ_count x (ports_of g (is ++ i ∷ []) ++ held)
        ≡ tally port x + ℤ_count x (ports_of f is ++ held)
  unfolding count ℤ_count
  ports_of-append f g [] i b port h e q x = ap (λ y. tally y x + ℤ_count x held) q
  ports_of-append f g (j ∷ is) i b port h e q x =
      rw (e j (h j (count-first j is)))
        (omega (arith, ports_of-append f g is i b port (λ k l. h k (count-later j k is l)) e q x))

  pub append_instance-IsDeployed :
      (nfs : List String) (i : ℕ) (w w₁ : World)
      → IsDeployed w
      → IsCreated base n wk (ports_of w.instances (w.sgroups p).instances ++ held) nfs i w w₁
      → IsDeployed (append_instance p i w₁)
  unfolding append_instance ℤ_count
  append_instance-IsDeployed nfs i w w₁ v c = record {
    shared =
        let is = (w.sgroups p).instances in
        rw (update-same w₁.sgroups p _, c.sgroups)
          (same_held base n _ ((w₁.instances i).port ∷ (ports_of w.instances is ++ held)) _
            (ports_of-append w.instances (append_instance p i w₁).instances is i i
              (w₁.instances i).port (λ j l. omega (arith, v.unset.old j l, c.fresh))
              (λ j l. ground (arith, ap (λ a. a.port) (c.others j l)))
              (rw (update-same w₁.instances i _) refl))
            c.shared);
    unset =
        append_instance-AreUnset p i w w₁ c.sgroups
          (record { fresh = c.fresh; next = c.next; others = c.others; unset = c.unset }) v.unset;
    home = rw (update-same w₁.sgroups p _) (ap (λ f. (f p).worker) c.sgroups ∙ v.home);
  }
