-- ===== src/Controller/Groups/Rollback/Deployment.antt =====
-- controller/background.go: how the loop of createSGroup over the chain ends.
use low_latency_faa_s.Prelude.{
  ℕ, zero, suc, ◌+◌, ◌-◌, ◌≤◌, ◌<◌, ◌≡◌, refl, subst, ap, ◌∙◌, String, Bool, true, false, List, [],
  ◌∷◌, ◌++◌, Option, none, some, arith, ◌==◌, length,
}
use low_latency_faa_s.Prelude.Int.{ℤ}
use low_latency_faa_s.Utils.IndexPool.{size}
use low_latency_faa_s.Go.{Error, Run, returns, ◌>>=◌}
use low_latency_faa_s.Kubectl.Deploy.{create_tries}
use low_latency_faa_s.Controller.Dag.{Nf}
use low_latency_faa_s.Controller.State.{Worker, World, Env}
use low_latency_faa_s.Controller.Traffic.{append_instance}
use low_latency_faa_s.Controller.Groups.{pcie_at, destroy_sgroup}
use low_latency_faa_s.Controller.Groups.Startup.{deploy_chain}
use low_latency_faa_s.Controller.Groups.Ports.{
  ports_left, IsKept, IsCreated, Creation, failed, created, create_instance-Creation, update-same,
  pcie_at-pcie,
}
use low_latency_faa_s.Controller.Groups.Startup.Unset.{append_instance-length}
use low_latency_faa_s.Controller.Groups.Rollback.{
  ports_of, IsDeployed, IsUndone, append_instance-IsDeployed, destroy_sgroup-IsUndone,
}

abbrev ports_at : ℕ → (ℕ → Worker) → ℕ
ports_at wk f = size (f wk).instance_port_pool

-- The `n` deployments from the request `t` on are done.
abbrev pub AllDone : Env → ℕ → ℕ → Type 0
AllDone env t n = (j : ℕ) → j < n → create_tries none (env.attempts (t + j)) ≡ none

AllDone-cons :
    (env : Env) (t n : ℕ)
    → create_tries none (env.attempts t) ≡ none
    → AllDone env (suc t) n
    → AllDone env t (suc n)
AllDone-cons env t n h v zero l =
    subst (λ x. create_tries none (env.attempts x) ≡ none) (omega arith) h
AllDone-cons env t n h v (suc j) l =
    subst (λ x. create_tries none (env.attempts x) ≡ none) (omega arith) (v j (omega (arith, l)))

-- Of the `n` deployments from the request `t` on, the `turn`-th is the first that fails.
pub record FirstFails (env : Env) (t n : ℕ) : Type 0 where
  pub turn : ℕ
  pub within : turn < n
  pub before : AllDone env t turn
  pub error : Error
  pub fails : create_tries none (env.attempts (t + turn)) ≡ some error

FirstFails-here :
    (env : Env) (t n : ℕ) (e : Error)
    → create_tries none (env.attempts t) ≡ some e
    → FirstFails env t (suc n)
FirstFails-here env t n e h = record {
  turn = 0;
  within = omega arith;
  before = λ j l. absurd (omega (arith, l));
  error = e;
  fails = subst (λ x. create_tries none (env.attempts x) ≡ some e) (omega arith) h;
}

FirstFails-later :
    (env : Env) (t n : ℕ)
    → create_tries none (env.attempts t) ≡ none
    → FirstFails env (suc t) n
    → FirstFails env t (suc n)
FirstFails-later env t n h v = record {
  turn = suc v.turn;
  within = omega (arith, v.within);
  before = AllDone-cons env t v.turn h v.before;
  error = v.error;
  fails = subst (λ x. create_tries none (env.attempts x) ≡ some v.error) (omega arith) v.fails;
}

-- What the deployments leave alone.
pub record IsAround (wk : ℕ) (w₀ w : World) : Type 0 where
  pub frees : (w.workers wk).free_sgroups ≡ (w₀.workers wk).free_sgroups
  pub members : (w.workers wk).sgroups ≡ (w₀.workers wk).sgroups
  pub dags : w.dags ≡ w₀.dags

module _ (base : ℤ) (n wk p : ℕ) (held : List ℤ) where
  -- How the deployment of `k` more NFs ends: `target` is the number of instances that the group is to reach.
  pub data Deployment (env : Env) (k target : ℕ) (w₀ : World) : Run (Bool × World) → Type 0 where
    deployed :
        {w : World}
        → AllDone env w₀.tick k
        → IsDeployed base n wk p held w
        → length (w.sgroups p).instances ≡ target
        → IsAround wk w₀ w
        → Deployment env k target w₀ (returns (true, w))
    undone :
        {w : World}
        → FirstFails env w₀.tick k
        → IsUndone base n wk p held (w₀.workers wk).free_sgroups w
        → Deployment env k target w₀ (returns (false, w))

  -- A first deployment that is done, and the rest.
  Deployment-later :
      (env : Env) (k target : ℕ) (w w₁ : World) (r : Run (Bool × World))
      → create_tries none (env.attempts w.tick) ≡ none
      → w₁.tick ≡ suc w.tick
      → IsAround wk w w₁
      → Deployment env k target w₁ r
      → Deployment env (suc k) target w r
  Deployment-later env k target w w₁ _ h t a (deployed all v e b) =
      deployed (AllDone-cons env w.tick k h (subst (λ x. AllDone env x k) t all)) v e (record {
        frees = b.frees ∙ a.frees;
        members = b.members ∙ a.members;
        dags = b.dags ∙ a.dags;
      })
  Deployment-later env k target w w₁ _ h t a (undone {w = w'} f v) =
      undone (FirstFails-later env w.tick k h (subst (λ x. FirstFails env x k) t f))
        (subst (λ l. IsUndone base n wk p held l w') a.frees v)

  append_instance-workers : (i : ℕ) (w : World) → (append_instance p i w).workers ≡ w.workers
  unfolding append_instance
  append_instance-workers i w = refl

  next_pcie :
      (w w₁ : World) (i : ℕ) (d : String)
      → (w₁.workers wk).pcie ≡ (w.workers wk).pcie
      → w₁.sgroups ≡ w.sgroups
      → pcie_at (w.workers wk) (w.sgroups p).pcie_idx ≡ returns d
      → let w₂ = append_instance p i w₁ in
        pcie_at (w₂.workers wk) (w₂.sgroups p).pcie_idx ≡ returns d
  unfolding append_instance
  next_pcie w w₁ i d same same_sgroups e =
      rw (update-same w₁.sgroups p _, same_sgroups)
        (pcie_at-pcie (w₁.workers wk) (w.workers wk) (w.sgroups p).pcie_idx same ∙ e)

  kept-IsDeployed :
      (w w₁ : World)
      → IsDeployed base n wk p held w
      → IsKept base n wk (ports_of w.instances (w.sgroups p).instances ++ held) w w₁
      → w₁.next_instance ≡ w.next_instance
      → IsDeployed base n wk p held w₁
  kept-IsDeployed w w₁ v k next = record {
    shared = rw (k.instances, k.sgroups) k.shared;
    unset = record {
      old = rw (k.sgroups, next) v.unset.old;
      tids = rw (k.instances, k.sgroups) v.unset.tids;
    };
    home = ap (λ f. (f p).worker) k.sgroups ∙ v.home;
  }

  module _ (env : Env) (del : (k : ℕ) → env.delete k ≡ true) where
    -- One turn of the loop, by how createInstance ends.
    turn-Deployment :
        (k target : ℕ) (nfs : List String) (w : World) (go : ℕ → World → Run (Bool × World))
        (r : Run (Option ℕ × World))
        → Creation base n wk
            (ports_of w.instances (w.sgroups p).instances ++ held)
            nfs
            (create_tries none (env.attempts w.tick))
            w
            r
        → IsDeployed base n wk p held w
        → ((i : ℕ) (w₁ : World)
            → create_tries none (env.attempts w.tick) ≡ none
            → IsCreated base n wk (ports_of w.instances (w.sgroups p).instances ++ held) nfs i w w₁
            → Deployment env (suc k) target w (go i w₁))
        → Deployment env (suc k) target w (
            r >>= λ (r : Option ℕ × World). elim r.0 as (λ x. Run (Bool × World)) [
              | none ↦ returns (false, (destroy_sgroup env wk p r.1).1)
              | some ins ↦ go ins r.1
            ])
    turn-Deployment k target nfs w go r (failed {w' = w'} {e = e} down h) v ih =
        undone (FirstFails-here env w.tick k e down) (
          subst (λ l. IsUndone base n wk p held l (destroy_sgroup env wk p w').1) h.free_sgroups
            (destroy_sgroup-IsUndone base n wk p held env w' del (kept-IsDeployed w w' v h h.next)))
    turn-Deployment k target nfs w go r (created up c) v ih = ih _ _ up c

    appended-IsAround :
        (nfs : List String) (held' : List ℤ) (i : ℕ) (w w₁ : World)
        → IsCreated base n wk held' nfs i w w₁
        → IsAround wk w (append_instance p i w₁)
    unfolding append_instance
    appended-IsAround nfs held' i w w₁ c = record {
      frees = c.free_sgroups;
      members = c.members;
      dags = c.dags;
    }

    appended-tick :
        (nfs : List String) (held' : List ℤ) (i : ℕ) (w w₁ : World)
        → IsCreated base n wk held' nfs i w w₁
        → (append_instance p i w₁).tick ≡ suc w.tick
    unfolding append_instance
    appended-tick nfs held' i w w₁ c = c.ticks

    pub deploy_chain-Deployment :
        (others : ℕ → World → World) (nfs : List Nf) (i m : ℕ) (d : String) (w : World)
        → length nfs ≤ ports_left wk w
        → pcie_at (w.workers wk) (w.sgroups p).pcie_idx ≡ returns d
        → IsDeployed base n wk p held w
        → Deployment env
            (length nfs)
            (length (w.sgroups p).instances + length nfs)
            w
            (deploy_chain env others wk p nfs i m w)
    unfolding deploy_chain
    deploy_chain-Deployment others [] i m d w l e v =
        deployed (λ j h. absurd (omega (arith, h))) v (omega arith)
          (record { frees = refl; members = refl; dags = refl })
    deploy_chain-Deployment others (nf ∷ nfs) i m d w l e v =
        turn-Deployment (length nfs) _ (nf.func_type ∷ []) w
          (λ ins w₁. deploy_chain env others wk p nfs (i + 1) m (append_instance p ins w₁)) _
          (create_instance-Creation base n wk env _ (nf.func_type ∷ []) nf.cycles
            (w.sgroups p).pcie_idx false (i == 0) (i == m - 1) d w (omega (arith, l)) e v.shared)
          v
          (λ ins w₁ up c.
            let w₂ = append_instance p ins w₁ in
            Deployment-later env (length nfs) _ w w₂ _ up (appended-tick _ _ ins w w₁ c)
              (appended-IsAround _ _ ins w w₁ c)
              (subst
                (λ t.
                  Deployment env (length nfs) t w₂ (deploy_chain env others wk p nfs (i + 1) m w₂))
                (omega (
                  arith,
                  append_instance-length p ins w₁,
                  ap (λ f. length (f p).instances) c.sgroups,
                ))
                (deploy_chain-Deployment others nfs (i + 1) m d w₂
                  (omega (arith, ap (ports_at wk) (append_instance-workers ins w₁), c.left, l))
                  (next_pcie w w₁ ins d c.pcie c.sgroups e)
                  (append_instance-IsDeployed base n wk p held (nf.func_type ∷ []) ins w w₁ v c))))
