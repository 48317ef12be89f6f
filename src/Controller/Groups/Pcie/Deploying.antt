-- ===== src/Controller/Groups/Pcie/Deploying.antt =====
-- controller/background.go: what the deployment of a chain leaves of the groups of a worker and their PCIe indices.
use low_latency_faa_s.Prelude.{
  ℕ, ◌+◌, ◌-◌, ◌≡◌, refl, subst, ap, ◌∙◌, inl, inr, String, Bool, true, false, List, [], ◌∷◌, ◌++◌,
  Option, none, some, arith, ◌==◌, length, Option-cases,
}
use low_latency_faa_s.Prelude.Int.{ℤ}
use low_latency_faa_s.Go.{Run, returns, ◌>>=◌}
use low_latency_faa_s.Kubectl.Deploy.{create_tries}
use low_latency_faa_s.Controller.Dag.{Nf}
use low_latency_faa_s.Controller.State.{World, Env, put_instance}
use low_latency_faa_s.Controller.Traffic.{append_instance}
use low_latency_faa_s.Controller.Groups.{
  pcie_at, tick, take_port, create_instance, add_free, destroy_sgroup,
}
use low_latency_faa_s.Controller.Groups.Ports.{
  pcie_at-pcie, take_port-IsTaken, add_new_instance-IsAdded,
}
use low_latency_faa_s.Controller.Groups.Startup.{deploy_chain}
use low_latency_faa_s.Controller.Groups.Startup.Unset.{
  IsBorn, AreUnset, append_instance-AreUnset, append_instance-length,
}
use low_latency_faa_s.Controller.Groups.Pcie.{
  IsQuiet, IsQuiet-refl, IsQuiet-trans, put_sgroup-IsQuiet, reset-IsQuiet,
}
use low_latency_faa_s.Controller.Groups.Pcie.Steady.{
  IsSteady, IsSteady-trans, take_port-IsSteady, free_port-IsSteady, add_new_instance-IsSteady,
}

steady-IsQuiet : (wk : ℕ) (w w' : World) → IsSteady wk w w' → IsQuiet wk w w'
steady-IsQuiet wk w w' s = record {
  pool = s.pool;
  idx = λ q. ap (λ f. (f q).pcie_idx) s.sgroups;
  frees = s.frees;
  members = s.members;
  pcie = s.pcie;
  next = s.next;
}

-- How createInstance ends.
data Attempt (wk : ℕ) (w : World) : Run (Option ℕ × World) → Type 0 where
  refused : {u : World} → IsSteady wk w u → Attempt wk w (returns (none, u))
  born : {i : ℕ} {u : World} → IsSteady wk w u → IsBorn i w u → Attempt wk w (returns (some i, u))

create_instance-Attempt :
    (env : Env) (wk : ℕ) (ts : List String) (cost : ℕ) (idx : ℤ) (prim ing eg : Bool) (d : String)
    (w : World)
    → pcie_at (w.workers wk) idx ≡ returns d
    → Attempt wk w (create_instance env wk ts cost idx prim ing eg w)
unfolding create_instance
create_instance-Attempt env wk ts cost idx prim ing eg d w e =
    let w₁ = tick (take_port wk w).1 in
    let port = (take_port wk w).0 in
    elim (Option-cases (create_tries none (env.attempts w.tick))) [
      | inl up ↦
          let a = add_new_instance-IsAdded wk ts cost port prim ing eg w₁ in
          let t = take_port-IsTaken wk w in
          rw (e, up)
            (born
              (IsSteady-trans wk w w₁ _ (take_port-IsSteady wk w)
                (add_new_instance-IsSteady wk ts cost port prim ing eg w₁))
              (record {
                fresh = a.fresh ∙ t.next;
                next = a.next;
                others = λ j l. a.others j l ∙ ap (λ f. f j) t.instances;
                unset = a.unset;
              }))
      | inr (err, down) ↦
          rw (e, down)
            (refused
              (IsSteady-trans wk w w₁ _ (take_port-IsSteady wk w) (free_port-IsSteady wk port w₁)))
    ]

module _ (env : Env) (others : ℕ → World → World) (wk p : ℕ) where
  -- How the deployment of a chain ends: with `k` instances, or with the group back among the free ones.
  pub data Deploying (k : ℕ) (w : World) : Run (Bool × World) → Type 0 where
    through :
        {u : World}
        → IsQuiet wk w u
        → AreUnset p u
        → length (u.sgroups p).instances ≡ k
        → Deploying k w (returns (true, u))
    back : {u : World} → IsQuiet wk w u → Deploying k w (returns (false, add_free env wk p u))

  quiet-Deploying :
      (k : ℕ) (w u : World) (r : Run (Bool × World))
      → IsQuiet wk w u
      → Deploying k u r
      → Deploying k w r
  quiet-Deploying k w u _ q (through b a l) = through (IsQuiet-trans wk w u _ q b) a l
  quiet-Deploying k w u _ q (back b) = back (IsQuiet-trans wk w u _ q b)

  append_instance-IsQuiet : (i : ℕ) (w : World) → IsQuiet wk w (append_instance p i w)
  unfolding append_instance
  append_instance-IsQuiet i w =
      let w₁ = put_instance i (record (w.instances i) { sg = some p }) w in
      let q =
        put_sgroup-IsQuiet wk p
          (record (w.sgroups p) { instances = (w.sgroups p).instances ++ i ∷ [] }) w₁ refl in
      record {
        pool = q.pool;
        idx = q.idx;
        frees = q.frees;
        members = q.members;
        pcie = q.pcie;
        next = q.next;
      }

  turn-Deploying :
      (k : ℕ) (w : World) (go : ℕ → World → Run (Bool × World)) (r : Run (Option ℕ × World))
      → Attempt wk w r
      → ((i : ℕ) (u : World) → IsSteady wk w u → IsBorn i w u → Deploying k w (go i u))
      → Deploying k w (
          r >>= λ (r : Option ℕ × World). elim r.0 as (λ x. Run (Bool × World)) [
            | none ↦ returns (false, (destroy_sgroup env wk p r.1).1)
            | some ins ↦ go ins r.1
          ])
  unfolding destroy_sgroup
  turn-Deploying k w go _ (refused {u = u} s) go_on =
      back (IsQuiet-trans wk w u _ (steady-IsQuiet wk w u s) (reset-IsQuiet env wk p u))
  turn-Deploying k w go _ (born {i = i} {u = u} s b) go_on = go_on i u s b

  next_device :
      (w u : World) (d : String)
      → IsQuiet wk w u
      → pcie_at (w.workers wk) (w.sgroups p).pcie_idx ≡ returns d
      → pcie_at (u.workers wk) (u.sgroups p).pcie_idx ≡ returns d
  next_device w u d q e =
      rw (q.idx p) (pcie_at-pcie (u.workers wk) (w.workers wk) (w.sgroups p).pcie_idx q.pcie ∙ e)

  pub deploy_chain-Deploying :
      (nfs : List Nf) (i m : ℕ) (d : String) (w : World)
      → pcie_at (w.workers wk) (w.sgroups p).pcie_idx ≡ returns d
      → AreUnset p w
      → Deploying
          (length (w.sgroups p).instances + length nfs)
          w
          (deploy_chain env others wk p nfs i m w)
  unfolding deploy_chain
  deploy_chain-Deploying [] i m d w e v = through (IsQuiet-refl wk w) v (omega arith)
  deploy_chain-Deploying (nf ∷ nfs) i m d w e v =
      turn-Deploying (length (w.sgroups p).instances + length (nf ∷ nfs)) w
        (λ ins w₁. deploy_chain env others wk p nfs (i + 1) m (append_instance p ins w₁)) _
        (create_instance-Attempt env wk (nf.func_type ∷ []) nf.cycles (w.sgroups p).pcie_idx false
          (i == 0) (i == m - 1) d w e)
        (λ ins u s b.
          let u₁ = append_instance p ins u in
          let q =
            IsQuiet-trans wk w u u₁ (steady-IsQuiet wk w u s) (append_instance-IsQuiet ins u) in
          quiet-Deploying _ w u₁ _ q (
            subst (λ k. Deploying k u₁ (deploy_chain env others wk p nfs (i + 1) m u₁))
              (omega
                (arith, append_instance-length p ins u, ap (λ f. length (f p).instances) s.sgroups))
              (deploy_chain-Deploying nfs (i + 1) m d u₁ (next_device w u₁ d q e)
                (append_instance-AreUnset p ins w u s.sgroups b v))))
