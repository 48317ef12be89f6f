-- ===== src/Controller/Groups/Pcie/Steady.antt =====
-- controller/worker.go: createInstance leaves the groups of a worker and their PCIe indices alone, and
-- the other workers.
use low_latency_faa_s.Prelude.{
  ℕ, ◌≡◌, refl, ◌∙◌, inl, inr, String, Bool, true, false, List, Option, none, some, ◌==◌,
  Option-cases,
}
use low_latency_faa_s.Prelude.Int.{ℤ}
use low_latency_faa_s.Go.{returns}
use low_latency_faa_s.Kubectl.Deploy.{create_tries}
use low_latency_faa_s.Controller.State.{Worker, World, Env, put_worker}
use low_latency_faa_s.Controller.Groups.{
  pcie_at, tick, take_port, free_port, add_new_instance, create_instance,
}
use low_latency_faa_s.Controller.Groups.Ports.{update-same}

pub record IsSteady (wk : ℕ) (w w' : World) : Type 0 where
  pub pool : (w'.workers wk).pcie_pool ≡ (w.workers wk).pcie_pool
  pub sgroups : w'.sgroups ≡ w.sgroups
  pub next : w'.next_sgroup ≡ w.next_sgroup
  pub frees : (w'.workers wk).free_sgroups ≡ (w.workers wk).free_sgroups
  pub members : (w'.workers wk).sgroups ≡ (w.workers wk).sgroups
  pub pcie : (w'.workers wk).pcie ≡ (w.workers wk).pcie
  pub others : (b : ℕ) → (wk == b) ≡ false → w'.workers b ≡ w.workers b

pub IsSteady-trans : (wk : ℕ) (u v w : World) → IsSteady wk u v → IsSteady wk v w → IsSteady wk u w
IsSteady-trans wk u v w a b = record {
  pool = b.pool ∙ a.pool;
  sgroups = b.sgroups ∙ a.sgroups;
  next = b.next ∙ a.next;
  frees = b.frees ∙ a.frees;
  members = b.members ∙ a.members;
  pcie = b.pcie ∙ a.pcie;
  others = λ c h. b.others c h ∙ a.others c h;
}

-- A write to the worker of other fields.
pub put_worker-IsSteady :
    (wk : ℕ) (a : Worker) (w : World)
    → a.pcie_pool ≡ (w.workers wk).pcie_pool
    → a.free_sgroups ≡ (w.workers wk).free_sgroups
    → a.sgroups ≡ (w.workers wk).sgroups
    → a.pcie ≡ (w.workers wk).pcie
    → IsSteady wk w (put_worker wk a w)
put_worker-IsSteady wk a w p f m d = record {
  pool = rw (update-same w.workers wk a) p;
  sgroups = refl;
  next = refl;
  frees = rw (update-same w.workers wk a) f;
  members = rw (update-same w.workers wk a) m;
  pcie = rw (update-same w.workers wk a) d;
  others = λ b h. rw h refl;
}

pub take_port-IsSteady : (wk : ℕ) (w : World) → IsSteady wk w (tick (take_port wk w).1)
unfolding take_port
take_port-IsSteady wk w =
    let s = put_worker-IsSteady wk _ w refl refl refl refl in
    record {
      pool = s.pool;
      sgroups = s.sgroups;
      next = s.next;
      frees = s.frees;
      members = s.members;
      pcie = s.pcie;
      others = s.others;
    }

pub free_port-IsSteady : (wk : ℕ) (port : ℤ) (w : World) → IsSteady wk w (free_port wk port w)
unfolding free_port
free_port-IsSteady wk port w = put_worker-IsSteady wk _ w refl refl refl refl

pub add_new_instance-IsSteady :
    (wk : ℕ) (ts : List String) (cost : ℕ) (port : ℤ) (prim ing eg : Bool) (w : World)
    → IsSteady wk w (add_new_instance wk ts cost port prim ing eg w).1
unfolding add_new_instance
add_new_instance-IsSteady wk ts cost port true ing eg w = record {
  pool = refl;
  sgroups = refl;
  next = refl;
  frees = refl;
  members = refl;
  pcie = refl;
  others = λ b h. refl;
}
add_new_instance-IsSteady wk ts cost port false ing eg w = record {
  pool = rw (update-same w.workers wk _) refl;
  sgroups = refl;
  next = refl;
  frees = rw (update-same w.workers wk _) refl;
  members = rw (update-same w.workers wk _) refl;
  pcie = rw (update-same w.workers wk _) refl;
  others = λ b h. rw h refl;
}

-- With the device of its index at hand, createInstance comes back and leaves them alone.
pub create_instance-IsSteady :
    (env : Env) (wk : ℕ) (ts : List String) (cost : ℕ) (idx : ℤ) (prim ing eg : Bool) (d : String)
    (w : World)
    → pcie_at (w.workers wk) idx ≡ returns d
    → (r : Option ℕ × World) × (create_instance env wk ts cost idx prim ing eg w ≡ returns r)
      × IsSteady wk w r.1
unfolding create_instance
create_instance-IsSteady env wk ts cost idx prim ing eg d w e =
    let w₁ = tick (take_port wk w).1 in
    let port = (take_port wk w).0 in
    elim (Option-cases (create_tries none (env.attempts w.tick))) [
      | inl up ↦ (
        (
          some (add_new_instance wk ts cost port prim ing eg w₁).0,
          (add_new_instance wk ts cost port prim ing eg w₁).1,
        ),
        rw (e, up) refl,
        IsSteady-trans wk w w₁ _ (take_port-IsSteady wk w)
            (add_new_instance-IsSteady wk ts cost port prim ing eg w₁),
      )
      | inr (err, down) ↦ (
        (none, free_port wk port w₁),
        rw (e, down) refl,
        IsSteady-trans wk w w₁ _ (take_port-IsSteady wk w) (free_port-IsSteady wk port w₁),
      )
    ]
