-- ===== src/Controller/Groups/Pcie.antt =====
-- controller/background.go and controller/worker.go: the PCIe indices of groups, and what leaves them
-- alone.
pub mod Release
pub mod Stock
pub mod Made
pub mod Deploying
pub mod Deployed
pub mod Factory
pub mod Steady
use low_latency_faa_s.Prelude.{
  ℕ, zero, suc, ◌+◌, ◌≡◌, refl, sym, subst, ap, ◌∙◌, inl, inr, String, Bool, true, false, List, [],
  ◌∷◌, ◌++◌, map, Option, none, some, arith, ◌==◌, if◌then◌else◌, Bool-cases, Option-cases,
}
use low_latency_faa_s.Prelude.Int.{ℤ}
use low_latency_faa_s.Utils.MinHeap.Count.{count, count-append}
use low_latency_faa_s.Utils.IndexPool.{free}
use low_latency_faa_s.Utils.IndexPool.History.{Client, give, IsShared, Step-IsShared}
use low_latency_faa_s.Controller.State.{SGroup, Worker, World, Env, put_worker, put_sgroup, update}
use low_latency_faa_s.Controller.Groups.{
  tick, free_port, free_pcie, add_free, destroy_instance, destroy_instances, reset,
  destroy_free_sgroup, destroy_sgroups, destroy_all_sgroups, destroy_free_sgroups,
  destroy_all_free_sgroups,
}
use low_latency_faa_s.Controller.Groups.Ports.{update-same}
use low_latency_faa_s.Controller.Groups.Rollback.{same_held}

abbrev pub indices : (ℕ → SGroup) → List ℕ → List ℤ
indices sgs ps = map (λ p. (sgs p).pcie_idx) ps

pub count-indices :
    (f : ℕ → SGroup) (x : ℤ) (ps qs : List ℕ)
    → count x (indices f (ps ++ qs)) ≡ count x (indices f ps) + count x (indices f qs)
unfolding count
count-indices f x [] qs = omega arith
count-indices f x (p ∷ ps) qs = omega (arith, count-indices f x ps qs)

pub indices-same :
    (f g : ℕ → SGroup) (ps : List ℕ)
    → ((p : ℕ) → (g p).pcie_idx ≡ (f p).pcie_idx)
    → indices g ps ≡ indices f ps
indices-same f g [] e = refl
indices-same f g (p ∷ ps) e = rw (e p, indices-same f g ps e) refl

-- Each index of [base, base + n) is in the pool of the worker, or stands once in `held`.
abbrev pub ArePcieShared : ℤ → ℕ → ℕ → List ℤ → World → Type 0
ArePcieShared base n wk held w =
    IsShared base n (record { pool = (w.workers wk).pcie_pool; held = held })

-- What leaves the indices of groups, their managers, and the pool of the worker alone.
pub record IsQuiet (wk : ℕ) (w w' : World) : Type 0 where
  pub pool : (w'.workers wk).pcie_pool ≡ (w.workers wk).pcie_pool
  pub idx : (p : ℕ) → (w'.sgroups p).pcie_idx ≡ (w.sgroups p).pcie_idx
  pub frees : (w'.workers wk).free_sgroups ≡ (w.workers wk).free_sgroups
  pub members : (w'.workers wk).sgroups ≡ (w.workers wk).sgroups
  pub pcie : (w'.workers wk).pcie ≡ (w.workers wk).pcie
  pub next : w'.next_sgroup ≡ w.next_sgroup

pub IsQuiet-refl : (wk : ℕ) (w : World) → IsQuiet wk w w
IsQuiet-refl wk w = record {
  pool = refl;
  idx = λ p. refl;
  frees = refl;
  members = refl;
  pcie = refl;
  next = refl;
}

pub IsQuiet-trans : (wk : ℕ) (u v w : World) → IsQuiet wk u v → IsQuiet wk v w → IsQuiet wk u w
IsQuiet-trans wk u v w a b = record {
  pool = b.pool ∙ a.pool;
  idx = λ p. b.idx p ∙ a.idx p;
  frees = b.frees ∙ a.frees;
  members = b.members ∙ a.members;
  pcie = b.pcie ∙ a.pcie;
  next = b.next ∙ a.next;
}

free_port-IsQuiet : (wk b : ℕ) (port : ℤ) (w : World) → IsQuiet wk w (free_port b port (tick w))
unfolding free_port
free_port-IsQuiet wk b port w = elim (Bool-cases (b == wk)) [
  | inl same ↦
      let e : b ≡ wk = ground (arith, same) in
      record {
        pool = rw (same, e) refl;
        idx = λ p. refl;
        frees = rw (same, e) refl;
        members = rw (same, e) refl;
        pcie = rw (same, e) refl;
        next = refl;
      }
  | inr other ↦ record {
    pool = rw other refl;
    idx = λ p. refl;
    frees = rw other refl;
    members = rw other refl;
    pcie = rw other refl;
    next = refl;
  }
]

pub destroy_instance-IsQuiet :
    (env : Env) (wk b : ℕ) (i : Option ℕ) (w : World) → IsQuiet wk w (destroy_instance env b i w).1
unfolding destroy_instance
destroy_instance-IsQuiet env wk b none w = IsQuiet-refl wk w
destroy_instance-IsQuiet env wk b (some i) w = elim (Bool-cases (env.delete w.tick)) [
  | inl ok ↦ rw (ok, destroy_instance) (free_port-IsQuiet wk b (w.instances i).port w)
  | inr failed ↦
      rw (failed, destroy_instance)
        (record {
          pool = refl;
          idx = λ p. refl;
          frees = refl;
          members = refl;
          pcie = refl;
          next = refl;
        })
]

destroy_instances-IsQuiet :
    (env : Env) (wk b : ℕ) (is : List ℕ) (w : World) → IsQuiet wk w (destroy_instances env b is w)
unfolding destroy_instances
destroy_instances-IsQuiet env wk b [] w = IsQuiet-refl wk w
destroy_instances-IsQuiet env wk b (i ∷ is) w =
    IsQuiet-trans wk _ _ _ (destroy_instance-IsQuiet env wk b (some i) w)
      (destroy_instances-IsQuiet env wk b is (destroy_instance env b (some i) w).1)

-- A write to a group that keeps its index.
pub put_sgroup-IsQuiet :
    (wk p : ℕ) (sg : SGroup) (w : World)
    → sg.pcie_idx ≡ (w.sgroups p).pcie_idx
    → IsQuiet wk w (put_sgroup p sg w)
put_sgroup-IsQuiet wk p sg w e = record {
  pool = refl;
  frees = refl;
  members = refl;
  pcie = refl;
  next = refl;
  idx = λ q. elim (Bool-cases (p == q)) [
    | inl same ↦
        let f : p ≡ q = ground (arith, same) in rw same (e ∙ ap (λ r. (w.sgroups r).pcie_idx) f)
    | inr other ↦ rw other refl
  ];
}

pub reset-IsQuiet : (env : Env) (wk p : ℕ) (w : World) → IsQuiet wk w (reset env p w)
unfolding reset
reset-IsQuiet env wk p w =
    let w₁ = destroy_instances env (w.sgroups p).worker (w.sgroups p).instances w in
    IsQuiet-trans wk _ _ _
      (destroy_instances-IsQuiet env wk (w.sgroups p).worker (w.sgroups p).instances w)
      (put_sgroup-IsQuiet wk p _ w₁ refl)
