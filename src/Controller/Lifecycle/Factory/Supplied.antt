-- ===== src/Controller/Lifecycle/Factory/Supplied.antt =====
-- controller/background.go: where the PCIe indices are while the threads of the workers run.
use low_latency_faa_s.Prelude.{
  ℕ, suc, ◌+◌, ◌≤◌, ◌<◌, ◌≡◌, refl, subst, ap, inl, inr, false, List, [], ◌∷◌, ◌++◌, map, arith,
  ◌==◌, if◌then◌else◌, Bool-cases,
}
use low_latency_faa_s.Prelude.Int.{ℤ}
use low_latency_faa_s.Prelude.Count.{count}
use low_latency_faa_s.Utils.MinHeap.Count.{count as ℤ_count}
use low_latency_faa_s.Utils.IndexPool.{size}
use low_latency_faa_s.Controller.State.{World, Env}
use low_latency_faa_s.Controller.Groups.{tick, take_port, take_pcie}
use low_latency_faa_s.Controller.Groups.Ports.{update-same}
use low_latency_faa_s.Controller.Groups.Pcie.Steady.{IsSteady, IsSteady-trans, take_port-IsSteady}
use low_latency_faa_s.Controller.Groups.Pcie.Stock.{
  IsStocked, IsStocked-held, indices_left, steady-IsStocked,
}
use low_latency_faa_s.Controller.Groups.Pcie.Made.{
  IsElsewhere, steady-IsElsewhere, elsewhere-IsStocked,
}
use low_latency_faa_s.Controller.Lifecycle.{connect_sched, create_sched}
use low_latency_faa_s.Controller.Lifecycle.Factory.{
  FaasOp, free_sgroup, shutdown, Phase, Init, sending, ended, Factory, Fleet, put_factory,
}

-- The free groups that the messages ask for, up to a shutdown.
unfoldable pub requests : List FaasOp → ℕ
requests [] = 0
requests (shutdown ∷ ops) = 0
requests (free_sgroup ∷ ops) = suc (requests ops)

pub requests-snoc : (ops : List FaasOp) → requests (ops ++ free_sgroup ∷ []) ≤ suc (requests ops)
unfolding requests
requests-snoc [] = omega arith
requests-snoc (shutdown ∷ ops) = omega arith
requests-snoc (free_sgroup ∷ ops) = omega (arith, requests-snoc ops)

abbrev pub to_send : Init → ℕ
to_send (sending n) = n
to_send ended = 0

-- The indices that the threads of the worker still draw, at most.
abbrev pub demand : Factory → ℕ
demand f = to_send f.init + (if f.is_listening then requests f.channel else 0) + f.started

abbrev pub indices_of : List (ℤ × Phase) → List ℤ
indices_of ts = map (λ (t : ℤ × Phase). t.0) ts

-- Each device of the worker has its index in the pool, or with one of its groups, or with one running thread of
-- createFreeSGroup; and the pool has an index for each that threads still draw.
pub record IsSupplied (wk : ℕ) (f : Factory) (w : World) : Type 0 where
  pub stocked : IsStocked wk (indices_of f.threads) w
  pub enough : demand f ≤ indices_left wk w

-- No thread of the worker runs.
pub record IsIdle (f : Factory) : Type 0 where
  pub deaf : f.is_listening ≡ false
  pub unstarted : f.started ≡ 0
  pub without : f.threads ≡ []
  pub through : f.init ≡ ended

pub record AreSupplied (all : List ℕ) (s : Fleet) : Type 0 where
  pub supplied : (b : ℕ) → 0 < count b all → IsSupplied b (s.factories b) s.world
  pub idle : (b : ℕ) → count b all ≡ 0 → IsIdle (s.factories b)

connect_sched-IsSteady :
    (env : Env) (wk : ℕ) (port : ℤ) (w : World) → IsSteady wk w (connect_sched env wk port w).1
unfolding connect_sched
connect_sched-IsSteady env wk port w = record {
  pool = rw (update-same w.workers wk _) refl;
  sgroups = refl;
  next = refl;
  frees = rw (update-same w.workers wk _) refl;
  members = rw (update-same w.workers wk _) refl;
  pcie = rw (update-same w.workers wk _) refl;
  others = λ b h. rw h refl;
}

pub create_sched-IsSteady :
    (env : Env) (wk : ℕ) (w : World) → IsSteady wk w (create_sched env wk w).1
unfolding create_sched
create_sched-IsSteady env wk w = elim (Bool-cases (env.deploy_sched w.tick)) [
  | inl up ↦
      let w₁ = tick (take_port wk w).1 in
      rw (up, create_sched)
        (IsSteady-trans wk w w₁ _ (take_port-IsSteady wk w)
          (connect_sched-IsSteady env wk (take_port wk w).0 w₁))
  | inr down ↦ rw (down, create_sched) (take_port-IsSteady wk w)
]

pub take_pcie-IsElsewhere : (wk : ℕ) (w : World) → IsElsewhere wk w (take_pcie wk w).1
unfolding take_pcie
take_pcie-IsElsewhere wk w = record {
  workers = λ b h. rw h refl;
  idx = λ p h. refl;
  next = omega arith;
}

indices_of-append :
    (x : ℤ) (front back : List (ℤ × Phase))
    → ℤ_count x (indices_of (front ++ back))
      ≡ ℤ_count x (indices_of front) + ℤ_count x (indices_of back)
unfolding ℤ_count
indices_of-append x [] back = omega arith
indices_of-append x (a ∷ front) back = omega (arith, indices_of-append x front back)

-- A thread among the others.
pub middle :
    (front : List (ℤ × Phase)) (idx : ℤ) (a : Phase) (back : List (ℤ × Phase)) (x : ℤ)
    → ℤ_count x (indices_of (front ++ (idx, a) ∷ back))
      ≡ ℤ_count x (idx ∷ indices_of (front ++ back))
unfolding ℤ_count
middle front idx a back x =
    omega (arith, indices_of-append x front ((idx, a) ∷ back), indices_of-append x front back)

steady-IsSupplied :
    (wk : ℕ) (f f' : Factory) (w w' : World)
    → IsSteady wk w w'
    → ((x : ℤ) → ℤ_count x (indices_of f'.threads) ≡ ℤ_count x (indices_of f.threads))
    → demand f' ≤ demand f
    → IsSupplied wk f w
    → IsSupplied wk f' w'
steady-IsSupplied wk f f' w w' s e d v = record {
  stocked =
      IsStocked-held wk (indices_of f.threads) _ w' e
        (steady-IsStocked wk (indices_of f.threads) w w' s v.stocked);
  enough = omega (arith, d, v.enough, ap size s.pool);
}

pub IsSteady-refl : (wk : ℕ) (w : World) → IsSteady wk w w
IsSteady-refl wk w = record {
  pool = refl;
  sgroups = refl;
  next = refl;
  frees = refl;
  members = refl;
  pcie = refl;
  others = λ b h. refl;
}

-- A turn of the worker `wk`.
pub record IsTurned (wk : ℕ) (f' : Factory) (w w' : World) : Type 0 where
  pub supplied : IsSupplied wk f' w'
  pub elsewhere : IsElsewhere wk w w'

pub steady-IsTurned :
    (wk : ℕ) (f f' : Factory) (w w' : World)
    → IsSteady wk w w'
    → ((x : ℤ) → ℤ_count x (indices_of f'.threads) ≡ ℤ_count x (indices_of f.threads))
    → demand f' ≤ demand f
    → IsSupplied wk f w
    → IsTurned wk f' w w'
steady-IsTurned wk f f' w w' s e d v = record {
  supplied = steady-IsSupplied wk f f' w w' s e d v;
  elsewhere = steady-IsElsewhere wk w w' s;
}

pub turned-AreSupplied :
    (all : List ℕ) (wk : ℕ) (f : Factory) (w : World) (s : Fleet)
    → 0 < count wk all
    → IsTurned wk f s.world w
    → AreSupplied all s
    → AreSupplied all (put_factory wk f w s)
turned-AreSupplied all wk f w s h t v = record {
  supplied = λ b l. elim (Bool-cases (wk == b)) [
    | inl same ↦
        let e : wk ≡ b = ground (arith, same) in
        rw same (subst (λ c. IsSupplied c f w) e t.supplied)
    | inr away ↦
        let old = v.supplied b l in
        rw away (record {
          stocked = elsewhere-IsStocked wk b _ s.world w t.elsewhere away old.stocked;
          enough =
              omega (arith, old.enough, ap (λ a. size a.pcie_pool) (t.elsewhere.workers b away));
        })
  ];
  idle = λ b l.
      let away : (wk == b) ≡ false = elim (Bool-cases (wk == b)) [
        | inl same ↦
            let e : wk ≡ b = ground (arith, same) in
            absurd (omega (arith, h, l, ap (λ c. count c all) e))
        | inr apart ↦ apart
      ] in
      rw away (v.idle b l);
}
