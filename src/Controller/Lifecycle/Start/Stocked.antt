-- ===== src/Controller/Lifecycle/Start/Stocked.antt =====
-- controller/controller.go: the workers of the cluster while NewFaaSController brings them up, and afterwards.
use low_latency_faa_s.Prelude.{
  ℕ, ◌≤◌, ◌<◌, ◌≡◌, refl, inl, inr, String, Bool, true, false, List, [], ◌∷◌, some, arith, ◌==◌,
  Bool-cases, if◌then◌else◌,
}
use low_latency_faa_s.Prelude.Count.{count}
use low_latency_faa_s.Go.{Run, returns}
use low_latency_faa_s.Controller.State.{World, Mode, faas, metron, other, Env}
use low_latency_faa_s.Controller.Requests.{named}
use low_latency_faa_s.Controller.Lifecycle.Factory.{Factory, Fleet, Turn, Reach}
use low_latency_faa_s.Controller.Lifecycle.Factory.Supplied.{
  demand, requests, IsSupplied, IsIdle, AreSupplied,
}
use low_latency_faa_s.Controller.Lifecycle.Factory.Turns.{Reach-AreSupplied}
use low_latency_faa_s.Controller.Lifecycle.Start.{
  ClusterNode, create_workers, idle_factory, new_factory, init_workers, new_faas_controller,
}
use low_latency_faa_s.Controller.Lifecycle.Start.Workers.{
  addresses, AreNamed, AreProvided, IsManned, create_workers-IsManned,
}

-- Each node has its worker, and each device of the worker has its index in the pool, or with one of its groups, or
-- with one running thread.
abbrev pub AreUp : List ClusterNode → List (String × ℕ) → Fleet → Type 0
AreUp [] workers s = Unit {0}
AreUp (n ∷ nodes) workers s =
    ((wk : ℕ) × (named workers n.name ≡ some wk) × IsSupplied wk (s.factories wk) s.world)
    × AreUp nodes workers s

count-named :
    (ws : List (String × ℕ)) (name : String) (wk : ℕ)
    → named ws name ≡ some wk
    → 0 < count wk (addresses ws)
unfolding named count
count-named [] name wk h = absurd (ground (arith, h))
count-named ((n, a) ∷ ws) name wk h = ground (arith, h, count-named ws name wk)

named-AreUp :
    (nodes : List ClusterNode) (ws : List (String × ℕ)) (s : Fleet)
    → AreNamed nodes ws
    → AreSupplied (addresses ws) s
    → AreUp nodes ws s
named-AreUp [] ws s k v = tt
named-AreUp (n ∷ nodes) ws s ((wk, e), k) v =
    ((wk, e, v.supplied wk (count-named ws n.name wk e)), named-AreUp nodes ws s k v)

-- A worker asks for two free groups, and has an index for each.
record IsFirst (f : Factory) : Type 0 where
  two : demand f ≤ 2
  bare : f.threads ≡ []

idle-IsFirst : IsFirst idle_factory
idle-IsFirst = record { two = omega arith; bare = refl }

new_factory-IsFirst : (mode : Mode) → IsFirst (new_factory mode)
unfolding new_factory requests
new_factory-IsFirst faas = record { two = omega arith; bare = refl }
new_factory-IsFirst metron = record { two = omega arith; bare = refl }
new_factory-IsFirst other = idle-IsFirst

init_workers-IsFirst :
    (mode : Mode) (ws : List (String × ℕ)) (b : ℕ) → IsFirst (init_workers mode ws b)
unfolding init_workers
init_workers-IsFirst mode [] b = idle-IsFirst
init_workers-IsFirst mode ((_, wk) ∷ ws) b = elim (Bool-cases (wk == b)) [
  | inl same ↦ rw same (new_factory-IsFirst mode)
  | inr away ↦ rw away (init_workers-IsFirst mode ws b)
]

idle-IsIdle : IsIdle idle_factory
idle-IsIdle = record { deaf = refl; unstarted = refl; without = refl; through = refl }

init_workers-IsIdle :
    (mode : Mode) (ws : List (String × ℕ)) (b : ℕ)
    → count b (addresses ws) ≡ 0
    → IsIdle (init_workers mode ws b)
unfolding init_workers count
init_workers-IsIdle mode [] b h = idle-IsIdle
init_workers-IsIdle mode ((_, wk) ∷ ws) b h = elim (Bool-cases (wk == b)) [
  | inl same ↦ absurd (ground (arith, h, same))
  | inr away ↦ rw away (init_workers-IsIdle mode ws b (ground (arith, h, away)))
]

manned-AreSupplied :
    (ws : List (String × ℕ)) (fs : ℕ → Factory) (w : World)
    → IsManned ws w
    → ((b : ℕ) → IsFirst (fs b))
    → ((b : ℕ) → count b (addresses ws) ≡ 0 → IsIdle (fs b))
    → AreSupplied (addresses ws) (record { factories = fs; world = w })
manned-AreSupplied ws fs w m first idle = record {
  supplied = λ b l. record {
    stocked = rw ((first b).bare) (m.stocked b l);
    enough = omega (arith, l, (first b).two, m.enough b);
  };
  idle = idle;
}

start-AreSupplied :
    (is_test : Bool) (mode : Mode) (ws : List (String × ℕ)) (w : World)
    → IsManned ws w
    → AreSupplied (addresses ws) (record {
      factories = if is_test then init_workers mode [] else init_workers mode ws;
      world = w;
    })
unfolding count
start-AreSupplied true mode ws w m =
    manned-AreSupplied ws _ w m (init_workers-IsFirst mode [])
      (λ b _. init_workers-IsIdle mode [] b refl)
start-AreSupplied false mode ws w m =
    manned-AreSupplied ws _ w m (init_workers-IsFirst mode ws) (init_workers-IsIdle mode ws)

-- Where no node of the cluster lists exactly one PCIe device, from the start of the threads of NewFaaSController on,
-- in whatever mode and in a test or not, and after any turns of these threads, of RunFreeSGroupFactory and of
-- createFreeSGroup, in any order and whether or not the deployments succeed: each node has its worker; each device of
-- the worker has its PCIe index in the worker's pool, or with one of its groups, or with one running thread of
-- createFreeSGroup; and no turn that a thread can take panics.
pub new_faas_controller-AreUp :
    (env : Env) (is_test : Bool) (mode : Mode) (nodes : List ClusterNode) (w : World) (v : Fleet)
    → AreProvided nodes
    → let r = new_faas_controller is_test mode nodes w in
      Reach env r.1 v
      → AreUp nodes r.0 v × ((o : Run Fleet) → Turn env v o → (u : Fleet) × (o ≡ returns u))
unfolding new_faas_controller count
new_faas_controller-AreUp env is_test mode nodes w v h turns =
    let w₀ = record w { mode = mode } in
    let r = create_workers nodes [] w₀ in
    let (m, k, _) = create_workers-IsManned nodes [] w₀ h (record {
      below = λ b l. absurd (omega (arith, l));
      stocked = λ b l. absurd (omega (arith, l));
      enough = λ b. omega arith;
    }) in
    let (kept, runs) =
      Reach-AreSupplied env (addresses r.0) _ v (start-AreSupplied is_test mode r.0 r.1 m) turns in
    (named-AreUp nodes r.0 v k kept, runs)
