-- ===== src/Controller/Groups/Ports.antt =====
-- controller/worker.go: the ports of createInstance and destroyInstance.
use low_latency_faa_s.Prelude.{
  ℕ, suc, ◌<◌, ◌≡◌, refl, inl, inr, String, Bool, true, false, List, [], ◌∷◌, Option, none, some,
  ap, ◌∙◌, arith, Option-cases,
}
use low_latency_faa_s.Prelude.Int.{ℤ, pos, negsuc}
use low_latency_faa_s.Utils.IndexPool.{size, get_next_available}
use low_latency_faa_s.Utils.IndexPool.History.{take, give, IsShared, Step-IsShared}
use low_latency_faa_s.Utils.MinHeap.Laws.{heap_pop-Popped}
use low_latency_faa_s.Go.{Error, Run, returns}
use low_latency_faa_s.Kubectl.Deploy.{join, create_tries}
use low_latency_faa_s.Controller.State.{Worker, World, Env, update}
use low_latency_faa_s.Controller.Instance.{new_instance}
use low_latency_faa_s.Controller.Groups.{
  pcie_at, tick, take_port, free_port, add_new_instance, create_instance,
}

pub update-same : {A : Type 0} (f : ℕ → A) (p : ℕ) (a : A) → update f p a p ≡ a
update-same f p a = ground arith

pub pcie_at-pcie : (a b : Worker) (i : ℤ) → a.pcie ≡ b.pcie → pcie_at a i ≡ pcie_at b i
pcie_at-pcie a b (pos i) e = rw e refl
pcie_at-pcie a b (negsuc i) e = refl

-- Each port of [base, base + n) is in the pool of the worker, or stands once in `held`.
abbrev pub ArePortsShared : ℤ → ℕ → ℕ → List ℤ → World → Type 0
ArePortsShared base n wk held w =
    IsShared base n (record { pool = (w.workers wk).instance_port_pool; held = held })

abbrev pub ports_left : ℕ → World → ℕ
ports_left wk w = size (w.workers wk).instance_port_pool

-- What a failed createInstance leaves.
pub record IsKept (base : ℤ) (n wk : ℕ) (held : List ℤ) (w w' : World) : Type 0 where
  pub shared : ArePortsShared base n wk held w'
  pub instances : w'.instances ≡ w.instances
  pub sgroups : w'.sgroups ≡ w.sgroups
  pub next : w'.next_instance ≡ w.next_instance
  pub free_sgroups : (w'.workers wk).free_sgroups ≡ (w.workers wk).free_sgroups

-- What a createInstance leaves that makes the instance `i`: the port of `i` is taken.
pub record IsCreated (base : ℤ) (n wk : ℕ) (held : List ℤ) (nf_types : List String) (i : ℕ)
    (w w' : World) : Type 0 where
  pub runs : (w'.instances i).func_type ≡ join "," nf_types
  pub unset : (w'.instances i).tid ≡ negsuc 0
  pub shared : ArePortsShared base n wk ((w'.instances i).port ∷ held) w'
  pub left : suc (ports_left wk w') ≡ ports_left wk w
  pub fresh : i ≡ w.next_instance
  pub next : w'.next_instance ≡ suc i
  pub others : (j : ℕ) → j < i → w'.instances j ≡ w.instances j
  pub sgroups : w'.sgroups ≡ w.sgroups
  pub pcie : (w'.workers wk).pcie ≡ (w.workers wk).pcie
  pub free_sgroups : (w'.workers wk).free_sgroups ≡ (w.workers wk).free_sgroups
  pub members : (w'.workers wk).sgroups ≡ (w.workers wk).sgroups
  pub dags : w'.dags ≡ w.dags
  pub ticks : w'.tick ≡ suc w.tick

-- How createInstance ends, for what the tries to create the deployment give.
pub data Creation (base : ℤ) (n wk : ℕ) (held : List ℤ) (nf_types : List String)
    (tries : Option Error) (w : World) : Run (Option ℕ × World) → Type 0 where
  failed :
      {w' : World} {e : Error}
      → tries ≡ some e
      → IsKept base n wk held w w'
      → Creation base n wk held nf_types tries w (returns (none, w'))
  created :
      {i : ℕ} {w' : World}
      → tries ≡ none
      → IsCreated base n wk held nf_types i w w'
      → Creation base n wk held nf_types tries w (returns (some i, w'))

-- What takes and frees of ports leave.
pub record IsTaken (wk : ℕ) (w w' : World) : Type 0 where
  pub instances : w'.instances ≡ w.instances
  pub sgroups : w'.sgroups ≡ w.sgroups
  pub next : w'.next_instance ≡ w.next_instance
  pub pcie : (w'.workers wk).pcie ≡ (w.workers wk).pcie
  pub free_sgroups : (w'.workers wk).free_sgroups ≡ (w.workers wk).free_sgroups
  pub members : (w'.workers wk).sgroups ≡ (w.workers wk).sgroups
  pub dags : w'.dags ≡ w.dags

pub take_port-IsTaken : (wk : ℕ) (w : World) → IsTaken wk w (tick (take_port wk w).1)
unfolding take_port
take_port-IsTaken wk w = record {
  instances = refl;
  sgroups = refl;
  next = refl;
  pcie = rw (update-same w.workers wk _) refl;
  free_sgroups = rw (update-same w.workers wk _) refl;
  members = rw (update-same w.workers wk _) refl;
  dags = refl;
}

take_port-tick : (wk : ℕ) (w : World) → (tick (take_port wk w).1).tick ≡ suc w.tick
unfolding take_port
take_port-tick wk w = omega arith

pub free_port-IsFreed : (wk : ℕ) (port : ℤ) (w : World) → IsTaken wk w (free_port wk port w)
unfolding free_port
free_port-IsFreed wk port w = record {
  instances = refl;
  sgroups = refl;
  next = refl;
  pcie = rw (update-same w.workers wk _) refl;
  free_sgroups = rw (update-same w.workers wk _) refl;
  members = rw (update-same w.workers wk _) refl;
  dags = refl;
}

-- What the part of createInstance after the deployment leaves.
pub record IsAdded (wk : ℕ) (nf_types : List String) (port : ℤ) (i : ℕ) (w w' : World)
    : Type 0 where
  pub runs : (w'.instances i).func_type ≡ join "," nf_types
  pub unset : (w'.instances i).tid ≡ negsuc 0
  pub pool : (w'.workers wk).instance_port_pool ≡ (w.workers wk).instance_port_pool
  pub gets : (w'.instances i).port ≡ port
  pub fresh : i ≡ w.next_instance
  pub next : w'.next_instance ≡ suc i
  pub others : (j : ℕ) → j < i → w'.instances j ≡ w.instances j
  pub sgroups : w'.sgroups ≡ w.sgroups
  pub pcie : (w'.workers wk).pcie ≡ (w.workers wk).pcie
  pub free_sgroups : (w'.workers wk).free_sgroups ≡ (w.workers wk).free_sgroups
  pub members : (w'.workers wk).sgroups ≡ (w.workers wk).sgroups
  pub dags : w'.dags ≡ w.dags
  pub ticks : w'.tick ≡ w.tick

pub add_new_instance-IsAdded :
    (wk : ℕ) (ts : List String) (cost : ℕ) (port : ℤ) (prim ing eg : Bool) (w : World)
    → let r = add_new_instance wk ts cost port prim ing eg w in IsAdded wk ts port r.0 w r.1
unfolding add_new_instance new_instance
add_new_instance-IsAdded wk ts cost port true ing eg w = record {
  runs = rw (update-same w.instances w.next_instance _) refl;
  unset = rw (update-same w.instances w.next_instance _) refl;
  pool = refl;
  gets = rw (update-same w.instances w.next_instance _) refl;
  fresh = refl;
  next = omega arith;
  others = λ j l. ground arith;
  sgroups = refl;
  pcie = refl;
  free_sgroups = refl;
  members = refl;
  dags = refl;
  ticks = refl;
}
add_new_instance-IsAdded wk ts cost port false ing eg w = record {
  runs = rw (update-same w.instances w.next_instance _) refl;
  unset = rw (update-same w.instances w.next_instance _) refl;
  pool = rw (update-same w.workers wk _) refl;
  gets = rw (update-same w.instances w.next_instance _) refl;
  fresh = refl;
  next = omega arith;
  others = λ j l. ground arith;
  sgroups = refl;
  pcie = rw (update-same w.workers wk _) refl;
  free_sgroups = rw (update-same w.workers wk _) refl;
  members = rw (update-same w.workers wk _) refl;
  dags = refl;
  ticks = refl;
}

module _ (base : ℤ) (n wk : ℕ) where
  pub give_back :
      (i : ℤ) (held : List ℤ) (w : World)
      → ArePortsShared base n wk (i ∷ held) w
      → ArePortsShared base n wk held (free_port wk i w)
  unfolding free_port
  give_back i held w v =
      rw (update-same w.workers wk _) (Step-IsShared base n (give [] i held refl) v)

  take_one :
      (held : List ℤ) (w : World)
      → 0 < ports_left wk w
      → ArePortsShared base n wk held w
      → ArePortsShared base n wk ((take_port wk w).0 ∷ held) (take_port wk w).1
  unfolding take_port
  take_one held w h v = rw (update-same w.workers wk _) (Step-IsShared base n (take h) v)

  left-take :
      (held : List ℤ) (w : World)
      → 0 < ports_left wk w
      → ArePortsShared base n wk held w
      → suc (ports_left wk (take_port wk w).1) ≡ ports_left wk w
  unfolding take_port get_next_available
  left-take held w h v =
      rw (update-same w.workers wk _) (
        ground
          (arith, (heap_pop-Popped (w.workers wk).instance_port_pool.pool h v.valid.heap).size))

  -- What the pool of a world is, is all that matters for its ports.
  same_pool :
      (held held' : List ℤ) (w w' : World)
      → (w'.workers wk).instance_port_pool ≡ (w.workers wk).instance_port_pool
      → held' ≡ held
      → ArePortsShared base n wk held w
      → ArePortsShared base n wk held' w'
  same_pool held held' w w' e h v = rw (e, h) v

  take-IsCreated :
      (held : List ℤ) (nf_types : List String) (port : ℤ) (i : ℕ) (w w₁ w' : World)
      → IsTaken wk w w₁
      → IsAdded wk nf_types port i w₁ w'
      → suc (ports_left wk w₁) ≡ ports_left wk w
      → w₁.tick ≡ suc w.tick
      → ArePortsShared base n wk (port ∷ held) w₁
      → IsCreated base n wk held nf_types i w w'
  take-IsCreated held ts port i w w₁ w' t a left tick v = record {
    runs = a.runs;
    unset = a.unset;
    shared = same_pool (port ∷ held) _ w₁ w' a.pool (ap (λ p. p ∷ held) a.gets) v;
    left = ap (λ p. suc (size p)) a.pool ∙ left;
    fresh = a.fresh ∙ t.next;
    next = a.next;
    others = λ j l. a.others j l ∙ ap (λ f. f j) t.instances;
    sgroups = a.sgroups ∙ t.sgroups;
    pcie = a.pcie ∙ t.pcie;
    free_sgroups = a.free_sgroups ∙ t.free_sgroups;
    members = a.members ∙ t.members;
    dags = a.dags ∙ t.dags;
    ticks = a.ticks ∙ tick;
  }

  -- With a port left and the device of its index at hand, createInstance comes back: with an instance
  -- that has taken a port, or with none and every port as before.
  pub create_instance-Creation :
      (env : Env) (held : List ℤ) (nf_types : List String) (cost : ℕ) (idx : ℤ) (prim ing eg : Bool)
      (d : String) (w : World)
      → 0 < ports_left wk w
      → pcie_at (w.workers wk) idx ≡ returns d
      → ArePortsShared base n wk held w
      → Creation base n wk held nf_types
          (create_tries none (env.attempts w.tick))
          w
          (create_instance env wk nf_types cost idx prim ing eg w)
  unfolding create_instance
  create_instance-Creation env held ts cost idx prim ing eg d w h e v =
      let w₁ = tick (take_port wk w).1 in
      let port = (take_port wk w).0 in
      elim (Option-cases (create_tries none (env.attempts w.tick))) [
        | inl up ↦
            let r = add_new_instance wk ts cost port prim ing eg w₁ in
            rw (e, up)
              (created refl (
                take-IsCreated held ts port r.0 w w₁ r.1 (take_port-IsTaken wk w)
                  (add_new_instance-IsAdded wk ts cost port prim ing eg w₁) (left-take held w h v)
                  (take_port-tick wk w) (take_one held w h v)))
        | inr (err, down) ↦
            let t = take_port-IsTaken wk w in
            let f = free_port-IsFreed wk port w₁ in
            rw (e, down)
              (failed refl (record {
                shared = give_back port held w₁ (take_one held w h v);
                instances = f.instances ∙ t.instances;
                sgroups = f.sgroups ∙ t.sgroups;
                next = f.next ∙ t.next;
                free_sgroups = f.free_sgroups ∙ t.free_sgroups;
              }))
      ]
