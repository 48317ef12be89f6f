-- ===== src/Controller/Groups.antt =====
-- The life of instances and groups: controller/worker.go, controller/background.go and
-- controller/sgroup.go. A pod is waited for for at most 20 seconds, whatever its status then; the wait
-- changes nothing here and is left out. A lock makes a method one step.
pub mod Ready
pub mod Ports
pub mod Rollback
pub mod Pcie
pub mod Leftover
pub mod Startup
use low_latency_faa_s.Prelude.{
  ℕ, zero, suc, ◌+◌, ◌-◌, String, Bool, true, false, not, List, [], ◌∷◌, ◌++◌, Option, none, some,
  ◌==◌, if◌then◌else◌, length, get_elem?, take,
}
use low_latency_faa_s.Prelude.Int.{ℤ, pos, negsuc}
use low_latency_faa_s.Utils.IndexPool.{IndexPool, new_index_pool, get_next_available, free}
use low_latency_faa_s.Go.{Error, deploy_failed, rpc_failed, Run, returns, panic, ◌>>=◌, or_panic}
use low_latency_faa_s.Kubectl.Deploy.{join, deployment_name, create_tries}
use low_latency_faa_s.Controller.State.{
  Instance, SGroup, Core, Worker, World, Env, put_worker, put_sgroup, put_instance, invalid_core_id,
}
use low_latency_faa_s.Controller.Core.{new_core}
use low_latency_faa_s.Controller.Instance.{new_instance}
use low_latency_faa_s.Controller.Pool.{InstancePool, new_instance_pool, add_instance}

abbrev pub default_pcie_devices : List String
default_pcie_devices =
    "5e:02.0" ∷ "5e:02.1" ∷ "5e:02.2" ∷ "5e:02.3" ∷ "5e:02.4" ∷ "5e:02.5" ∷ "5e:02.6" ∷ "5e:02.7"
    ∷ "5e:03.0" ∷ "5e:03.1" ∷ "5e:03.2" ∷ "5e:03.3" ∷ "5e:03.4" ∷ "5e:03.5" ∷ "5e:03.6" ∷ []

-- The loop of NewWorker over its cores.
unfoldable pub new_cores : ℕ → ℕ → List Core
new_cores id zero = []
new_cores id (suc n) = new_core (pos id) ∷ new_cores (id + 1) n

unfoldable pub new_worker : String → String → ℕ → ℕ → List String → ℕ → Worker
new_worker name ip core_num_offset core_num pcie switch_port =
    let devices : List String = elim pcie [ [] ↦ default_pcie_devices | d ∷ ds ↦ d ∷ ds ] in
    record {
      name = name;
      ip = ip;
      pcie = devices;
      switch_port = switch_port;
      sched = none;
      cores = new_cores core_num_offset core_num;
      sgroups = [];
      sgroup_conns = [];
      sgroup_target = 0;
      free_sgroups = [];
      instance_port_pool = new_index_pool (pos 50052) 1000;
      pcie_pool = new_index_pool (pos 0) (length devices);
      ins_startup_pool = [];
      sched_connected = false;
    }

-- `w.pcie[i]`.
abbrev pub pcie_at : Worker → ℤ → Run String
pcie_at a (pos i) = or_panic (get_elem? a.pcie i)
pcie_at a (negsuc i) = panic

abbrev pub tick : World → World
tick w = record w { tick = w.tick + 1 }

-- GetNextAvailable and Free on the two pools of a worker.
unfoldable pub take_port : ℕ → World → ℤ × World
take_port wk w =
    let a = w.workers wk in
    let (port, pool) = get_next_available a.instance_port_pool in
    (port, put_worker wk (record a { instance_port_pool = pool }) w)

unfoldable pub free_port : ℕ → ℤ → World → World
free_port wk port w =
    let a = w.workers wk in
    put_worker wk (record a { instance_port_pool = free a.instance_port_pool port }) w

unfoldable pub take_pcie : ℕ → World → ℤ × World
take_pcie wk w =
    let a = w.workers wk in
    let (idx, pool) = get_next_available a.pcie_pool in
    (idx, put_worker wk (record a { pcie_pool = pool }) w)

unfoldable pub free_pcie : ℕ → ℤ → World → World
free_pcie wk idx w =
    let a = w.workers wk in put_worker wk (record a { pcie_pool = free a.pcie_pool idx }) w

-- The part of createInstance after a deployment: the new instance, by its address.
unfoldable pub add_new_instance : ℕ → List String → ℕ → ℤ → Bool → Bool → Bool → World → ℕ × World
add_new_instance wk nf_types cycle_cost port is_primary is_ingress is_egress w =
    let a = w.workers wk in
    let i = w.next_instance in
    let ins =
      new_instance (join "," nf_types) is_ingress is_egress cycle_cost a.ip port
        (deployment_name a.name nf_types port) in
    let w₁ = put_instance i ins (record w { next_instance = i + 1 }) in
    let pool = (add_instance port i (record { pool = a.ins_startup_pool })).pool in
    (i, if is_primary then w₁ else put_worker wk (record a { ins_startup_pool = pool }) w₁)

module _ (env : Env) where
  -- createInstance; the core and the virtual ports only stand in the deployment. `none` says that there
  -- is an error, which is that of CreateDeployment.
  unfoldable pub create_instance :
      ℕ → List String → ℕ → ℤ → Bool → Bool → Bool → World → Run (Option ℕ × World)
  create_instance wk nf_types cycle_cost pcie_idx is_primary is_ingress is_egress w =
      let (port, w₁) = take_port wk w in
      pcie_at (w.workers wk) pcie_idx >>= λ (device : String).
      returns (elim (create_tries none (env.attempts w.tick)) as (λ x. Option ℕ × World) [
        | some e ↦ (none, free_port wk port (tick w₁))
        | none ↦
            let r =
              add_new_instance wk nf_types cycle_cost port is_primary is_ingress is_egress
                (tick w₁) in
            (some r.0, r.1)
      ])

  -- destroyInstance; nil is `none`.
  unfoldable pub destroy_instance : ℕ → Option ℕ → World → Option Error × World
  destroy_instance wk none w = (none, w)
  destroy_instance wk (some i) w =
      if env.delete w.tick
      then (none, free_port wk (w.instances i).port (tick w))
      else (some deploy_failed, tick w)

  abbrev pub fresh_sgroup : ℕ → ℤ → ℕ → SGroup
  fresh_sgroup wk pcie_idx manager = record {
    manager = some manager;
    group_id = pcie_idx;
    pcie_idx = pcie_idx;
    is_complete = false;
    is_ready = false;
    is_active = false;
    is_sched = false;
    idle_sample_cnt = 0;
    instances = [];
    tids = [];
    sum_cycles = 0;
    batch_size = 32;
    batch_count = 1;
    inc_queue_length = 0;
    inc_queue_capacity = 4096;
    out_queue_length = 0;
    out_queue_capacity = 4096;
    pkt_rate_kpps = 0;
    max_rate_kpps = 800;
    worker = wk;
    core_id = invalid_core_id;
    dag = none;
  }

  -- The rest of newSGroup, after createInstance.
  unfoldable pub settle_new : ℕ → ℤ → Option ℕ × World → Option ℕ × World
  settle_new wk pcie_idx (none, w) = (none, w)
  settle_new wk pcie_idx (some i, w) =
      let p = w.next_sgroup in
      (some p, put_sgroup p (fresh_sgroup wk pcie_idx i) (record w { next_sgroup = p + 1 }))

  unfoldable pub new_sgroup : ℕ → ℤ → World → Run (Option ℕ × World)
  new_sgroup wk pcie_idx w =
      create_instance wk ("prim" ∷ []) 0 pcie_idx true false false w >>= λ (r : Option ℕ × World).
      returns (settle_new wk pcie_idx r)

  abbrev pub add_free : ℕ → ℕ → World → World
  add_free wk p w =
      let a = w.workers wk in put_worker wk (record a { free_sgroups = a.free_sgroups ++ p ∷ [] }) w

  -- The rest of createFreeSGroup, after newSGroup.
  unfoldable pub settle_free : ℕ → ℤ → Option ℕ × World → Option ℕ × World
  settle_free wk pcie_idx (none, w) = (none, free_pcie wk pcie_idx w)
  settle_free wk pcie_idx (some p, w) = (some p, add_free wk p w)

  unfoldable pub create_free_sgroup : ℕ → World → Run (Option ℕ × World)
  create_free_sgroup wk w =
      let (pcie_idx, w₁) = take_pcie wk w in
      new_sgroup wk pcie_idx w₁ >>= λ (r : Option ℕ × World). returns (settle_free wk pcie_idx r)

  -- The loop of Reset; an error is only logged.
  unfoldable pub destroy_instances : ℕ → List ℕ → World → World
  destroy_instances wk [] w = w
  destroy_instances wk (i ∷ is) w = destroy_instances wk is (destroy_instance wk (some i) w).1

  unfoldable pub reset : ℕ → World → World
  reset p w =
      let sg = w.sgroups p in
      let w₁ = destroy_instances sg.worker sg.instances w in
      put_sgroup p (record (w₁.sgroups p) { instances = []; tids = []; dag = none }) w₁

  unfoldable pub destroy_sgroup : ℕ → ℕ → World → Option Error × World
  destroy_sgroup wk p w = (none, add_free wk p (reset p w))

  unfoldable pub destroy_free_sgroup : ℕ → ℕ → World → World
  destroy_free_sgroup wk p w =
      let (err, w₁) = destroy_instance wk (w.sgroups p).manager w in
      elim err [ some e ↦ w₁ | none ↦ free_pcie wk (w.sgroups p).pcie_idx w₁ ]

  -- The loops of destroyAllSGroups and destroyAllFreeSGroups take the last group first. The go routines
  -- of the latter are run one after the other.
  unfoldable pub destroy_sgroups : ℕ → List ℕ → World → World
  destroy_sgroups wk [] w = w
  destroy_sgroups wk (p ∷ ps) w = add_free wk p (reset p (destroy_sgroups wk ps w))

  unfoldable pub destroy_all_sgroups : ℕ → World → World
  destroy_all_sgroups wk w =
      let ps = (w.workers wk).sgroups in
      destroy_sgroups wk ps (put_worker wk (record (w.workers wk) { sgroups = [] }) w)

  unfoldable pub destroy_free_sgroups : ℕ → List ℕ → World → World
  destroy_free_sgroups wk [] w = w
  destroy_free_sgroups wk (p ∷ ps) w = destroy_free_sgroup wk p (destroy_free_sgroups wk ps w)

  unfoldable pub destroy_all_free_sgroups : ℕ → World → World
  destroy_all_free_sgroups wk w =
      let ps = (w.workers wk).free_sgroups in
      destroy_free_sgroups wk ps (put_worker wk (record (w.workers wk) { free_sgroups = [] }) w)
