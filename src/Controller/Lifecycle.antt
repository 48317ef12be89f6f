-- ===== src/Controller/Lifecycle.antt =====
-- controller/controller.go and controller/worker.go: the requests that make and destroy groups, the
-- start of CooperativeSched and the end of a worker. The threads that ActivateDAG and Close start for each worker and wait for
-- are run one after the other here.
pub mod SetUp
pub mod Start
pub mod Retry
pub mod Factory
use low_latency_faa_s.Prelude.{
  ℕ, zero, suc, ◌+◌, String, Bool, true, false, List, [], ◌∷◌, ◌++◌, Option, none, some, leb,
  if◌then◌else◌, length,
}
use low_latency_faa_s.Prelude.Int.{ℤ}
use low_latency_faa_s.Go.{
  Error, no_worker, no_user, no_flowlets, no_instance, no_sgroup, no_free_sgroup, no_connection,
  rpc_failed, rpc_refused, deploy_failed, Run, returns, hangs, ◌>>=◌,
}
use low_latency_faa_s.Kubectl.Deploy.{sched_deployment_name}
use low_latency_faa_s.Controller.Dag.{Dag, new_dag, add_nf, activate}
use low_latency_faa_s.Controller.State.{
  World, faas, metron, other, Env, Reply, accepted, refused, failed, put_worker, put_instance,
  put_dag,
}
use low_latency_faa_s.Controller.Pool.{entry}
use low_latency_faa_s.Controller.Instance.{new_instance, set_tid, set_cycles, set_batch}
use low_latency_faa_s.Controller.Traffic.{count_pending_sgroups}
use low_latency_faa_s.Controller.Attach.{request}
use low_latency_faa_s.Controller.LoadBalance.{get_free_sgroup}
use low_latency_faa_s.Controller.Requests.{named, get_sgroup}
use low_latency_faa_s.Controller.Groups.{
  new_worker, tick, take_port, create_free_sgroup, destroy_instance, destroy_sgroup,
  destroy_all_sgroups, destroy_all_free_sgroups,
}
use low_latency_faa_s.Controller.Groups.Ready.{preprocess_before_ready}
use low_latency_faa_s.Controller.Groups.Startup.{create_sgroup}

-- createWorker: the new worker stands at the next address, the number of workers.
unfoldable pub create_worker :
    List (String × ℕ)
    → String
    → String
    → ℕ
    → ℕ
    → List String
    → ℕ
    → World
    → List (String × ℕ) × World
create_worker workers name ip core_num_offset core_count pcie switch_port w =
    elim (named workers name) [
      | some wk ↦ (workers, w)
      | none ↦
          let wk = length workers in
          (
            workers ++ (name, wk) ∷ [],
            put_worker wk (new_worker name ip core_num_offset core_count pcie switch_port) w,
          )
    ]

-- The connection is there after the first try that succeeds.
unfoldable pub connected_by : List Bool → Bool
connected_by [] = false
connected_by (ok ∷ more) = let rest = connected_by more in if ok then true else rest

abbrev pub max_count_sgroups_startup_per_worker : ℕ
max_count_sgroups_startup_per_worker = 20

-- The loop of CreateSGroup over the names of the NFs.
unfoldable pub add_nfs : Dag → List String → Dag
add_nfs g [] = g
add_nfs g (nf ∷ nfs) = add_nfs (add_nf g nf).1 nfs

-- The instance of a worker at a port, which is one of a group.
unfoldable pub instance_at : ℕ → ℤ → World → Option (ℕ × Option ℕ)
instance_at wk port w = elim (entry (w.workers wk).ins_startup_pool port) [
  | none ↦ none
  | some i ↦ some (i, (w.instances i).sg)
]

module _ (env : Env) where
  -- The part of createSched after its deployment.
  unfoldable pub connect_sched : ℕ → ℤ → World → Option Error × World
  connect_sched wk port w =
      let a = w.workers wk in
      let i = w.next_instance in
      let ins = new_instance "sched" false false 0 a.ip port (sched_deployment_name a.name) in
      let ok = connected_by (env.dial_sched w.tick) in
      let w₁ = put_instance i ins (record w { next_instance = i + 1 }) in
      (
        if ok then none else some no_connection,
        tick (put_worker wk (record a { sched = some i; sched_connected = ok }) w₁),
      )

  -- A port stays taken when the deployment fails.
  unfoldable pub create_sched : ℕ → World → Option Error × World
  create_sched wk w =
      let (port, w₁) = take_port wk w in
      if env.deploy_sched w.tick
      then connect_sched wk port (tick w₁)
      else (some deploy_failed, tick w₁)

  unfoldable pub destroy_sgroup_request :
      List (String × ℕ) → String → ℤ → World → Option Error × World
  destroy_sgroup_request workers node_name group_id w = elim (named workers node_name) [
    | none ↦ (some no_worker, w)
    | some wk ↦ elim (get_sgroup wk group_id w) [
      | none ↦ (some no_sgroup, w)
      | some p ↦ destroy_sgroup env wk p w
    ]
  ]

  -- The methods setCycles and setBatch of Worker.
  unfoldable pub worker_call :
      (ℕ → World → Run (Option Error × World)) → ℕ → ℤ → World → Run (Option Error × World)
  worker_call call wk port w = elim (instance_at wk port w) [
    | none ↦ returns (some no_instance, w)
    | some (i, none) ↦ returns (some no_instance, w)
    | some (i, some p) ↦ call i w
  ]

  unfoldable pub set_cycles_request :
      List (String × ℕ) → String → ℤ → World → Run (Option Error × World)
  set_cycles_request workers node_name port w = elim (named workers node_name) [
    | none ↦ returns (some no_worker, w)
    | some wk ↦ worker_call (set_cycles env) wk port w
  ]

  unfoldable pub set_batch_request :
      List (String × ℕ) → String → ℤ → World → Run (Option Error × World)
  set_batch_request workers node_name port w = elim (named workers node_name) [
    | none ↦ returns (some no_worker, w)
    | some wk ↦ worker_call (set_batch env) wk port w
  ]

  abbrev pub kill_error : Reply → Option Error
  kill_error accepted = none
  kill_error refused = some rpc_refused
  kill_error failed = some rpc_failed

  abbrev pub destroy_groups : ℕ → World → World
  destroy_groups wk w = destroy_all_free_sgroups env wk (destroy_all_sgroups env wk w)

  -- Close of Worker, after its background threads have ended: CooperativeSched is told to end, and its
  -- instance and all groups are destroyed.
  unfoldable pub close_worker : ℕ → World → Option Error × World
  close_worker wk w = elim w.mode [
    | faas ↦
        let (reply, w₁) = request env.kill_sched wk w in
        (kill_error reply, destroy_groups wk (destroy_instance env wk (w.workers wk).sched w₁).1)
    | metron ↦ (none, destroy_groups wk w)
    | other ↦ (none, w)
  ]

  module _ (others : ℕ → World → World) where
    unfoldable pub instance_set_up :
        ℕ → List (String × ℕ) → String → ℤ → ℤ → World → Run (Option Error × World)
    instance_set_up fuel workers node_name port tid w = elim (named workers node_name) [
      | none ↦ returns (some no_worker, w)
      | some wk ↦ elim (instance_at wk port w) [
        | none ↦ returns (some no_sgroup, w)
        | some (i, none) ↦ returns (none, set_tid i tid w)
        | some (i, some p) ↦
            preprocess_before_ready env others fuel p (set_tid i tid w) >>= λ (w₁ : World).
            returns (none, w₁)
      ]
    ]

    -- The part of CreateSGroup after the activation of the new DAG, which stands at `d`.
    unfoldable pub create_on : ℕ → ℕ → ℕ → Option Error × Dag → World → Run (Option Error × World)
    create_on fuel wk d (some e, g) w = returns (some e, w)
    create_on fuel wk d (none, g) w =
        let (free, w₁) = get_free_sgroup wk (put_dag d g w) in
        elim free [
          | none ↦ returns (some no_free_sgroup, w₁)
          | some p ↦
              (create_sgroup env others fuel wk p d w₁ >>= λ (w₂ : World). returns (none, w₂))
        ]

    -- CreateSGroup: `order` is the order in which the map of NFs is ranged over.
    unfoldable pub create_sgroup_request :
        ℕ
        → List ℕ
        → List (String × ℕ)
        → String
        → List String
        → ℕ
        → World
        → Run (Option Error × World)
    create_sgroup_request fuel order workers node_name nfs d w = elim (named workers node_name) [
      | none ↦ returns (some no_worker, w)
      | some wk ↦
          (activate fuel order (add_nfs new_dag nfs) >>= λ (r : Option Error × Dag).
          create_on fuel wk d r w)
    ]

    -- The wait for the number of groups that start up, on fuel for its rounds.
    unfoldable pub wait_pending : ℕ → ℕ → ℕ → World → Run World
    wait_pending zero k wk w = hangs
    wait_pending (suc fuel) k wk w =
        let rest = wait_pending fuel (k + 1) wk (others k w) in
        if leb max_count_sgroups_startup_per_worker (count_pending_sgroups wk w)
        then rest
        else returns w

    -- The loop of a worker in ActivateDAG, on fuel for its free groups.
    unfoldable pub start_groups : ℕ → ℕ → ℕ → World → Run World
    start_groups zero wk d w = hangs
    start_groups (suc fuel) wk d w =
        let (free, w₁) = get_free_sgroup wk w in
        elim free [
          | none ↦ returns w
          | some p ↦
              (wait_pending fuel 0 wk w₁ >>= λ (w₂ : World).
              create_sgroup env others fuel (w₂.sgroups p).worker p d w₂ >>= λ (w₃ : World).
              start_groups fuel wk d w₃)
        ]

    unfoldable pub start_workers : ℕ → List ℕ → ℕ → World → Run World
    start_workers fuel [] d w = returns w
    start_workers fuel (wk ∷ wks) d w =
        start_groups fuel wk d w >>= λ (w₁ : World). start_workers fuel wks d w₁

    -- What follows the activation; `metron_start` is metronStartUp.
    unfoldable pub start_up : ℕ → List ℕ → ℕ → (World → Run World) → World → Run World
    start_up fuel wks d metron_start w = elim w.mode [
      | faas ↦ start_workers fuel wks d w
      | metron ↦ metron_start w
      | other ↦ returns w
    ]

    -- The error of Activate is dropped.
    unfoldable pub activate_dag :
        ℕ
        → List ℕ
        → List (String × ℕ)
        → List ℕ
        → (World → Run World)
        → String
        → World
        → Run (Option Error × World)
    activate_dag fuel order users wks metron_start user w = elim (named users user) [
      | none ↦ returns (some no_user, w)
      | some d ↦ elim (w.dags d).flowlets [
        | [] ↦ returns (some no_flowlets, w)
        | f ∷ fs ↦
            (activate fuel order (w.dags d) >>= λ (r : Option Error × Dag).
            start_up fuel wks d metron_start (put_dag d r.1 w) >>= λ (w₁ : World).
            returns (none, w₁))
      ]
    ]
