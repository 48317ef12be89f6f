-- ===== src/Tests/Workers.antt =====
-- Concrete runs: controller/sgroup.go, controller/worker.go, controller/schedule.go and
-- controller/load_balance.go.
use low_latency_faa_s.Prelude.{
  ℕ, zero, suc, ◌<◌, ◌≡◌, ◌≢◌, refl, inr, Bool, true, false, List, [], ◌∷◌, none, some, arith, ltb,
}
use low_latency_faa_s.Prelude.Int.{ℤ, pos}
use low_latency_faa_s.Prelude.Count.{count}
use low_latency_faa_s.Go.{returns, panic}
use low_latency_faa_s.Controller.Dag.{new_dag}
use low_latency_faa_s.Controller.State.{
  Instance, SGroup, Worker, World, faas, Env, Reply, accepted, refused, put_worker,
}
use low_latency_faa_s.Prelude.{◌==◌, Option, length, if◌then◌else◌}
use low_latency_faa_s.Go.{Error}
use low_latency_faa_s.Controller.Instance.{call_instance}
use low_latency_faa_s.Controller.Instance.Trials.{Tried, call_instance-Tried}
use low_latency_faa_s.Controller.Core.{find_core}
use low_latency_faa_s.Controller.Attach.{attach_sgroup}
use low_latency_faa_s.Controller.Attach.Placement.{on, IsPlaced, IsExclusive}
use low_latency_faa_s.Controller.Attach.Safety.{attach_sgroup-IsPlaced, attach_sgroup-IsExclusive}
use low_latency_faa_s.Controller.Attach.Failure.{attach_sgroup_loses}
use low_latency_faa_s.Controller.Schedule.Packing.{slower, schedule_once}
use low_latency_faa_s.Controller.Schedule.Packing.Packed.{IsScheduled, schedule_once-IsScheduled}
use low_latency_faa_s.Controller.Schedule.{no_packing_schedule_once}
use low_latency_faa_s.Controller.Schedule.Interleaving.{round, report, here, next, Reach-IsSafe}
use low_latency_faa_s.Controller.LoadBalance.{Cluster}
use low_latency_faa_s.Controller.Requests.{named, update_stats, instance_update_stats}
use low_latency_faa_s.Controller.Pool.{entry}
use low_latency_faa_s.Go.{Run, hangs}
use low_latency_faa_s.Controller.Traffic.{update_instance, measure, with_max_rate}
use low_latency_faa_s.Controller.Schedule.Round.{IsSafe}
use low_latency_faa_s.Controller.Traffic.{
  min_idle_duration, sum_cycles, max_rate, update_traffic_info, activate_sgroup,
}
use low_latency_faa_s.Controller.Traffic.Activity.{
  Sample, observe, idle_samples, observe-idle_samples,
}
use low_latency_faa_s.Controller.LoadBalance.{
  skips_high, skips_low, skips_loaded, find_available_sgroup, find_available_high_load_first,
  get_free_of,
}
use low_latency_faa_s.Controller.LoadBalance.Selection.{
  Choice, lower, higher, find_available_sgroup-Choice, find_available_high_load_first-Choice,
}
use low_latency_faa_s.Controller.LoadBalance.Free.{Freed, get_free_of-Freed}

-- A group with ID `id` on core `core`.
abbrev pub group : ℤ → ℤ → Bool → Bool → ℕ → SGroup
group id core active sched rate = record {
  manager = none;
  group_id = id;
  pcie_idx = id;
  is_complete = true;
  is_ready = true;
  is_active = active;
  is_sched = sched;
  idle_sample_cnt = 0;
  instances = 0 ∷ [];
  tids = pos 11 ∷ [];
  sum_cycles = 1000;
  batch_size = 32;
  batch_count = 1;
  inc_queue_length = 10;
  inc_queue_capacity = 4096;
  out_queue_length = 0;
  out_queue_capacity = 4096;
  pkt_rate_kpps = rate;
  max_rate_kpps = 1000;
  worker = 0;
  core_id = core;
  dag = none;
}

-- Group 0 runs on core 2 and is not active any more; group 1 is active and waits on core 1.
abbrev pub groups : ℕ → SGroup
groups zero = group (pos 0) (pos 2) false true 200
groups (suc _) = group (pos 1) (pos 1) true false 300

abbrev pub nf : Instance
nf = record {
  func_type = "nat";
  is_nf = true;
  is_ingress = true;
  is_egress = true;
  port = pos 50052;
  host_ip = "10.0.0.1";
  pod_name = "nat-50052";
  sg = some 0;
  tid = pos 11;
  profiled_cycle = 1000;
  cycle = 1000;
  inc_queue_length = 10;
  pkt_rate_kpps = 200;
  connected = true;
  attempt = 0;
}

abbrev pub node : Worker
node = record {
  name = "node1";
  ip = "10.0.0.1";
  pcie = [];
  switch_port = 5;
  sched = none;
  cores =
      record { core_id = pos 1; sgroups = 1 ∷ [] }
      ∷ record { core_id = pos 2; sgroups = 0 ∷ [] }
      ∷ record { core_id = pos 3; sgroups = [] }
      ∷ [];
  sgroups = 0 ∷ 1 ∷ [];
  sgroup_conns = [];
  sgroup_target = 2;
  free_sgroups = 2 ∷ 3 ∷ [];
  instance_port_pool = record { pool = record { nums = [] } };
  pcie_pool = record { pool = record { nums = [] } };
  ins_startup_pool = (pos 50052, 0) ∷ [];
  sched_connected = true;
}

abbrev pub store : World
store = record {
  workers = λ p. node;
  sgroups = groups;
  instances = λ p. nf;
  dags = λ p. record new_dag { sgroups = 0 ∷ 1 ∷ [] };
  next_instance = 1;
  next_sgroup = 4;
  mode = faas;
  support_queue_length = false;
  tick = 0;
}

-- CooperativeSched answers requests with `reply`.
abbrev pub answers : Reply → Env
answers reply = record {
  dial = λ n. true;
  set_cycles = λ n. true;
  set_batch = λ n. true;
  setup_chain = λ n. accepted;
  attach_chain = λ n. reply;
  deploy_sched = λ n. true;
  dial_sched = λ n. true ∷ [];
  kill_sched = λ n. accepted;
  detach_chain = λ n. accepted;
  attempts = λ n. true ∷ [];
  delete = λ n. true;
  core_order = λ n ids. ids;
  batch_count = λ n sum size. 1;
}

store-IsPlaced : IsPlaced store 0 (0 ∷ 1 ∷ [])
unfolding count find_core
store-IsPlaced = record {
  named = λ p q hp hq e. ground (arith, hp, hq, e);
  owned = λ p hp. ground (arith, hp);
  inside = λ id q hq. ground (arith, hq);
  once = λ id q. ground arith;
  valid = refl;
  placed = λ id q hq. ground (arith, hq);
}

store-IsExclusive : IsExclusive store 0
unfolding count find_core
store-IsExclusive id p q apart hp hq = ground (arith, hp, hq, apart)

core_3_free : (q : ℕ) → on store 0 (pos 3) q ≡ 0
unfolding count find_core
core_3_free q = refl

first_listed : 0 < count 0 (0 ∷ 1 ∷ [])
unfolding count
first_listed = omega arith

attach_sgroup-IsPlaced_example :
    IsPlaced (attach_sgroup (answers accepted) 0 (pos 3) store).1 0 (0 ∷ 1 ∷ [])
attach_sgroup-IsPlaced_example =
    attach_sgroup-IsPlaced (answers accepted) 0 0 (0 ∷ 1 ∷ []) store (pos 3) store-IsPlaced
      first_listed

attach_sgroup-IsExclusive_example :
    IsExclusive (attach_sgroup (answers accepted) 0 (pos 3) store).1 0
attach_sgroup-IsExclusive_example =
    attach_sgroup-IsExclusive (answers accepted) 0 0 (0 ∷ 1 ∷ []) store (pos 3) store-IsPlaced
      first_listed (inr core_3_free) store-IsExclusive

core_2_found : find_core (pos 2) node.cores ≢ none
unfolding find_core
core_2_found e = ground (arith, e)

attach_sgroup_loses_example :
    let (e, w') = attach_sgroup (answers refused) 0 (pos 3) store in
    (e ≢ none) × (w'.sgroups ≡ store.sgroups) × ((j : ℤ) → on w' 0 j 0 ≡ 0)
attach_sgroup_loses_example =
    attach_sgroup_loses (answers refused) 0 0 (0 ∷ 1 ∷ []) store (pos 3) store-IsPlaced first_listed
      core_2_found (ground arith) (inr (ground arith))

store-IsSafe : IsSafe 0 (0 ∷ 1 ∷ []) store
store-IsSafe = record { placed = store-IsPlaced; exclusive = store-IsExclusive }

-- The instance 0 of group 0 reports, before a round of the scheduler.
abbrev cluster : Cluster
cluster = record { workers = ("node1", 0) ∷ []; dags = 0 ∷ []; node_name = λ n. "node1" }

abbrev report_of : World → Run (Option Error × World)
report_of w = instance_update_stats cluster.workers "node1" (pos 50052) 0 0 1000 w

abbrev after_report : World
after_report = elim (report_of store) [ returns r ↦ r.1 | panic ↦ store | hangs ↦ store ]

report_made : report_of store ≡ returns (none, after_report)
unfolding instance_update_stats named entry update_stats update_instance update_traffic_info measure
    with_max_rate max_rate sum_cycles
report_made = refl

Reach-IsSafe_example :
    IsSafe 0 (0 ∷ 1 ∷ []) (no_packing_schedule_once (answers accepted) 0 after_report)
Reach-IsSafe_example =
    Reach-IsSafe (answers accepted) cluster 0 (0 ∷ 1 ∷ []) store
      (no_packing_schedule_once (answers accepted) 0 after_report) (λ p h. h) store-IsSafe
      (next (next here (report "node1" (pos 50052) 0 0 1000 none after_report report_made)) round)

-- Fourteen idle reports and one more, with a busy one between them.
abbrev reports : List Sample
reports =
    let i : Sample = record { rate = 0; queue = 0 } in
    i ∷ i ∷ i ∷ i ∷ i ∷ i ∷ i ∷ i ∷ i ∷ i ∷ i ∷ i ∷ i ∷ i ∷ record { rate = 9; queue = 0 } ∷ i ∷ []

observe-idle_samples_example :
    (observe false reports (activate_sgroup (groups 0))).is_active
    ≡ ltb (idle_samples reports) min_idle_duration
observe-idle_samples_example = observe-idle_samples reports (groups 0)

find_available_sgroup-Choice_example :
    Choice
      (skips_low store)
      (skips_loaded store)
      (lower store)
      (0 ∷ 1 ∷ [])
      (find_available_sgroup store (store.dags 0))
find_available_sgroup-Choice_example = find_available_sgroup-Choice store (store.dags 0)

find_available_high_load_first-Choice_example :
    Choice
      (skips_high store)
      (skips_loaded store)
      (higher store)
      (0 ∷ 1 ∷ [])
      (find_available_high_load_first store (store.dags 0))
find_available_high_load_first-Choice_example =
    find_available_high_load_first-Choice store (store.dags 0)

get_free_of-Freed_example :
    Freed store (0 ∷ []) (get_free_of (0 ∷ []) store).0 (get_free_of (0 ∷ []) store).1
get_free_of-Freed_example = get_free_of-Freed (0 ∷ []) store

-- Two groups, by the order that is asked for.
abbrev sort_two : (ℕ → ℕ → Bool) → List ℕ → List ℕ
sort_two less [] = []
sort_two less (x ∷ []) = x ∷ []
sort_two less (x ∷ y ∷ xs) = if less x y then y ∷ x ∷ xs else x ∷ y ∷ xs

abbrev sorted : List ℕ
sorted = sort_two (slower store.sgroups) (store.workers 0).sgroups

schedule_once-IsScheduled_example :
    IsScheduled
      (answers accepted)
      (length (store.workers 0).cores)
      sorted
      (put_worker 0 (record (store.workers 0) { sgroups = sorted }) store)
      (schedule_once (answers accepted) sort_two 0 store)
schedule_once-IsScheduled_example = schedule_once-IsScheduled (answers accepted) sort_two 0 store

-- The second call succeeds.
call_instance-Tried_example :
    (r : Option Error × World) × (call_instance (answers accepted) (λ n. n == 1) 0 store
      ≡ returns r)
    × Tried (λ n. n == 1) 5 0 r.0 r.1.tick
call_instance-Tried_example = call_instance-Tried (answers accepted) (λ n. n == 1) 0 store refl
