-- ===== src/Controller/State.antt =====
-- The data of the package controller: Instance (controller/instance.go), SGroup
-- (controller/sgroup.go), Core (controller/core.go) and Worker (controller/worker.go), and the store
-- that their pointers lead into. A pointer is a number; nil is `none`.
-- Counters, rates, cycles and lengths are natural numbers; what the code sets to -1 is an integer.
use low_latency_faa_s.Prelude.{ℕ, String, Bool, List, Option, ◌==◌, if◌then◌else◌}
use low_latency_faa_s.Prelude.Int.{ℤ, pos, negsuc}
use low_latency_faa_s.Utils.IndexPool.{IndexPool}
use low_latency_faa_s.Controller.Dag.{Dag}

-- The `address` is the IP of the host and the port; `connected` says that the gRPC connection is not
-- nil; `attempt` is the counter of the backoff.
pub record Instance : Type 0 where
  pub func_type : String
  pub is_nf : Bool
  pub is_ingress : Bool
  pub is_egress : Bool
  pub port : ℤ
  pub host_ip : String
  pub pod_name : String
  pub sg : Option ℕ
  pub tid : ℤ
  pub profiled_cycle : ℕ
  pub cycle : ℕ
  pub inc_queue_length : ℕ
  pub pkt_rate_kpps : ℕ
  pub connected : Bool
  pub attempt : ℕ

-- `manager` and `instances` point to instances, `worker` to a worker, `dag` to a DAG.
pub record SGroup : Type 0 where
  pub manager : Option ℕ
  pub group_id : ℤ
  pub pcie_idx : ℤ
  pub is_complete : Bool
  pub is_ready : Bool
  pub is_active : Bool
  pub is_sched : Bool
  pub idle_sample_cnt : ℕ
  pub instances : List ℕ
  pub tids : List ℤ
  pub sum_cycles : ℕ
  pub batch_size : ℕ
  pub batch_count : ℕ
  pub inc_queue_length : ℕ
  pub inc_queue_capacity : ℕ
  pub out_queue_length : ℕ
  pub out_queue_capacity : ℕ
  pub pkt_rate_kpps : ℕ
  pub max_rate_kpps : ℕ
  pub worker : ℕ
  pub core_id : ℤ
  pub dag : Option ℕ

-- `sgroups` points to the groups that the core manages.
pub record Core : Type 0 where
  pub core_id : ℤ
  pub sgroups : List ℕ

-- `cores` is a map whose keys are the ids of its cores; `ins_startup_pool` a map from ports.
-- `sched_connected` says that the gRPC connection to CooperativeSched is not nil.
pub record Worker : Type 0 where
  pub name : String
  pub ip : String
  pub pcie : List String
  pub switch_port : ℕ
  pub sched : Option ℕ
  pub cores : List Core
  pub sgroups : List ℕ
  pub sgroup_conns : List ℤ
  pub sgroup_target : ℕ
  pub free_sgroups : List ℕ
  pub instance_port_pool : IndexPool
  pub pcie_pool : IndexPool
  pub ins_startup_pool : List (ℤ × ℕ)
  pub sched_connected : Bool

-- The variable controllerOption.
pub data Mode : Type 0 where
  faas metron other : Mode

-- The store, the two global variables, the next addresses for a new instance and a new group, and
-- the number of calls that have left the program so far.
pub record World : Type 0 where
  pub workers : ℕ → Worker
  pub sgroups : ℕ → SGroup
  pub instances : ℕ → Instance
  pub dags : ℕ → Dag
  pub next_instance : ℕ
  pub next_sgroup : ℕ
  pub mode : Mode
  pub support_queue_length : Bool
  pub tick : ℕ

-- The answer to a request: a zero code, another code, or an error of the transport.
pub data Reply : Type 0 where
  accepted refused failed : Reply

-- The environment: how the n-th call that leaves the program goes, whatever it is.
-- `core_order` is the order in which Go ranges over the keys of a map of cores.
-- `attempts` are the outcomes of the tries to create a deployment within its 20 seconds, of which there
-- is at least one; `dial_sched` those of the tries to connect with CooperativeSched within 30 seconds.
-- `batch_count` is the float expression of adjustBatchCount for a number of NFs, their sum of
-- cycles and a batch size.
pub record Env : Type 0 where
  pub dial : ℕ → Bool
  pub set_cycles : ℕ → Bool
  pub set_batch : ℕ → Bool
  pub setup_chain : ℕ → Reply
  pub attach_chain : ℕ → Reply
  pub detach_chain : ℕ → Reply
  pub attempts : ℕ → List Bool
  pub delete : ℕ → Bool
  pub deploy_sched : ℕ → Bool
  pub dial_sched : ℕ → List Bool
  pub kill_sched : ℕ → Reply
  pub core_order : ℕ → List ℤ → List ℤ
  pub batch_count : ℕ → ℕ → ℕ → ℕ

-- A write through a pointer.
abbrev pub update : {A : Type 0} → (ℕ → A) → ℕ → A → ℕ → A
update f p a q = if p == q then a else f q

abbrev pub put_worker : ℕ → Worker → World → World
put_worker p a w = record w { workers = update w.workers p a }

abbrev pub put_sgroup : ℕ → SGroup → World → World
put_sgroup p a w = record w { sgroups = update w.sgroups p a }

abbrev pub put_instance : ℕ → Instance → World → World
put_instance p a w = record w { instances = update w.instances p a }

abbrev pub put_dag : ℕ → Dag → World → World
put_dag p a w = record w { dags = update w.dags p a }

-- kFaaSInvalidCoreID and kFaaSIdleCoreID.
abbrev pub invalid_core_id : ℤ
invalid_core_id = negsuc 0

abbrev pub idle_core_id : ℤ
idle_core_id = pos 1
