-- ===== src/Controller/Lifecycle/Start.antt =====
-- controller/controller.go: NewFaaSController, with faasInit and metronInit of controller/worker.go, over the
-- nodes that utils/cluster_info.go reads. It starts the threads of Factory for each worker, and comes back when those
-- that send the first messages have ended; the scheduler's rounds and those of the logger go on in the background.
pub mod Workers
pub mod Stocked
use low_latency_faa_s.Prelude.{
  ℕ, ◌-◌, ◌%◌, ◌^◌, String, Bool, false, true, List, [], ◌∷◌, if◌then◌else◌,
}
use low_latency_faa_s.Controller.State.{World, Mode, faas, metron, other, update}
use low_latency_faa_s.Controller.Lifecycle.{create_worker}
use low_latency_faa_s.Controller.Lifecycle.Factory.{Factory, Fleet, sending, ended}

-- ClusterNode: what the controller reads of a worker node.
pub record ClusterNode : Type 0 where
  pub name : String
  pub ip : String
  pub pcie : List String
  pub cores : ℕ
  pub switch_port : ℕ

-- The loop over the worker nodes. Core 0 is left to the scheduler: a node with one core or none gets no
-- cores. The port is cut to 32 bits.
unfoldable pub create_workers :
    List ClusterNode → List (String × ℕ) → World → List (String × ℕ) × World
create_workers [] workers w = (workers, w)
create_workers (n ∷ nodes) workers w =
    let (workers₁, w₁) =
      create_worker workers n.name n.ip 1 (n.cores - 1) n.pcie (n.switch_port % 2 ^ 32) w in
    create_workers nodes workers₁ w₁

abbrev pub idle_factory : Factory
idle_factory = record {
  channel = [];
  is_listening = false;
  started = 0;
  threads = [];
  init = ended;
}

-- faasInit and metronInit start RunFreeSGroupFactory; then NewFaaSController starts a thread for the worker, in which
-- createAllFreeSGroups sends two messages.
unfoldable pub new_factory : Mode → Factory
new_factory faas = record idle_factory { is_listening = true; init = sending 2 }
new_factory metron = record idle_factory { is_listening = true; init = sending 2 }
new_factory other = idle_factory

unfoldable pub init_workers : Mode → List (String × ℕ) → ℕ → Factory
init_workers mode [] = λ b. idle_factory
init_workers mode ((_, wk) ∷ workers) = update (init_workers mode workers) wk (new_factory mode)

-- NewFaaSController, up to the start of its threads. A test makes its free groups itself.
unfoldable pub new_faas_controller :
    Bool → Mode → List ClusterNode → World → List (String × ℕ) × Fleet
new_faas_controller is_test mode nodes w =
    let (workers, w₁) = create_workers nodes [] (record w { mode = mode }) in
    (
      workers,
      record {
        factories = if is_test then init_workers mode [] else init_workers mode workers;
        world = w₁;
      },
    )
