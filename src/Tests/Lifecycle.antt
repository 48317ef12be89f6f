-- ===== src/Tests/Lifecycle.antt =====
-- Concrete runs: controller/background.go, controller/worker.go, controller/sgroup.go, controller/controller.go and
-- controller/metron.go.
use low_latency_faa_s.Prelude.{
  ℕ, ◌≤◌, ◌<◌, ◌≡◌, refl, String, true, false, List, [], ◌∷◌, none, some, arith, subst,
}
use low_latency_faa_s.Prelude.Int.{pos, ◌+ℤ◌}
use low_latency_faa_s.Prelude.Count.{count}
use low_latency_faa_s.Utils.MinHeap.{push_back, up, heap_init, heap_push}
use low_latency_faa_s.Utils.MinHeap.Count.{count as ℤ_count}
use low_latency_faa_s.Utils.IndexPool.{new_index_pool, push_range, size}
use low_latency_faa_s.Utils.IndexPool.History.{here, Reach-IsShared}
use low_latency_faa_s.Go.{Run, returns, panic, hangs}
use low_latency_faa_s.Controller.Dag.{Nf, new_dag}
use low_latency_faa_s.Controller.State.{World, accepted, put_worker, faas}
use low_latency_faa_s.Controller.Instance.{set_tid}
use low_latency_faa_s.Controller.Requests.{named}
use low_latency_faa_s.Controller.Pool.{entry}
use low_latency_faa_s.Controller.Groups.{
  new_worker, create_free_sgroup, destroy_sgroup, destroy_all_sgroups, destroy_all_free_sgroups,
}
use low_latency_faa_s.Controller.Groups.Ready.{all_up, add_conn, is_all_sgroups_connected}
use low_latency_faa_s.Controller.Groups.Ready.Arrival.{AreOf, rounds, IsReadied}
use low_latency_faa_s.Controller.Groups.Startup.{chain_of, create_sgroup}
use low_latency_faa_s.Controller.Groups.Rollback.{IsDeployed}
use low_latency_faa_s.Controller.Groups.Rollback.Outcome.{Startup, create_sgroup-Startup}
use low_latency_faa_s.Controller.Groups.Leftover.{IsLeft, destroy_sgroup_leaves}
use low_latency_faa_s.Controller.Groups.Pcie.{indices, ArePcieShared}
use low_latency_faa_s.Controller.Groups.Pcie.Stock.{IsStocked, indices_left}
use low_latency_faa_s.Controller.Groups.Pcie.Factory.{
  new_worker-IsStocked, create_free_sgroup_panics,
}
use low_latency_faa_s.Controller.Groups.Pcie.Release.{destroy_all-ArePcieShared}
use low_latency_faa_s.Controller.Lifecycle.{create_worker, instance_at, instance_set_up}
use low_latency_faa_s.Controller.Lifecycle.SetUp.{instance_set_up-IsReadied}
use low_latency_faa_s.Controller.Lifecycle.Factory.{
  FaasOp, free_sgroup, shutdown, Factory, Fleet, put_factory, receive, run_free_sgroup_factory,
  ended, send_free_sgroup, init_turn, draw, Turn, receives, inits, draws, Reach as Reach_turns,
  here as here_turn, next as next_turn,
}
use low_latency_faa_s.Controller.Lifecycle.Factory.Supplied.{requests, IsSupplied, AreSupplied}
use low_latency_faa_s.Controller.Lifecycle.Factory.Turns.{Reach-AreSupplied}
use low_latency_faa_s.Controller.Lifecycle.Start.{
  ClusterNode, create_workers, idle_factory, new_factory, init_workers, new_faas_controller,
}
use low_latency_faa_s.Controller.Lifecycle.Start.Workers.{AreProvided}
use low_latency_faa_s.Controller.Lifecycle.Start.Stocked.{AreUp, new_faas_controller-AreUp}
use low_latency_faa_s.Controller.Lifecycle.Retry.{IsFree, start_groups_hangs}
use low_latency_faa_s.Kubectl.Deploy.{create_tries}
use low_latency_faa_s.Go.{Error, deploy_failed}
use low_latency_faa_s.Controller.Traffic.{count_ready}
use low_latency_faa_s.Controller.Lifecycle.{start_groups}
use low_latency_faa_s.Controller.State.{Env}
use low_latency_faa_s.Controller.Groups.Pcie.Deployed.{IsLanded, create_sgroup-IsLanded}
use low_latency_faa_s.Prelude.{if◌then◌else◌, ◌==◌}
use low_latency_faa_s.Controller.Metron.{node as node_name, metron_get_free_sgroup}
use low_latency_faa_s.Controller.Metron.Choice.{metron_get_free_sgroup_hangs}
use low_latency_faa_s.Tests.Workers.{group, groups, node, store, answers}

-- Nothing else runs.
abbrev alone : ℕ → World → World
alone k w = w

-- A worker that has just come up, with two devices.
abbrev started : World
started = put_worker 0 (new_worker "node1" "10.0.0.1" 1 3 ("5e:02.0" ∷ "5e:02.1" ∷ []) 5) store

abbrev two_groups : List FaasOp
two_groups = free_sgroup ∷ free_sgroup ∷ shutdown ∷ []

two_left : requests two_groups ≤ indices_left 0 started
unfolding requests new_worker new_index_pool push_range heap_init heap_push push_back up ◌+ℤ◌
two_left = omega arith

-- RunFreeSGroupFactory of worker 0 runs, and three messages are sent.
abbrev busy : Factory
busy = record { channel = two_groups; is_listening = true; started = 0; threads = []; init = ended }

abbrev fleet : Fleet
fleet = record { factories = λ b. if b == 0 then busy else idle_factory; world = started }

fleet-AreSupplied : AreSupplied (0 ∷ []) fleet
unfolding count
fleet-AreSupplied = record {
  supplied = λ b l.
      let e : 0 ≡ b = ground (arith, l) in
      subst (λ c. IsSupplied c (fleet.factories c) started) e
        (record {
          stocked =
              new_worker-IsStocked 0 "node1" "10.0.0.1" 1 3 ("5e:02.0" ∷ "5e:02.1" ∷ []) 5 store;
          enough = omega (arith, two_left);
        });
  idle = λ b l.
      let e : (b == 0) ≡ false = ground (arith, l) in
      rw e (record { deaf = refl; unstarted = refl; without = refl; through = refl });
}

-- The factory takes the first message, and the new thread draws its index.
abbrev one_drawn : Fleet
one_drawn = draw (answers accepted) 0 0 (
    put_factory 0 (record busy { channel = free_sgroup ∷ shutdown ∷ []; started = 1 }) started
      fleet)

one_drawn-Reach : Reach_turns (answers accepted) fleet one_drawn
unfolding run_free_sgroup_factory receive
one_drawn-Reach = next_turn (next_turn here_turn (receives 0 _ refl) refl) (draws 0 0 refl) refl

Reach-AreSupplied_example :
    AreSupplied (0 ∷ []) one_drawn
    × ((r : Run Fleet) → Turn (answers accepted) one_drawn r → (u : Fleet) × (r ≡ returns u))
Reach-AreSupplied_example =
    Reach-AreSupplied (answers accepted) (0 ∷ []) fleet one_drawn fleet-AreSupplied one_drawn-Reach

create_free_sgroup_panics_example : create_free_sgroup (answers accepted) 0 store ≡ panic
create_free_sgroup_panics_example = create_free_sgroup_panics (answers accepted) 0 store refl

destroy_sgroup_leaves_example : IsLeft 0 0 store (destroy_sgroup (answers accepted) 0 0 store).1
destroy_sgroup_leaves_example = destroy_sgroup_leaves (answers accepted) 0 0 store

-- A worker with two devices: group 0 runs on the first, and group 1 is a free group on the second.
abbrev in_use : World
in_use =
    put_worker 0
      (record node { sgroups = 0 ∷ []; free_sgroups = 1 ∷ []; pcie = "5e:02.0" ∷ "5e:02.1" ∷ [] })
      store

in_use-ArePcieShared : ArePcieShared (pos 0) 2 0 (indices in_use.sgroups (1 ∷ 0 ∷ [])) in_use
unfolding ℤ_count
in_use-ArePcieShared = record {
  valid = record { heap = λ c p q r. absurd (omega (arith, q)); once = λ x. omega arith };
  shared = λ x. ground arith;
}

destroy_all-ArePcieShared_example :
    let w₁ =
      destroy_all_free_sgroups
        (answers accepted)
        0
        (destroy_all_sgroups (answers accepted) 0 in_use) in
    ArePcieShared (pos 0) 2 0 [] w₁
    × ((w₁.workers 0).free_sgroups ≡ [])
    × ((w₁.workers 0).sgroups ≡ [])
destroy_all-ArePcieShared_example =
    destroy_all-ArePcieShared (answers accepted) (pos 0) 2 0 (λ k. refl) [] in_use
      in_use-ArePcieShared

-- Group 2 is free, and DAG 0 is a chain of one NF.
abbrev nat : Nf
nat = record { id = 0; func_type = "nat"; cycles = 400; prev_nfs = []; next_nfs = [] }

abbrev ready_to_deploy : World
ready_to_deploy = record store {
  workers = λ p. record node {
    pcie = "5e:02.0" ∷ "5e:02.1" ∷ [];
    free_sgroups = [];
    instance_port_pool = new_index_pool (pos 50052) 2;
  };
  sgroups = λ p. record (group (pos 1) (pos 1) false false 0) { instances = []; tids = [] };
  dags = λ p. record new_dag { nf_map = nat ∷ []; chains = 0 ∷ [] };
}

nat_chain :
    chain_of
      (answers accepted)
      alone
      (ready_to_deploy.dags 0).nf_map
      (ready_to_deploy.dags 0).chains
    ≡ returns (nat ∷ [])
unfolding chain_of
nat_chain = refl

port_left : 1 ≤ size (new_index_pool (pos 50052) 2)
unfolding new_index_pool push_range heap_init heap_push push_back up ◌+ℤ◌
port_left = omega arith

bare-IsDeployed : IsDeployed (pos 50052) 2 0 2 [] ready_to_deploy
unfolding count
bare-IsDeployed = record {
  shared = Reach-IsShared (pos 50052) 2 here;
  unset = record {
    old = λ i h. absurd (omega (arith, h));
    tids = λ i h. absurd (omega (arith, h));
  };
  home = refl;
}

create_sgroup-Startup_example :
    Startup
      (pos 50052)
      2
      0
      2
      []
      (answers accepted)
      (λ k. refl)
      1
      0
      ready_to_deploy
      (create_sgroup (answers accepted) alone 1 0 2 0 ready_to_deploy)
create_sgroup-Startup_example =
    create_sgroup-Startup (pos 50052) 2 0 2 [] (answers accepted) (λ k. refl) alone 1 0 "5e:02.1"
      (nat ∷ []) ready_to_deploy nat_chain (omega arith) port_left refl refl bare-IsDeployed

-- The instance 0 of group 0 is to tell its thread's ID; no other group is waited for.
abbrev coming_up : World
coming_up = record store {
  workers = λ p. record node { sgroup_target = 1; ins_startup_pool = (pos 50052, 0) ∷ [] };
  sgroups = λ p. record (group (pos 0) (pos 2) false false 0) { is_ready = false; tids = [] };
}

abbrev node_names : List (String × ℕ)
node_names = ("node1", 0) ∷ ("node2", 1) ∷ []

node_1_named : named node_names "node1" ≡ some 0
unfolding named
node_1_named = refl

instance_0_at : instance_at 0 (pos 50052) coming_up ≡ some (0, some 0)
unfolding instance_at entry
instance_0_at = refl

all_up_then : all_up (set_tid 0 (pos 12) coming_up).instances (0 ∷ []) ≡ true
unfolding all_up set_tid
all_up_then = refl

all_at_home : AreOf 0 (set_tid 0 (pos 12) coming_up).instances (0 ∷ [])
unfolding set_tid
all_at_home i h = ground arith

target_met :
    (u : World)
    → u.workers ≡ (add_conn 0 (pos 0) coming_up).workers
    → (j : ℕ) × (j < 1) × (is_all_sgroups_connected 0 (rounds alone j 0 u) ≡ true)
unfolding is_all_sgroups_connected rounds
target_met u e = (0, omega arith, rw e refl)

instance_set_up-IsReadied_example :
    (w' : World) × (instance_set_up
        (answers accepted)
        alone
        1
        node_names
        "node1"
        (pos 50052)
        (pos 12)
        coming_up
      ≡ returns (none, w'))
    × IsReadied (answers accepted) alone 0 (set_tid 0 (pos 12) coming_up) w'
instance_set_up-IsReadied_example =
    instance_set_up-IsReadied (answers accepted) alone 0 (λ k u. refl) 1 node_names "node1"
      (pos 50052) (pos 12) 0 0 coming_up node_1_named instance_0_at refl refl refl all_up_then
      all_at_home target_met

-- With one worker, rand.Intn always gives 0.
metron_get_free_sgroup_hangs_example :
    metron_get_free_sgroup (answers accepted) alone 9 (λ k. 0) (("node1", 0) ∷ []) store ≡ hangs
metron_get_free_sgroup_hangs_example =
    metron_get_free_sgroup_hangs (answers accepted) alone 9 (λ k. 0) (("node1", 0) ∷ []) store
      (λ k. refl)

-- Two nodes, the first of which lists no devices, and so has the default ones.
abbrev cluster : List ClusterNode
cluster =
    record { name = "node1"; ip = "10.0.0.1"; pcie = []; cores = 20; switch_port = 5 }
    ∷ record {
      name = "node2";
      ip = "10.0.0.2";
      pcie = "5e:02.0" ∷ "5e:02.1" ∷ [];
      cores = 8;
      switch_port = 7;
    }
    ∷ []

cluster-AreProvided : AreProvided cluster
cluster-AreProvided = (λ e. ground (arith, e), ((λ e. ground (arith, e)), tt))

abbrev begun : Fleet
begun = (new_faas_controller false faas cluster store).1

-- The thread for the first worker sends its first message.
abbrev one_sent : Fleet
one_sent = put_factory 0 (send_free_sgroup 1 (begun.factories 0)) begun.world begun

one_sent-Reach : Reach_turns (answers accepted) begun one_sent
unfolding new_faas_controller create_workers create_worker named init_workers new_factory init_turn
one_sent-Reach = next_turn here_turn (inits 0 _ _ refl) refl

new_faas_controller-AreUp_example :
    AreUp cluster (new_faas_controller false faas cluster store).0 one_sent
    × ((r : Run Fleet) → Turn (answers accepted) one_sent r → (u : Fleet) × (r ≡ returns u))
new_faas_controller-AreUp_example =
    new_faas_controller-AreUp (answers accepted) false faas cluster store one_sent
      cluster-AreProvided one_sent-Reach

-- Kubernetes refuses every deployment, and group 2 is the last free one.
abbrev refusing : Env
refusing = record (answers accepted) { attempts = λ n. false ∷ false ∷ [] }

abbrev retried : World
retried = record ready_to_deploy {
  workers = λ p. record (ready_to_deploy.workers p) { free_sgroups = 3 ∷ 2 ∷ [] };
}

all_fail : (k : ℕ) → (e : Error) × (create_tries none (refusing.attempts k) ≡ some e)
unfolding create_tries
all_fail k = (deploy_failed, refl)

retried-IsFree : IsFree refusing alone 0 0 2 (3 ∷ []) "5e:02.1" nat [] retried
unfolding chain_of count_ready
retried-IsFree = record {
  frees = refl;
  bare = refl;
  home = refl;
  device = refl;
  chain = refl;
  few = omega arith;
}

start_groups_hangs_example : start_groups refusing alone 30 0 0 retried ≡ hangs
start_groups_hangs_example =
    start_groups_hangs refusing alone 0 0 2 (3 ∷ []) "5e:02.1" nat [] all_fail 30 retried
      retried-IsFree

-- Group 1 was taken off the free groups, and group 0 runs.
abbrev lent : World
lent = record store {
  workers =
      λ p. record node { sgroups = 0 ∷ []; free_sgroups = []; pcie = "5e:02.0" ∷ "5e:02.1" ∷ [] };
  sgroups = λ p. if p == 0 then groups 0 else record (groups 1) { instances = []; tids = [] };
  dags = λ p. record new_dag { nf_map = nat ∷ []; chains = 0 ∷ [] };
}

lent-IsStocked : IsStocked 0 (pos 1 ∷ []) lent
unfolding ℤ_count count
lent-IsStocked = record {
  shared = record {
    valid = record { heap = λ c p q r. absurd (omega (arith, q)); once = λ x. omega arith };
    shared = λ x. ground arith;
  };
  old = λ p h. ground (arith, h);
}

create_sgroup-IsLanded_example :
    (w' : World) × (create_sgroup (answers accepted) alone 1 0 1 0 lent ≡ returns w')
    × IsLanded (answers accepted) alone 0 1 [] lent w'
create_sgroup-IsLanded_example =
    create_sgroup-IsLanded (answers accepted) alone 0 1 [] 1 0 (nat ∷ []) lent nat_chain
      (omega arith) refl (omega arith) lent-IsStocked
