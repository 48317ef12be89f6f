-- ===== src/Tests/Flows.antt =====
-- Concrete runs: controller/load_balance.go.
use low_latency_faa_s.Prelude.{ℕ, ◌<◌, ◌≡◌, refl, true, [], ◌∷◌, some}
use low_latency_faa_s.Prelude.Int.{pos}
use low_latency_faa_s.Prelude.Count.{count}
use low_latency_faa_s.Go.{no_resources, returns}
use low_latency_faa_s.Controller.Flowlet.{Flow, matches_flow}
use low_latency_faa_s.Controller.Dag.{new_dag, match_flowlets, match_dag}
use low_latency_faa_s.Controller.State.{World}
use low_latency_faa_s.Controller.Traffic.{get_qload, get_pkt_load}
use low_latency_faa_s.Controller.LoadBalance.{
  select, Cluster, refusal, find_match, find_available_high_load_first, get_free_sgroup,
  get_free_of, values, serve_flow, update_flow, skips_loaded,
}
use low_latency_faa_s.Controller.LoadBalance.Refusals.{update_flow_refuses}
use low_latency_faa_s.Tests.Workers.{group, node, store}

abbrev web : Flow
web = record {
  src_ip = "10.1.0.1";
  dst_ip = "10.1.0.2";
  src_port = 3000;
  dst_port = 8080;
  proto = 6;
}

-- One worker with no free group, and an active DAG whose two groups are at 90 percent.
abbrev full : World
full = record store {
  workers = λ p. record node { free_sgroups = [] };
  sgroups = λ p. group (pos p) (pos 2) true true 900;
  dags = λ p. record new_dag {
    flowlets = record { src_ip = ""; dst_ip = ""; src_port = 0; dst_port = 8080; proto = 6 } ∷ [];
    sgroups = 0 ∷ 1 ∷ [];
    is_active = true;
  };
}

abbrev cluster : Cluster
cluster = record { workers = ("node1", 0) ∷ []; dags = 0 ∷ []; node_name = λ n. "node" }

full_run : update_flow cluster web full ≡ returns (refusal no_resources, full)
unfolding update_flow serve_flow find_match match_dag match_flowlets matches_flow
    find_available_high_load_first select get_qload get_pkt_load get_free_of get_free_sgroup values
full_run = refl

update_flow_refuses_example :
    (d : ℕ) × (find_match full.dags web cluster.dags ≡ some d)
    × ((full.dags d).is_active ≡ true)
    × ((p : ℕ) → 0 < count p (full.dags d).sgroups → skips_loaded full p ≡ true)
    × ((wk : ℕ) → 0 < count wk (values cluster.workers) → (full.workers wk).free_sgroups ≡ [])
update_flow_refuses_example =
    update_flow_refuses cluster web full full (refusal no_resources) refl full_run refl
