-- ===== src/Controller/Requests.antt =====
-- controller/controller.go: the requests of users and of instances, with the method getSGroup of Worker
-- (controller/worker.go). The map of users gives the address of the user's DAG; a new DAG is put at the
-- next address, the number of users.
pub mod Users
use low_latency_faa_s.Prelude.{
  ℕ, ◌+◌, String, Bool, true, false, List, [], ◌∷◌, ◌++◌, Option, none, some, if◌then◌else◌, length,
}
use text.Mathlib.Text.{◌==◌ as str_eq}
use low_latency_faa_s.Prelude.Int.{ℤ}
use low_latency_faa_s.Go.{Error, no_user, no_worker, no_sgroup, Run, returns, panic, ◌>>=◌}
use low_latency_faa_s.Controller.Flowlet.{Flowlet}
use low_latency_faa_s.Controller.Dag.{Dag, new_dag, add_nf, add_dummy_nf, connect_nfs, add_flow}
use low_latency_faa_s.Controller.State.{Instance, Worker, World, Env, put_dag}
use low_latency_faa_s.Controller.Pool.{entry, first_with_id}
use low_latency_faa_s.Controller.Attach.{attach_sgroup, detach_sgroup}
use low_latency_faa_s.Controller.Traffic.{update_instance, update_traffic_info}

-- A map from names to addresses, by the first entry.
unfoldable pub named : List (String × ℕ) → String → Option ℕ
named [] name = none
named ((n, p) ∷ m) name = let rest = named m name in if str_eq n name then some p else rest

-- The DAG of a user, made first where there is none.
unfoldable pub dag_of : List (String × ℕ) → String → World → ℕ × List (String × ℕ) × World
dag_of users user w = elim (named users user) [
  | some d ↦ (d, users, w)
  | none ↦ let d = length users in (d, users ++ (user, d) ∷ [], put_dag d new_dag w)
]

-- A method that adds an NF, on the user's DAG.
unfoldable pub add_to_user :
    (Dag → ℕ × Dag) → List (String × ℕ) → String → World → ℕ × List (String × ℕ) × World
add_to_user add users user w =
    let (d, users₁, w₁) = dag_of users user w in
    let (id, g) = add (w₁.dags d) in (id, users₁, put_dag d g w₁)

abbrev pub add_nf_request :
    List (String × ℕ) → String → String → World → ℕ × List (String × ℕ) × World
add_nf_request users user func_type w = add_to_user (λ g. add_nf g func_type) users user w

abbrev pub add_dummy_nf_request :
    List (String × ℕ) → String → String → World → ℕ × List (String × ℕ) × World
add_dummy_nf_request users user func_type w =
    add_to_user (λ g. add_dummy_nf g func_type) users user w

unfoldable pub connect_nfs_request :
    List (String × ℕ) → String → ℤ → ℤ → World → Run (Option Error × World)
connect_nfs_request users user up_nf down_nf w = elim (named users user) [
  | none ↦ returns (some no_user, w)
  | some d ↦ connect_nfs (w.dags d) up_nf down_nf >>= λ r. returns (r.0, put_dag d r.1 w)
]

unfoldable pub add_flow_request :
    List (String × ℕ) → String → Flowlet → World → Option Error × World
add_flow_request users user f w = elim (named users user) [
  | none ↦ (some no_user, w)
  | some d ↦ (none, put_dag d (add_flow (w.dags d) f) w)
]

abbrev pub get_worker : List (String × ℕ) → String → Option ℕ
get_worker workers node_name = named workers node_name

unfoldable pub get_sgroup : ℕ → ℤ → World → Option ℕ
get_sgroup wk group_id w = first_with_id w.sgroups (w.workers wk).sgroups group_id

-- AttachSGroup and DetachSGroup do not check the pointer that getSGroup gives.
unfoldable pub attach_request :
    Env → List (String × ℕ) → String → ℤ → ℤ → World → Run (Option Error × World)
attach_request env workers node_name group_id core_id w = elim (named workers node_name) [
  | none ↦ returns (some no_worker, w)
  | some wk ↦ elim (get_sgroup wk group_id w) [
    | none ↦ panic
    | some p ↦ returns (attach_sgroup env p core_id w)
  ]
]

unfoldable pub detach_request :
    Env → List (String × ℕ) → String → ℤ → World → Run (Option Error × World)
detach_request env workers node_name group_id w = elim (named workers node_name) [
  | none ↦ returns (some no_worker, w)
  | some wk ↦ elim (get_sgroup wk group_id w) [
    | none ↦ panic
    | some p ↦ returns (detach_sgroup env p w)
  ]
]

-- The statistics of the instance `i`; those of its group `p` follow when it is the egress.
unfoldable pub update_stats : ℕ → ℕ → ℕ → ℕ → ℕ → World → Run (Option Error × World)
update_stats i p qlen kpps cycle w =
    let w₁ = update_instance i qlen kpps cycle w in
    if (w₁.instances i).is_egress
    then (update_traffic_info p w₁ >>= λ w₂. returns (none, w₂))
    else returns (none, w₁)

unfoldable pub instance_update_stats :
    List (String × ℕ) → String → ℤ → ℕ → ℕ → ℕ → World → Run (Option Error × World)
instance_update_stats workers node_name port qlen kpps cycle w = elim (named workers node_name) [
  | none ↦ returns (some no_worker, w)
  | some wk ↦ elim (entry (w.workers wk).ins_startup_pool port) [
    | none ↦ returns (some no_sgroup, w)
    | some i ↦ elim (w.instances i).sg [
      | none ↦ returns (some no_sgroup, w)
      | some p ↦ update_stats i p qlen kpps cycle w
    ]
  ]
]
