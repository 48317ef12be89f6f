-- ===== src/Cli/Execute.antt =====
-- cli/executor.go: what Execute does to the controller for each command. What it prints is left out, and
-- so are the commands that only print; errors are printed and dropped. Close of the controller
-- (controller/controller.go) ends each worker and the logger.
use low_latency_faa_s.Prelude.{ℕ, String, List, [], ◌∷◌, Option}
use low_latency_faa_s.Prelude.Int.{pos}
use low_latency_faa_s.Go.{Error, Run, returns, ◌>>=◌}
use low_latency_faa_s.Controller.Flowlet.{Flowlet}
use low_latency_faa_s.Controller.State.{World, Env}
use low_latency_faa_s.Controller.LoadBalance.{Cluster, Answer, update_flow, values}
use low_latency_faa_s.Controller.Requests.{
  add_nf_request, add_dummy_nf_request, connect_nfs_request, add_flow_request, attach_request,
  detach_request,
}
use low_latency_faa_s.Controller.Lifecycle.{
  close_worker, create_sgroup_request, destroy_sgroup_request, set_cycles_request,
  set_batch_request, activate_dag,
}
use low_latency_faa_s.Cli.Parse.{
  Scenario, exp_a, exp_b, exp_c, Command, nothing, quit, pods, deps, nodes, usage, workers, add, rm,
  attach, detach, kubectl_rm, flow, deploy, connect, show, activate, exp, cycle, batch,
}

-- The controller as the command line sees it: the DAGs of the users, and the store.
pub record System : Type 0 where
  pub users : List (String × ℕ)
  pub world : World

-- The packets of an experiment have the destination port 8080.
abbrev pub exp_flow : Flowlet
exp_flow = record { src_ip = ""; dst_ip = ""; src_port = 0; dst_port = 8080; proto = 0 }

-- AddNF and AddDummyNF: the handle of the new NF.
abbrev pub adds_nf : String → String → System → ℕ × System
adds_nf user func_type s =
    let (id, users, w) = add_nf_request s.users user func_type s.world in
    (id, record { users = users; world = w })

abbrev pub adds_dummy_nf : String → String → System → ℕ × System
adds_dummy_nf user func_type s =
    let (id, users, w) = add_dummy_nf_request s.users user func_type s.world in
    (id, record { users = users; world = w })

unfoldable pub connects : String → ℕ → ℕ → System → Run System
connects user up down s =
    connect_nfs_request s.users user (pos up) (pos down) s.world >>= λ (r : Option Error × World).
    returns (record s { world = r.1 })

abbrev pub adds_flow : String → System → System
adds_flow user s = record s { world = (add_flow_request s.users user exp_flow s.world).1 }

-- The calls of an experiment that build its DAG.
unfoldable pub build_exp : Scenario → System → Run System
build_exp exp_a s =
    let (nf2, s₁) = adds_dummy_nf "exp-a" "acl" s in
    let (nf1, s₂) = adds_dummy_nf "exp-a" "vlanpush" s₁ in
    connects "exp-a" nf1 nf2 s₂ >>= λ (s₃ : System). returns (adds_flow "exp-a" s₃)
build_exp exp_b s =
    let (nf1, s₁) = adds_dummy_nf "exp-b" "acl" s in
    let (nf2, s₂) = adds_dummy_nf "exp-b" "urlfilter" s₁ in
    let (nf3, s₃) = adds_dummy_nf "exp-b" "chacha" s₂ in
    connects "exp-b" nf1 nf2 s₃ >>= λ (s₄ : System).
    connects "exp-b" nf2 nf3 s₄ >>= λ (s₅ : System). returns (adds_flow "exp-b" s₅)
build_exp exp_c s =
    let (nf1, s₁) = adds_dummy_nf "exp-c" "acl" s in
    let (nf2, s₂) = adds_nf "exp-c" "nat" s₁ in
    connects "exp-c" nf1 nf2 s₂ >>= λ (s₃ : System). returns (adds_flow "exp-c" s₃)

abbrev pub exp_user : Scenario → String
exp_user exp_a = "exp-a"
exp_user exp_b = "exp-b"
exp_user exp_c = "exp-c"

-- The threads of Close that end the workers, one after the other. Close itself returns at the first error that one
-- of them reports; here each of them runs to its end, and the error is dropped.
unfoldable pub close_workers : Env → List ℕ → World → World
close_workers env [] w = w
close_workers env (wk ∷ wks) w = close_workers env wks (close_worker env wk w).1

-- `private n` is an address for the DAG of a CreateSGroup at time n, which is no user's; `order` is the
-- order in which Go ranges over the NFs of a DAG; `metron_start` is metronStartUp.
module _ (env : Env) (others : ℕ → World → World) (fuel : ℕ) (order : List ℕ) (private : ℕ → ℕ)
    (cluster : Cluster) (metron_start : World → Run World) where
  -- The answer of a request leaves the store.
  abbrev pub keep : System → Run (Option Error × World) → Run System
  keep s r = r >>= λ (x : Option Error × World). returns (record s { world = x.1 })

  unfoldable pub activates : String → System → Run System
  activates user s = keep s (
      activate_dag env others fuel order s.users (values cluster.workers) metron_start user s.world)

  -- DeleteDeployment changes no state of the controller.
  unfoldable pub execute : Command → System → Run System
  execute quit s = returns (record s { world = close_workers env (values cluster.workers) s.world })
  execute (add node nf nfs) s = keep s (
      create_sgroup_request env others fuel order cluster.workers node (nf ∷ nfs)
        (private s.world.tick) s.world)
  execute (rm node id) s =
      returns (record s { world = (destroy_sgroup_request env cluster.workers node id s.world).1 })
  execute (attach node id core) s = keep s (attach_request env cluster.workers node id core s.world)
  execute (detach node id) s = keep s (detach_request env cluster.workers node id s.world)
  execute (flow x) s =
      update_flow cluster x s.world >>= λ (r : Answer × World). returns (record s { world = r.1 })
  execute (deploy user func_type) s = returns (adds_nf user func_type s).1
  execute (connect user up down) s = keep s (connect_nfs_request s.users user up down s.world)
  execute (activate user) s = activates user s
  execute (exp e) s = build_exp e s >>= λ (s₁ : System). activates (exp_user e) s₁
  execute (cycle node port cycles) s =
      keep s (set_cycles_request env cluster.workers node port s.world)
  execute (batch node port size number) s =
      keep s (set_batch_request env cluster.workers node port s.world)
  execute (kubectl_rm name) s = returns s
  execute (workers name) s = returns s
  execute (show user) s = returns s
  execute nothing s = returns s
  execute pods s = returns s
  execute deps s = returns s
  execute nodes s = returns s
  execute usage s = returns s
