-- ===== src/Controller/Instance.antt =====
-- controller/instance.go: the calls to an instance, each tried a number of times. A sleep between two
-- tries only counts up the instance's backoff. `env.set_cycles` and `env.set_batch` say that a call
-- succeeds, with an empty error message.
pub mod Trials
use low_latency_faa_s.Prelude.{
  ℕ, zero, suc, ◌+◌, ◌%◌, String, Bool, true, false, not, ◌&&◌, Option, none, some, if◌then◌else◌,
}
use text.Mathlib.Text.{◌==◌ as str_eq}
use low_latency_faa_s.Prelude.Int.{ℤ, negsuc}
use low_latency_faa_s.Go.{Error, trials_failed, Run, returns, panic, ◌>>=◌}
use low_latency_faa_s.Utils.Backoff.{u64}
use low_latency_faa_s.Controller.State.{Instance, SGroup, World, Env, put_instance, put_sgroup}

unfoldable pub new_instance : String → Bool → Bool → ℕ → String → ℤ → String → Instance
new_instance func_type ingress egress cycle_cost host_ip port pod_name = record {
  func_type = func_type;
  is_nf = not (str_eq func_type "prim") && not (str_eq func_type "sched");
  is_ingress = ingress;
  is_egress = egress;
  port = port;
  host_ip = host_ip;
  pod_name = pod_name;
  sg = none;
  tid = negsuc 0;
  profiled_cycle = cycle_cost;
  cycle = 0;
  inc_queue_length = 0;
  pkt_rate_kpps = 0;
  connected = false;
  attempt = 0;
}

unfoldable pub set_tid : ℕ → ℤ → World → World
set_tid i tid w = put_instance i (record (w.instances i) { tid = tid }) w

abbrev pub sleep : ℕ → World → World
sleep i w =
    let ins = w.instances i in put_instance i (record ins { attempt = (ins.attempt + 1) % u64 }) w

abbrev pub reset_backoff : ℕ → World → World
reset_backoff i w = put_instance i (record (w.instances i) { attempt = 0 }) w

abbrev pub max_rpc_conn_trials : ℕ
max_rpc_conn_trials = 3

abbrev pub max_rpc_call_trials : ℕ
max_rpc_call_trials = 5

-- A dial, which sets the connection.
abbrev pub dial : Env → ℕ → World → World
dial env i w =
    let w₁ = put_instance i (record (w.instances i) { connected = env.dial w.tick }) w in
    record w₁ { tick = w.tick + 1 }

-- A failed try is logged with the group of the instance, by a pointer that is not checked.
unfoldable pub connect_trials : Env → ℕ → ℕ → World → Run (Option Error × World)
connect_trials env zero i w = returns (some trials_failed, w)
connect_trials env (suc n) i w =
    let rest = connect_trials env n i (sleep i (dial env i w)) in
    if env.dial w.tick
    then returns (none, dial env i w)
    else elim (w.instances i).sg [ none ↦ panic | some _ ↦ rest ]

unfoldable pub connect : Env → ℕ → World → Run (Option Error × World)
connect env i w = connect_trials env max_rpc_conn_trials i (reset_backoff i w)

unfoldable pub call_trials : (ℕ → Bool) → ℕ → ℕ → World → Option Error × World
call_trials ok zero i w = (some trials_failed, w)
call_trials ok (suc n) i w =
    let w₁ = record w { tick = w.tick + 1 } in
    let rest = call_trials ok n i (sleep i w₁) in if ok w.tick then (none, w₁) else rest

-- The connection of setCycles and setBatch, and then their calls.
unfoldable pub call_instance : Env → (ℕ → Bool) → ℕ → World → Run (Option Error × World)
call_instance env ok i w =
    let calls = λ (w₁ : World). call_trials ok max_rpc_call_trials i (reset_backoff i w₁) in
    if (w.instances i).connected
    then returns (calls w)
    else (connect env i w >>= λ (r : Option Error × World). elim r.0 [
      | some e ↦ returns (some e, r.1)
      | none ↦ returns (calls r.1)
    ])

abbrev pub set_cycles : Env → ℕ → World → Run (Option Error × World)
set_cycles env i w = call_instance env env.set_cycles i w

abbrev pub set_batch : Env → ℕ → World → Run (Option Error × World)
set_batch env i w = call_instance env env.set_batch i w
