-- ===== src/Controller/Groups/Ready.antt =====
-- controller/sgroup.go: preprocessBeforeReady, by which a complete group becomes ready.
-- `others k w` is what the other threads do while the k-th sleep of the wait for the other groups lasts.
pub mod Calls
pub mod Arrival
pub mod Notify
use low_latency_faa_s.Prelude.{
  ℕ, zero, suc, ◌+◌, Bool, true, false, not, ◌||◌, List, [], ◌∷◌, ◌++◌, map, Option, ◌==◌,
  if◌then◌else◌, length,
}
use text.Mathlib.Text.{◌==◌ as str_eq}
use low_latency_faa_s.Prelude.Int.{ℤ, pos, negsuc}
use low_latency_faa_s.Utils.MinHeap.{equal}
use low_latency_faa_s.Go.{Error, Run, returns, hangs, ◌>>=◌}
use low_latency_faa_s.Controller.State.{
  Instance, World, Mode, Env, faas, metron, other, put_worker, put_sgroup, idle_core_id,
}
use low_latency_faa_s.Controller.Core.{add_sgroup}
use low_latency_faa_s.Controller.Instance.{set_cycles, set_batch}
use low_latency_faa_s.Controller.Attach.{request, on_core}

-- Whether each instance has told its thread's id.
unfoldable pub all_up : (ℕ → Instance) → List ℕ → Bool
all_up ins [] = true
all_up ins (i ∷ is) =
    let rest = all_up ins is in if equal (ins i).tid (negsuc 0) then false else rest

abbrev pub tids_of : (ℕ → Instance) → List ℕ → List ℤ
tids_of ins is = map (λ i. (ins i).tid) is

unfoldable pub sum_profiled : (ℕ → Instance) → List ℕ → ℕ
sum_profiled ins [] = 0
sum_profiled ins (i ∷ is) = (ins i).profiled_cycle + sum_profiled ins is

unfoldable pub is_all_sgroups_connected : ℕ → World → Bool
is_all_sgroups_connected wk w = let a = w.workers wk in length a.sgroup_conns == a.sgroup_target

unfoldable pub add_tids : ℕ → World → World
add_tids p w =
    let sg = w.sgroups p in
    put_sgroup p (record sg { tids = sg.tids ++ tids_of w.instances sg.instances }) w

unfoldable pub mark_ready : Mode → ℕ → World → World
mark_ready metron p w =
    put_sgroup p (record (w.sgroups p) { is_ready = true; is_active = true; is_sched = true }) w
mark_ready _ p w =
    put_sgroup p (record (w.sgroups p) { core_id = pos 1; is_ready = true; is_sched = true }) w

abbrev pub add_conn : ℕ → ℤ → World → World
add_conn wk id w =
    let a = w.workers wk in put_worker wk (record a { sgroup_conns = a.sgroup_conns ++ id ∷ [] }) w

module _ (env : Env) (others : ℕ → World → World) where
  -- The loop of adjustRuntimeConfig; errors are only logged.
  unfoldable pub adjust_cycles : List ℕ → World → Run World
  adjust_cycles [] w = returns w
  adjust_cycles (i ∷ is) w =
      let ins = w.instances i in
      (elim (str_eq ins.func_type "bypass") as (λ x. Run World) [
        | true ↦ (set_cycles env i w >>= λ (r : Option Error × World). returns r.1)
        | false ↦ returns w
      ])
      >>= λ (w₁ : World). adjust_cycles is w₁

  abbrev pub adjust_runtime_config : ℕ → World → Run World
  adjust_runtime_config p w = adjust_cycles (w.sgroups p).instances w

  unfoldable pub set_batches : List ℕ → World → Run World
  set_batches [] w = returns w
  set_batches (i ∷ is) w = set_batch env i w >>= λ (r : Option Error × World). set_batches is r.1

  abbrev pub with_batch_count : ℕ → World → World
  with_batch_count p w =
      let sg = w.sgroups p in
      let cnt =
        env.batch_count (length sg.instances) (sum_profiled w.instances sg.instances)
          sg.batch_size in
      put_sgroup p (record sg { batch_count = cnt }) w

  unfoldable pub adjust_batch_count : ℕ → World → Run World
  adjust_batch_count p w = set_batches (w.sgroups p).instances (with_batch_count p w)

  -- The wait for the other groups of the worker, on fuel for its rounds.
  unfoldable pub wait_connected : ℕ → ℕ → ℕ → World → Run World
  wait_connected zero k wk w = hangs
  wait_connected (suc fuel) k wk w =
      let rest = wait_connected fuel (k + 1) wk (others k w) in
      if is_all_sgroups_connected wk w then returns w else rest

  -- The requests to CooperativeSched and the part after them. Failures are only logged; a core that is
  -- not there is skipped.
  unfoldable pub notify : ℕ → World → World
  notify p w =
      let wk = (w.sgroups p).worker in
      let w₁ = (request env.setup_chain wk w).1 in
      let w₂ = (request env.attach_chain wk w₁).1 in
      mark_ready faas p (on_core wk idle_core_id (add_sgroup w₂.sgroups p) w₂)

  -- What a group with all its threads does before it is ready.
  unfoldable pub connect_sgroup : ℕ → ℕ → World → Run World
  connect_sgroup fuel p w = do
    w₁ ← adjust_batch_count p w
    w₂ ←
        wait_connected fuel 0 (w₁.sgroups p).worker
          (add_conn (w₁.sgroups p).worker (w₁.sgroups p).group_id w₁)
    returns (notify p w₂)

  abbrev pub is_metron : Mode → Bool
  is_metron metron = true
  is_metron faas = false
  is_metron other = false

  unfoldable pub preprocess_before_ready : ℕ → ℕ → World → Run World
  preprocess_before_ready fuel p w =
      let sg = w.sgroups p in
      let up : Run World = adjust_runtime_config p (add_tids p w) >>= λ (w₁ : World).
      elim (is_metron w.mode) as (λ x. Run World) [
        | true ↦ returns (mark_ready metron p w₁)
        | false ↦ connect_sgroup fuel p w₁
      ] in
      if not sg.is_complete || sg.is_ready
      then returns w
      else if all_up w.instances sg.instances
      then up
      else returns w
