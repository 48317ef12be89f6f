-- ===== src/Controller/Lifecycle/SetUp.antt =====
-- controller/controller.go: InstanceSetUp, when the last instance of a group tells its thread's ID.
use low_latency_faa_s.Prelude.{ℕ, ◌<◌, ◌≡◌, refl, String, true, false, List, none, some}
use low_latency_faa_s.Prelude.Int.{ℤ}
use low_latency_faa_s.Go.{returns}
use low_latency_faa_s.Controller.State.{World, Env}
use low_latency_faa_s.Controller.Instance.{set_tid}
use low_latency_faa_s.Controller.Requests.{named}
use low_latency_faa_s.Controller.Groups.Ready.{
  all_up, add_conn, is_all_sgroups_connected, is_metron,
}
use low_latency_faa_s.Controller.Groups.Ready.Arrival.{
  AreOf, rounds, IsReadied, preprocess_before_ready-IsReadied,
}
use low_latency_faa_s.Controller.Lifecycle.{instance_at, instance_set_up}

module _ (env : Env) (others : ℕ → World → World) (p : ℕ)
    (keeps : (k : ℕ) (u : World) → (others k u).sgroups p ≡ u.sgroups p) where
  -- In a mode other than Metron, where the instance of a port of the worker is one of a complete group that is not
  -- ready, all instances of which belong to it and have their threads' IDs with this one, and where the other threads
  -- leave the group alone and bring the number of connected groups to its target within the fuel: InstanceSetUp comes
  -- back with no error, and the group is ready and scheduled on core 1, which lists a group with its ID if that core
  -- exists; the IDs of its instances' threads are added to its own, and its batch count is that of adjustBatchCount.
  pub instance_set_up-IsReadied :
      (fuel : ℕ) (workers : List (String × ℕ)) (node_name : String) (port tid : ℤ) (wk i : ℕ)
      (w : World)
      → named workers node_name ≡ some wk
      → instance_at wk port w ≡ some (i, some p)
      → is_metron env others w.mode ≡ false
      → (w.sgroups p).is_complete ≡ true
      → (w.sgroups p).is_ready ≡ false
      → all_up (set_tid i tid w).instances (w.sgroups p).instances ≡ true
      → AreOf p (set_tid i tid w).instances (w.sgroups p).instances
      → ((u : World)
          → u.workers ≡ (add_conn (w.sgroups p).worker (w.sgroups p).group_id w).workers
          → (j : ℕ) × (j < fuel)
            × (is_all_sgroups_connected (w.sgroups p).worker (rounds others j 0 u) ≡ true))
      → (w' : World) × (instance_set_up env others fuel workers node_name port tid w
          ≡ returns (none, w'))
        × IsReadied env others p (set_tid i tid w) w'
  unfolding instance_set_up set_tid
  instance_set_up-IsReadied fuel workers node_name port tid wk i w known at mode whole fresh up home
        arrives =
      let (w', e, r) =
        preprocess_before_ready-IsReadied env others p keeps fuel (set_tid i tid w) mode whole fresh
          up home arrives in
      (w', rw (known, instance_set_up) (rw (at, instance_set_up) (rw e refl)), r)
