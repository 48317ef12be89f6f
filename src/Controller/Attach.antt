-- ===== src/Controller/Attach.antt =====
-- Moving a group between cores: attachSGroup and detachSGroup of Worker (controller/worker.go) and
-- of SGroup (controller/sgroup.go), over AttachChain and DetachChain (grpc/scheduler.go).
pub mod Placement
pub mod Moves
pub mod Safety
pub mod Failure
use low_latency_faa_s.Prelude.{
  ℕ, ◌+◌, Bool, true, false, not, ◌&&◌, List, Option, none, some, if◌then◌else◌,
}
use low_latency_faa_s.Prelude.Int.{ℤ}
use low_latency_faa_s.Utils.MinHeap.{equal}
use low_latency_faa_s.Go.{
  Error, core_not_found, not_running, no_connection, rpc_failed, rpc_refused,
}
use low_latency_faa_s.Controller.State.{
  SGroup, Core, Worker, World, Env, Reply, accepted, refused, failed, put_worker, put_sgroup,
  invalid_core_id,
}
use low_latency_faa_s.Controller.Core.{add_sgroup, remove_sgroup, find_core, modify_core}

-- A call of a method of a core of the worker.
abbrev pub on_core : ℕ → ℤ → (Core → Core) → World → World
on_core wk id f w =
    let a = w.workers wk in put_worker wk (record a { cores = modify_core id f a.cores }) w

-- A request to CooperativeSched; the handler fails at once where there is no connection.
abbrev pub request : (ℕ → Reply) → ℕ → World → Reply × World
request replies wk w =
    if (w.workers wk).sched_connected
    then (replies w.tick, record w { tick = w.tick + 1 })
    else (failed, w)

abbrev pub reply_error : Reply → Option Error
reply_error accepted = none
reply_error refused = some rpc_refused
reply_error failed = some rpc_failed

-- The first part of Worker.attachSGroup: off the previous core, if there is one. `none` says that
-- this core is not among the cores of the worker.
unfoldable pub take_off : ℕ → ℕ → World → Option World
take_off wk p w =
    let prev = (w.sgroups p).core_id in
    if equal prev invalid_core_id then some w else elim (find_core prev (w.workers wk).cores) [
      | none ↦ none
      | some _ ↦ some (on_core wk prev (remove_sgroup w.sgroups p) w)
    ]

-- The last part of Worker.attachSGroup.
unfoldable pub put_on : ℕ → ℕ → ℤ → World → Option Error × World
put_on wk p id w = elim (find_core id (w.workers wk).cores) [
  | none ↦ (some core_not_found, w)
  | some _ ↦ (none, on_core wk id (add_sgroup w.sgroups p) w)
]

-- The rest of SGroup.attachSGroup and SGroup.detachSGroup, after the call of the worker's method.
unfoldable pub settle_attach : ℕ → ℤ → Option Error × World → Option Error × World
settle_attach p id (some e, w) = (some e, w)
settle_attach p id (none, w) =
    (none, put_sgroup p (record (w.sgroups p) { core_id = id; is_sched = true }) w)

unfoldable pub settle_detach : ℕ → Option Error × World → Option Error × World
settle_detach p (some e, w) = (some e, w)
settle_detach p (none, w) = (none, put_sgroup p (record (w.sgroups p) { is_sched = false }) w)

module _ (env : Env) where
  unfoldable pub worker_attach : ℕ → ℕ → ℤ → World → Option Error × World
  worker_attach wk p id w = elim (take_off wk p w) [
    | none ↦ (some core_not_found, w)
    | some w₁ ↦
        let (reply, w₂) = request env.attach_chain wk w₁ in
        elim (reply_error reply) [ some e ↦ (some e, w₂) | none ↦ put_on wk p id w₂ ]
  ]

  unfoldable pub worker_detach : ℕ → World → Option Error × World
  worker_detach wk w = let (reply, w₁) = request env.detach_chain wk w in (reply_error reply, w₁)

  unfoldable pub attach_sgroup : ℕ → ℤ → World → Option Error × World
  attach_sgroup p id w =
      let sg = w.sgroups p in
      if equal sg.core_id id && sg.is_sched
      then (none, w)
      else settle_attach p id (worker_attach sg.worker p id w)

  unfoldable pub detach_sgroup : ℕ → World → Option Error × World
  detach_sgroup p w =
      let sg = w.sgroups p in
      if equal sg.core_id invalid_core_id
      then (some not_running, w)
      else if not sg.is_sched
      then (none, w)
      else settle_detach p (worker_detach sg.worker w)
