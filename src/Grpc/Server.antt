-- ===== src/Grpc/Server.antt =====
-- grpc/grpc_server.go: the handlers of the requests that reach the controller. A handler gives the reply
-- and the error of the call; `nil` is `none`. The text of an error is not modelled.
use low_latency_faa_s.Prelude.{ℕ, String, List, [], ◌∷◌, ◌++◌, Option, none, some}
use low_latency_faa_s.Prelude.Int.{ℤ}
use low_latency_faa_s.Go.{Error, Run, returns, ◌>>=◌}
use low_latency_faa_s.Controller.Flowlet.{Flow}
use low_latency_faa_s.Controller.State.{World, Env}
use low_latency_faa_s.Controller.LoadBalance.{Cluster, Answer, update_flow, values}
use low_latency_faa_s.Controller.Requests.{instance_update_stats}
use low_latency_faa_s.Controller.Lifecycle.{instance_set_up}
use low_latency_faa_s.Controller.Metron.{Message, update_port}

-- pb.FlowTableEntry.
pub record FlowTableEntry : Type 0 where
  pub switch_port : ℕ
  pub dmac : String

-- The handler UpdateFlow.
unfoldable pub entry_of : Answer → FlowTableEntry × Option Error
entry_of a = elim a.error [
  | some e ↦ (record { switch_port = 0; dmac = "none" }, some e)
  | none ↦ (record { switch_port = a.port; dmac = a.mac }, none)
]

unfoldable pub handle_update_flow :
    Cluster → Flow → World → Run ((FlowTableEntry × Option Error) × World)
handle_update_flow c x w = update_flow c x w >>= λ (r : Answer × World). returns (entry_of r.0, r.1)

-- The code of the pb.Error that goes with an error.
abbrev pub code_of : Option Error → ℕ
code_of none = 0
code_of (some e) = 1

-- The copy of the ports in the handler UpdatePort.
unfoldable pub copy_ports : List ℕ → List ℕ → List ℕ
copy_ports acc [] = acc
copy_ports acc (p ∷ ps) = copy_ports (acc ++ p ∷ []) ps

unfoldable pub reply_with : Option Error × World → (ℕ × Option Error) × World
reply_with (err, w) = ((code_of err, err), w)

module _ (env : Env) (others : ℕ → World → World) (fuel : ℕ) (workers : List (String × ℕ)) where
  -- The reply names the affected groups.
  unfoldable pub handle_update_port :
      ℕ → (ℕ → ℕ → ℕ) → List ℕ → World → Run (List ℤ × List Message × World)
  handle_update_port turns draws ports w =
      update_port env others fuel turns draws workers (values workers) (copy_ports [] ports) w

  unfoldable pub handle_instance_set_up : String → ℤ → ℤ → World → Run ((ℕ × Option Error) × World)
  handle_instance_set_up node_name port tid w =
      instance_set_up env others fuel workers node_name port tid w >>= λ (r : Option Error × World).
      returns (reply_with r)

  unfoldable pub handle_instance_update_stats :
      String → ℤ → ℕ → ℕ → ℕ → World → Run ((ℕ × Option Error) × World)
  handle_instance_update_stats node_name port qlen kpps cycle w =
      instance_update_stats workers node_name port qlen kpps cycle w
      >>= λ (r : Option Error × World). returns (reply_with r)
