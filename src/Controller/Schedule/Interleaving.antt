-- ===== src/Controller/Schedule/Interleaving.antt =====
-- controller/schedule.go: the rounds of ScheduleLoop of a worker, between which instances report their traffic
-- (controller/controller.go) and flows arrive (controller/load_balance.go), in any order.
pub mod Aside
pub mod Members
pub mod Reports
use low_latency_faa_s.Prelude.{ℕ, ◌<◌, ◌≡◌, ap, ◌∙◌, sym, subst, String, List, Option}
use low_latency_faa_s.Prelude.Int.{ℤ}
use low_latency_faa_s.Go.{Error, returns}
use low_latency_faa_s.Controller.Flowlet.{Flow}
use low_latency_faa_s.Controller.State.{World, Env}
use low_latency_faa_s.Controller.Core.Laws.{Within}
use low_latency_faa_s.Controller.Schedule.{no_packing_schedule_once}
use low_latency_faa_s.Controller.Schedule.Round.{
  IsSafe, SameCores-IsSafe, no_packing_schedule_once-IsSafe,
}
use low_latency_faa_s.Controller.Schedule.Interleaving.Aside.{members, IsAside, update_flow-IsAside}
use low_latency_faa_s.Controller.Schedule.Interleaving.Members.{turns-members}
use low_latency_faa_s.Controller.Schedule.Interleaving.Reports.{instance_update_stats-IsAside}
use low_latency_faa_s.Controller.LoadBalance.{Cluster, Answer, update_flow}
use low_latency_faa_s.Controller.Requests.{instance_update_stats}

module _ (env : Env) (c : Cluster) (wk : ℕ) where
  -- A round of the worker's scheduler, a report of an instance of any worker, or a flow.
  pub data Step (w : World) : World → Type 0 where
    round : Step w (no_packing_schedule_once env wk w)
    report :
        (node_name : String) (port : ℤ) (qlen kpps cycle : ℕ) (e : Option Error) (w' : World)
        → instance_update_stats c.workers node_name port qlen kpps cycle w ≡ returns (e, w')
        → Step w w'
    flow : (x : Flow) (a : Answer) (w' : World) → update_flow c x w ≡ returns (a, w') → Step w w'

  pub data Reach (w : World) : World → Type 0 where
    here : Reach w w
    next : {u v : World} → Reach w u → Step u v → Reach w v

  -- The placement, with a list of the worker's groups that it lies among.
  record IsKeptSafe (gs : List ℕ) (w : World) : Type 0 where
    safe : IsSafe wk gs w
    listed : Within (members wk w) gs

  aside-IsKeptSafe :
      (gs : List ℕ) (w w' : World) → IsAside w w' → IsKeptSafe gs w → IsKeptSafe gs w'
  aside-IsKeptSafe gs w w' a v = record {
    safe = SameCores-IsSafe wk gs w w' a.same v.safe;
    listed = subst (λ l. Within l gs) (sym (a.listed wk)) v.listed;
  }

  Step-IsKeptSafe : (gs : List ℕ) (w w' : World) → Step w w' → IsKeptSafe gs w → IsKeptSafe gs w'
  unfolding no_packing_schedule_once
  Step-IsKeptSafe gs w _ round v = record {
    safe = no_packing_schedule_once-IsSafe env wk gs w v.listed v.safe;
    listed =
        subst (λ l. Within l gs) (sym (turns-members env wk wk (w.workers wk).sgroups w)) v.listed;
  }
  Step-IsKeptSafe gs w _ (report node_name port qlen kpps cycle e w' h) v =
      aside-IsKeptSafe gs w w'
        (instance_update_stats-IsAside c.workers node_name port qlen kpps cycle w e w' h) v
  Step-IsKeptSafe gs w _ (flow x a w' h) v =
      aside-IsKeptSafe gs w w' (update_flow-IsAside c x w a w' h) v

  Reach-IsKeptSafe : (gs : List ℕ) (w w' : World) → Reach w w' → IsKeptSafe gs w → IsKeptSafe gs w'
  Reach-IsKeptSafe gs w _ here v = v
  Reach-IsKeptSafe gs w _ (next {u = u} {v = x} r s) v =
      Step-IsKeptSafe gs u x s (Reach-IsKeptSafe gs w u r v)

  -- Let gs be groups of the worker with different PCIe indices, and all the groups that the worker lists among them.
  -- From a world on where each core of the worker lists groups of gs only, each at most once and only one whose
  -- coreID is that core, no core has the ID -1, and no core but core 1 lists two groups, all this still holds after
  -- any sequence of rounds of noPackingScheduleOnce of the worker, reports of instances of any worker and flows, in
  -- any order, whatever CooperativeSched answers.
  pub Reach-IsSafe :
      (gs : List ℕ) (w w' : World)
      → Within (w.workers wk).sgroups gs
      → IsSafe wk gs w
      → Reach w w'
      → IsSafe wk gs w'
  Reach-IsSafe gs w w' h v r = (Reach-IsKeptSafe gs w w' r (record { safe = v; listed = h })).safe
