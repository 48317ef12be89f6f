-- ===== src/Controller/Lifecycle/Factory.antt =====
-- controller/background.go and controller/worker.go: RunFreeSGroupFactory of each worker and the threads of
-- createFreeSGroup that it starts and does not wait for, beside the threads of NewFaaSController, which send the
-- first messages. Any thread may take the next turn.
pub mod Supplied
pub mod Turns
use low_latency_faa_s.Prelude.{
  ℕ, zero, suc, ◌+◌, ◌≡◌, String, Bool, true, false, List, [], ◌∷◌, ◌++◌, Option, none, some,
  if◌then◌else◌,
}
use low_latency_faa_s.Prelude.Int.{ℤ}
use low_latency_faa_s.Go.{Run, returns, ◌>>=◌}
use low_latency_faa_s.Controller.State.{World, Mode, faas, metron, other, Env, update}
use low_latency_faa_s.Controller.Groups.{take_pcie, create_instance, settle_new, settle_free}
use low_latency_faa_s.Controller.Lifecycle.{create_sched}

-- FaaSOP.
pub data FaasOp : Type 0 where
  free_sgroup shutdown : FaasOp

-- How far a thread of createFreeSGroup with a PCIe index is: before the createInstance of newSGroup, or after it,
-- where it waits for the pod of its instance.
pub data Phase : Type 0 where
  drew : Phase
  deployed_as : Option ℕ → Phase

-- What the thread of NewFaaSController for a worker has to do: so many messages, and then createSched in FaaS mode.
pub data Init : Type 0 where
  sending : ℕ → Init
  ended : Init

-- The threads of a worker: the messages that are sent and not received, whether RunFreeSGroupFactory runs, the threads
-- of createFreeSGroup without and with an index, and that of NewFaaSController.
pub record Factory : Type 0 where
  pub channel : List FaasOp
  pub is_listening : Bool
  pub started : ℕ
  pub threads : List (ℤ × Phase)
  pub init : Init

pub record Fleet : Type 0 where
  pub factories : ℕ → Factory
  pub world : World

abbrev pub put_factory : ℕ → Factory → World → Fleet → Fleet
put_factory wk f w s = record { factories = update s.factories wk f; world = w }

unfoldable pub receive : FaasOp → List FaasOp → Factory → Factory
receive free_sgroup ops f = record f { channel = ops; started = f.started + 1 }
receive shutdown ops f = record f { channel = ops; is_listening = false }

-- A turn of the loop of RunFreeSGroupFactory; it has none while there is no message, and after a shutdown.
unfoldable pub run_free_sgroup_factory : Factory → Option Factory
run_free_sgroup_factory f =
    if f.is_listening
    then elim f.channel [ [] ↦ none | op ∷ ops ↦ some (receive op ops f) ]
    else none

-- One message of createAllFreeSGroups, with `n` to come. The channel has room for 64.
abbrev pub send_free_sgroup : ℕ → Factory → Factory
send_free_sgroup n f = record f { channel = f.channel ++ free_sgroup ∷ []; init = sending n }

module _ (env : Env) where
  abbrev pub sched_of : Mode → ℕ → World → World
  sched_of faas wk w = (create_sched env wk w).1
  sched_of metron wk w = w
  sched_of other wk w = w

  -- A turn of the thread of NewFaaSController for a worker: createAllFreeSGroups, and createSched, the errors of which
  -- are dropped.
  unfoldable pub init_turn : ℕ → Init → Factory → World → Option (Factory × World)
  init_turn wk ended f w = none
  init_turn wk (sending zero) f w = some (record f { init = ended }, sched_of w.mode wk w)
  init_turn wk (sending (suc n)) f w = some (send_free_sgroup n f, w)

  -- The three turns of createFreeSGroup: it draws an index, deploys, and ends.
  abbrev pub draw : ℕ → ℕ → Fleet → Fleet
  draw wk k s =
      let f = s.factories wk in
      let r = take_pcie wk s.world in
      put_factory wk (record f { started = k; threads = (r.0, drew) ∷ f.threads }) r.1 s

  unfoldable pub deploy : ℕ → List (ℤ × Phase) → ℤ → List (ℤ × Phase) → Fleet → Run Fleet
  deploy wk before idx after s =
      create_instance env wk ("prim" ∷ []) 0 idx true false false s.world
      >>= λ (r : Option ℕ × World). returns (
          put_factory wk
            (record (s.factories wk) { threads = before ++ (idx, deployed_as r.0) ∷ after }) r.1 s)

  abbrev pub settle : ℕ → List (ℤ × Phase) → ℤ → Option ℕ → List (ℤ × Phase) → Fleet → Fleet
  settle wk before idx i after s =
      put_factory wk (record (s.factories wk) { threads = before ++ after })
        (settle_free env wk idx (settle_new env wk idx (i, s.world))).1 s

  -- A turn of one of the threads of a worker; a panic of any of them is the program's.
  pub data Turn (s : Fleet) : Run Fleet → Type 0 where
    receives :
        (wk : ℕ) (f : Factory)
        → run_free_sgroup_factory (s.factories wk) ≡ some f
        → Turn s (returns (put_factory wk f s.world s))
    inits :
        (wk : ℕ) (f : Factory) (w : World)
        → init_turn wk (s.factories wk).init (s.factories wk) s.world ≡ some (f, w)
        → Turn s (returns (put_factory wk f w s))
    draws : (wk k : ℕ) → (s.factories wk).started ≡ suc k → Turn s (returns (draw wk k s))
    deploys :
        (wk : ℕ) (before : List (ℤ × Phase)) (idx : ℤ) (after : List (ℤ × Phase))
        → (s.factories wk).threads ≡ before ++ (idx, drew) ∷ after
        → Turn s (deploy wk before idx after s)
    settles :
        (wk : ℕ) (before : List (ℤ × Phase)) (idx : ℤ) (i : Option ℕ) (after : List (ℤ × Phase))
        → (s.factories wk).threads ≡ before ++ (idx, deployed_as i) ∷ after
        → Turn s (returns (settle wk before idx i after s))

  pub data Reach (s : Fleet) : Fleet → Type 0 where
    here : Reach s s
    next : {u v : Fleet} {r : Run Fleet} → Reach s u → Turn u r → r ≡ returns v → Reach s v
