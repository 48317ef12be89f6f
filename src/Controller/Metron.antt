-- ===== src/Controller/Metron.antt =====
-- controller/metron.go: the start-up and the scaling of Metron. `draw n` is the n-th call of rand.Intn,
-- for the number of workers. `others k w` is what the other threads do in the k-th turn of a wait; a wait
-- for a new group makes at most `turns` turns in its 20 seconds.
pub mod Choice
use low_latency_faa_s.Prelude.{
  ℕ, zero, suc, ◌+◌, ◌%◌, String, Bool, true, false, List, [], ◌∷◌, ◌++◌, Option, none, some, ltb,
  ◌==◌, if◌then◌else◌, get_elem?, length,
}
use Prim.Native.String.{◌++◌ as str_append}
use low_latency_faa_s.Prelude.Int.{ℤ, pos}
use low_latency_faa_s.Go.{Run, returns, panic, hangs, ◌>>=◌, or_panic}
use low_latency_faa_s.Kubectl.Deploy.{itoa}
use low_latency_faa_s.Controller.State.{SGroup, Worker, World, Env}
use low_latency_faa_s.Controller.Core.{id_of, add_sgroup}
use low_latency_faa_s.Controller.Attach.{on_core}
use low_latency_faa_s.Controller.Schedule.{get_idle_core}
use low_latency_faa_s.Controller.Traffic.{get_pkt_load, get_worker_pkt_load, set_core_id}
use low_latency_faa_s.Controller.LoadBalance.{mac_of, get_free_sgroup}
use low_latency_faa_s.Controller.Requests.{named}
use low_latency_faa_s.Controller.Groups.Startup.{metron_create_sgroup}

-- A message to the OpenFlow controller: the ID of a group, the switch port of its worker and its MAC
-- address; the second one starts with the ID of the group that is split.
pub data Message : Type 0 where
  update_sgroup : ℤ → ℕ → String → Message
  update_and_split_sgroup : ℤ → ℤ → ℕ → String → Message

abbrev pub metron_is_overloaded : SGroup → Bool
metron_is_overloaded sg = ltb 80 (get_pkt_load sg)

-- The name of the worker at a drawn number.
abbrev pub node : ℕ → String
node r = str_append "node" (itoa (pos (1 + r)))

-- The draws of the second number until it is another one than the first, on fuel.
unfoldable pub draw_other : ℕ → (ℕ → ℕ) → ℕ → ℕ → Run ℕ
draw_other zero draw k first = hangs
draw_other (suc fuel) draw k first =
    let rest = draw_other fuel draw (k + 1) first in
    if draw k == first then rest else returns (draw k)

module _ (env : Env) (others : ℕ → World → World) where
  -- The free group goes to an idle core of its worker. With none, the code logs the name of the worker
  -- by a pointer that it has just set to nil.
  unfoldable pub place_free : Option ℕ → World → Run (Option ℕ × World)
  place_free none w = returns (none, w)
  place_free (some p) w =
      let wk = (w.sgroups p).worker in
      let (idle, w₁) = get_idle_core env wk w in
      elim idle as (λ x. Run (Option ℕ × World)) [
        | none ↦ panic
        | some id ↦
            let w₂ = set_core_id p id w₁ in
            returns (some p, on_core wk id (add_sgroup w₂.sgroups p) w₂)
      ]

  -- The free group of the worker with the smaller load of two that are drawn.
  unfoldable pub metron_get_free_sgroup :
      ℕ → (ℕ → ℕ) → List (String × ℕ) → World → Run (Option ℕ × World)
  metron_get_free_sgroup fuel draw workers w = do
    second ← draw_other fuel draw 1 (draw 0)
    wk₁ ← or_panic (named workers (node (draw 0)))
    wk₂ ← or_panic (named workers (node second))
    let wk = if ltb (get_worker_pkt_load wk₂ w) (get_worker_pkt_load wk₁ w) then wk₂ else wk₁
    place_free (get_free_sgroup wk w).0 (get_free_sgroup wk w).1

  -- The wait for a new group: if it is ready in time, then the message.
  unfoldable pub await_ready :
      ℕ → ℕ → ℕ → (World → Run Message) → World → Run (List Message × World)
  await_ready zero k p msg w = returns ([], w)
  await_ready (suc turns) k p msg w =
      let rest = await_ready turns (k + 1) p msg (others k w) in
      let sent : Run (List Message × World) = msg w >>= λ (m : Message). returns (m ∷ [], w) in
      if (w.sgroups p).is_ready then sent else rest

  abbrev pub switch_port_of : ℕ → World → ℕ
  switch_port_of p w = (w.workers (w.sgroups p).worker).switch_port

  -- The index of the MAC address is that of the group's device.
  unfoldable pub started : ℕ → World → Run Message
  started p w = mac_of (w.sgroups p).pcie_idx >>= λ (mac : String).
      returns (update_sgroup (id_of w.sgroups p) (switch_port_of p w) mac)

  unfoldable pub split : ℕ → ℕ → World → Run Message
  split p new w = mac_of (w.sgroups new).pcie_idx >>= λ (mac : String).
      returns (
        update_and_split_sgroup (id_of w.sgroups p) (id_of w.sgroups new) (switch_port_of new w)
          mac)

  module _ (fuel turns : ℕ) (draws : ℕ → ℕ → ℕ) (workers : List (String × ℕ)) where
    -- metronScaleUp: the new group is one like `p`. The draws are those of this call's time.
    unfoldable pub metron_scale_up : ℕ → World → Run (List Message × World)
    metron_scale_up p w =
        metron_get_free_sgroup fuel (draws w.tick) workers w >>= λ (r : Option ℕ × World).
        elim r.0 as (λ x. Run (List Message × World)) [
          | none ↦ returns ([], r.1)
          | some new ↦
              (metron_create_sgroup env others fuel (r.1.sgroups new).worker (some new)
                  (r.1.sgroups p).dag r.1
                >>= λ (w₁ : World). await_ready turns 0 new (split p new) w₁)
        ]

    -- The loop of metronProcessWorker over the groups `ps`: the IDs of the overloaded ones.
    unfoldable pub metron_process : List ℕ → World → Run (List ℤ × List Message × World)
    metron_process [] w = returns ([], [], w)
    metron_process (p ∷ ps) w =
        (elim (metron_is_overloaded (w.sgroups p)) as (λ x. Run (List ℤ × List Message × World)) [
          | true ↦
              (metron_scale_up p w >>= λ (r : List Message × World).
              returns ((w.sgroups p).group_id ∷ [], r.0, r.1))
          | false ↦ returns ([], [], w)
        ])
        >>= λ (a : List ℤ × List Message × World).
            metron_process ps a.2 >>= λ (b : List ℤ × List Message × World).
            returns (a.0 ++ b.0, a.1 ++ b.1, b.2)

    abbrev pub metron_process_worker : ℕ → World → Run (List ℤ × List Message × World)
    metron_process_worker wk w = metron_process (w.workers wk).sgroups w

    -- The inner loop of UpdatePort, over the workers.
    unfoldable pub process_port : ℕ → List ℕ → World → Run (List ℤ × List Message × World)
    process_port port [] w = returns ([], [], w)
    process_port port (wk ∷ wks) w =
        (elim ((w.workers wk).switch_port == port) as (λ x. Run (List ℤ × List Message × World)) [
          | true ↦ metron_process_worker wk w
          | false ↦ returns ([], [], w)
        ])
        >>= λ (a : List ℤ × List Message × World).
            process_port port wks a.2 >>= λ (b : List ℤ × List Message × World).
            returns (a.0 ++ b.0, a.1 ++ b.1, b.2)

    -- UpdatePort, which never reports an error.
    unfoldable pub update_port : List ℕ → List ℕ → World → Run (List ℤ × List Message × World)
    update_port wks [] w = returns ([], [], w)
    update_port wks (port ∷ ports) w =
        process_port port wks w >>= λ (a : List ℤ × List Message × World).
        update_port wks ports a.2 >>= λ (b : List ℤ × List Message × World).
        returns (a.0 ++ b.0, a.1 ++ b.1, b.2)

    -- One new group for the active DAG `d`.
    unfoldable pub start_dag : ℕ → World → Run (List Message × World)
    start_dag d w =
        metron_get_free_sgroup fuel (draws w.tick) workers w >>= λ (r : Option ℕ × World).
        elim r.0 as (λ x. Run (List Message × World)) [
          | none ↦ returns ([], r.1)
          | some p ↦
              (metron_create_sgroup env others fuel (r.1.sgroups p).worker (some p) (some d) r.1
                >>= λ (w₁ : World). await_ready turns 0 p (started p) w₁)
        ]

    -- metronStartUp; its threads are run one after the other.
    unfoldable pub metron_start_up : List ℕ → World → Run (List Message × World)
    metron_start_up [] w = returns ([], w)
    metron_start_up (d ∷ ds) w =
        (elim (w.dags d).is_active as (λ x. Run (List Message × World)) [
          | true ↦ start_dag d w
          | false ↦ returns ([], w)
        ])
        >>= λ (a : List Message × World).
            metron_start_up ds a.1 >>= λ (b : List Message × World). returns (a.0 ++ b.0, b.1)
