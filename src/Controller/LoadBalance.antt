-- ===== src/Controller/LoadBalance.antt =====
-- controller/load_balance.go: which group serves a new flow.
-- The maps of workers and of DAGs are given as the lists of their values, in the order in which Go
-- ranges over them; a worker is also found by its name.
pub mod Selection
pub mod Free
pub mod Refusals
use low_latency_faa_s.Prelude.{
  ℕ, ◌+◌, ◌-◌, ◌%◌, ◌^◌, String, Bool, true, false, not, ◌&&◌, ◌||◌, List, [], ◌∷◌, ◌++◌, Option,
  none, some, ltb, ◌==◌, if◌then◌else◌, length, get_elem?, take,
}
use text.Mathlib.Text.{◌==◌ as str_eq}
use low_latency_faa_s.Prelude.Int.{ℤ, pos, negsuc, ltb_ℤ, pos_part}
use low_latency_faa_s.Go.{
  Error, unknown_flowlet, no_resources, Run, returns, panic, ◌>>=◌, or_panic,
}
use low_latency_faa_s.Controller.Flowlet.{Flow}
use low_latency_faa_s.Controller.Dag.{Dag, match_dag}
use low_latency_faa_s.Controller.State.{SGroup, Worker, World, put_worker}
use low_latency_faa_s.Controller.Traffic.{set_active, get_qload, get_pkt_load}

-- A loop of findAvailableSGroup: it skips groups, and replaces the selected one by a better one.
unfoldable pub select : (ℕ → Bool) → (ℕ → ℕ → Bool) → List ℕ → Option ℕ → Option ℕ
select skip better [] selected = selected
select skip better (p ∷ ps) selected = select skip better ps (
    if skip p
    then selected
    else elim selected [ none ↦ some p | some s ↦ if better s p then some p else some s ])

abbrev pub or_else : Option ℕ → Option ℕ → Option ℕ
or_else (some s) other = some s
or_else none other = other

module _ (w : World) where
  abbrev pub rate : ℕ → ℕ
  rate p = (w.sgroups p).pkt_rate_kpps

  -- The conditions on which the loops go on to the next group.
  abbrev pub skips_high : ℕ → Bool
  skips_high p =
      let sg = w.sgroups p in not sg.is_ready || (ltb 40 (get_qload sg) || ltb 80 (get_pkt_load sg))

  abbrev pub skips_low : ℕ → Bool
  skips_low p =
      let sg = w.sgroups p in not sg.is_ready || (ltb 40 (get_qload sg) && ltb 60 (get_pkt_load sg))

  abbrev pub skips_loaded : ℕ → Bool
  skips_loaded p = let sg = w.sgroups p in not sg.is_ready || ltb 80 (get_pkt_load sg)

  unfoldable pub find_available_sgroup : Dag → Option ℕ
  find_available_sgroup g =
      let better = λ (s p : ℕ). ltb (rate p) (rate s) in
      or_else (select skips_low better g.sgroups none) (select skips_loaded better g.sgroups none)

  unfoldable pub find_available_high_load_first : Dag → Option ℕ
  find_available_high_load_first g =
      let better = λ (s p : ℕ). ltb (rate s) (rate p) in
      or_else (select skips_high better g.sgroups none) (select skips_loaded better g.sgroups none)

-- DefaultDstMACs, indexed by a signed number.
abbrev pub default_dst_macs : List String
default_dst_macs =
    "00:00:00:00:00:01" ∷ "00:00:00:00:00:02" ∷ "00:00:00:00:00:03" ∷ "00:00:00:00:00:04"
    ∷ "00:00:00:00:00:05" ∷ "00:00:00:00:00:06" ∷ "00:00:00:00:00:07" ∷ "00:00:00:00:00:08"
    ∷ "00:00:00:00:00:09" ∷ "00:00:00:00:00:10" ∷ "00:00:00:00:00:11" ∷ "00:00:00:00:00:12"
    ∷ "00:00:00:00:00:13" ∷ "00:00:00:00:00:14" ∷ "00:00:00:00:00:15" ∷ []

unfoldable pub mac_of : ℤ → Run String
mac_of (pos n) = or_panic (get_elem? default_dst_macs n)
mac_of (negsuc n) = panic

-- The method getFreeSGroup of Worker: the last free group, which leaves the list.
unfoldable pub get_free_sgroup : ℕ → World → Option ℕ × World
get_free_sgroup wk w =
    let a = w.workers wk in
    let n = length a.free_sgroups in
    elim (get_elem? a.free_sgroups (n - 1)) [
      | none ↦ (none, w)
      | some p ↦ (some p, put_worker wk (record a { free_sgroups = take (n - 1) a.free_sgroups }) w)
    ]

-- And that of FaaSController, over the workers in order.
unfoldable pub get_free_of : List ℕ → World → Option ℕ × World
get_free_of [] w = (none, w)
get_free_of (wk ∷ wks) w =
    let (free, w₁) = get_free_sgroup wk w in
    elim free [ none ↦ get_free_of wks w | some p ↦ (some p, w₁) ]

unfoldable pub find_worker : String → List (String × ℕ) → Option ℕ
find_worker name [] = none
find_worker name ((n, wk) ∷ m) = if str_eq n name then some wk else find_worker name m

unfoldable pub find_match : (ℕ → Dag) → Flow → List ℕ → Option ℕ
find_match dags x [] = none
find_match dags x (d ∷ ds) =
    let rest = find_match dags x ds in if match_dag (dags d) x then some d else rest

-- What UpdateFlow gives back: the switch port, the MAC address and the error, and the call of
-- createSGroup, for a group and a DAG, that it starts on the side.
pub record Answer : Type 0 where
  pub port : ℕ
  pub mac : String
  pub error : Option Error
  pub started : Option (ℕ × ℕ)

abbrev pub refusal : Error → Answer
refusal e = record { port = 0; mac = "none"; error = some e; started = none }

-- The answer that sends the flow to the group `p`.
unfoldable pub send_to : ℕ → Option (ℕ × ℕ) → World → Run (Answer × World)
send_to p started w = do
  mac ← mac_of (w.sgroups p).pcie_idx
  returns (
    record {
      port = (w.workers (w.sgroups p).worker).switch_port;
      mac = mac;
      error = none;
      started = started;
    },
    w,
  )

-- A group that is not active becomes active.
abbrev pub wake : ℕ → World → World
wake p w = if (w.sgroups p).is_active then w else set_active p w

-- The controller: its workers by name, and its DAGs in the order of the range. `node_name` is
-- fmt.Sprintf("node%d", n).
pub record Cluster : Type 0 where
  pub workers : List (String × ℕ)
  pub dags : List ℕ
  pub node_name : ℕ → String

-- findAvailableSGroupOnIdleWorker: the subtraction is on uint32.
unfoldable pub find_on_idle_worker : Cluster → ℕ → World → Option ℕ
find_on_idle_worker c dst_port w =
    elim (find_worker (c.node_name ((dst_port + 2 ^ 32 - 999) % 2 ^ 32)) c.workers) [
      | none ↦ none
      | some wk ↦ get_elem? (w.workers wk).sgroups 0
    ]

unfoldable pub values : List (String × ℕ) → List ℕ
values [] = []
values ((_, v) ∷ m) = v ∷ values m

-- The part of UpdateFlow after the background traffic.
unfoldable pub serve_flow : Cluster → Flow → World → Run (Answer × World)
serve_flow c x w = elim (find_match w.dags x c.dags) [
  | none ↦ returns (refusal unknown_flowlet, w)
  | some d ↦
      if not (w.dags d).is_active
      then returns (refusal unknown_flowlet, w)
      else elim (find_available_high_load_first w (w.dags d)) [
        | some p ↦ send_to p none (wake p w)
        | none ↦
            let (free, w₁) = get_free_of (values c.workers) w in
            elim free [
              | some p ↦ send_to p (some (p, d)) w₁
              | none ↦ returns (refusal no_resources, w₁)
            ]
      ]
]

unfoldable pub update_flow : Cluster → Flow → World → Run (Answer × World)
update_flow c x w =
    if ltb x.dst_port 2000
    then elim (find_on_idle_worker c x.dst_port w) [
      | some p ↦ send_to p none (wake p w)
      | none ↦ serve_flow c x w
    ]
    else serve_flow c x w
