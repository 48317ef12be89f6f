-- ===== src/Controller/Traffic.antt =====
-- The traffic of a group (controller/sgroup.go) and of its instances (controller/instance.go).
pub mod Activity
use low_latency_faa_s.Prelude.{
  ℕ, ◌++◌, some, zero, suc, ◌+◌, ◌*◌, ◌/◌, ◌≤◌, Bool, true, false, not, ◌&&◌, ◌||◌, List, [], ◌∷◌,
  Option, none, some, ltb, leb, ◌==◌, if◌then◌else◌, length,
}
use low_latency_faa_s.Prelude.Int.{ℤ}
use low_latency_faa_s.Go.{Run, returns, panic, ◌>>=◌}
use low_latency_faa_s.Controller.State.{Instance, SGroup, World, put_sgroup, put_instance}

abbrev pub min_idle_duration : ℕ
min_idle_duration = 15

-- UpdateTrafficInfo of Instance.
unfoldable pub update_instance : ℕ → ℕ → ℕ → ℕ → World → World
update_instance i qlen kpps cycle w =
    put_instance i
      (record (w.instances i) { inc_queue_length = qlen; pkt_rate_kpps = kpps; cycle = cycle }) w

unfoldable pub sum_cycles : (ℕ → Instance) → List ℕ → ℕ
sum_cycles ins [] = 0
sum_cycles ins (i ∷ is) = (ins i).cycle + sum_cycles ins is

-- The packet rate that a core can serve: 1,700,000 kilocycles per second over the cycles of a packet,
-- with the context switches shared by the packets of an execution. A division by zero panics.
unfoldable pub max_rate : ℕ → ℕ → ℕ → Run ℕ
max_rate sum nf_count batch =
    if batch == 0 then panic else returns (1700000 / (sum + 5100 * (nf_count + 1) / batch))

-- The new maximal rate, where the cycles of the instances are known.
unfoldable pub with_max_rate : ℕ → ℕ → SGroup → Run SGroup
with_max_rate sum nf_count sg =
    if ltb 0 sum
    then (do
      rate ← max_rate sum nf_count (sg.batch_size * sg.batch_count)
      returns (record sg { max_rate_kpps = rate }))
    else returns sg

-- The first part of UpdateTrafficInfo of SGroup: what its instances `is` report.
unfoldable pub measure : (ℕ → Instance) → List ℕ → SGroup → Run SGroup
measure ins [] sg = returns sg
measure ins (first ∷ rest) sg =
    let sum = sum_cycles ins (first ∷ rest) in
    with_max_rate sum (length (first ∷ rest)) (record sg {
      inc_queue_length = (ins first).inc_queue_length;
      pkt_rate_kpps = (ins first).pkt_rate_kpps;
      sum_cycles = sum;
    })

-- The sample shows no traffic: a zero rate, and an empty queue where its length is known.
abbrev pub is_idle_sample : Bool → SGroup → Bool
is_idle_sample support sg = sg.pkt_rate_kpps == 0 && (not support || sg.inc_queue_length == 0)

-- The second part of UpdateTrafficInfo: whether the group is active.
unfoldable pub update_activity : Bool → SGroup → SGroup
update_activity support sg =
    let cnt = sg.idle_sample_cnt + 1 in
    if sg.is_active
    then (if is_idle_sample support sg
        then (if leb min_idle_duration cnt
            then record sg { idle_sample_cnt = cnt; is_active = false }
            else record sg { idle_sample_cnt = cnt })
        else sg)
    else if support && ltb 0 sg.inc_queue_length
    then record sg { is_active = true }
    else sg

unfoldable pub update_traffic_info : ℕ → World → Run World
update_traffic_info p w = do
  sg ← measure w.instances (w.sgroups p).instances (w.sgroups p)
  returns (put_sgroup p (update_activity w.support_queue_length sg) w)

abbrev pub activate_sgroup : SGroup → SGroup
activate_sgroup sg = record sg { is_active = true; idle_sample_cnt = 0 }

-- SetActive, SetSched and SetCoreID.
unfoldable pub set_active : ℕ → World → World
set_active p w = put_sgroup p (activate_sgroup (w.sgroups p)) w

unfoldable pub set_sched : ℕ → Bool → World → World
set_sched p b w = put_sgroup p (record (w.sgroups p) { is_sched = b }) w

unfoldable pub set_core_id : ℕ → ℤ → World → World
set_core_id p id w = put_sgroup p (record (w.sgroups p) { core_id = id }) w

-- In percent. The capacity is 4096 from newSGroup on, so GetQLoad does not divide by zero.
unfoldable pub get_qload : SGroup → ℕ
get_qload sg = 100 * sg.inc_queue_length / sg.inc_queue_capacity

unfoldable pub get_pkt_load : SGroup → ℕ
get_pkt_load sg = if sg.max_rate_kpps == 0 then 0 else 100 * sg.pkt_rate_kpps / sg.max_rate_kpps

-- The sums and counts of a worker (controller/worker.go). countPendingSGroups counts the ready groups.
unfoldable pub sum_pkt_load : (ℕ → SGroup) → List ℕ → ℕ
sum_pkt_load sgs [] = 0
sum_pkt_load sgs (p ∷ ps) = get_pkt_load (sgs p) + sum_pkt_load sgs ps

abbrev pub get_worker_pkt_load : ℕ → World → ℕ
get_worker_pkt_load wk w = sum_pkt_load w.sgroups (w.workers wk).sgroups

unfoldable pub count_ready : (ℕ → SGroup) → List ℕ → ℕ
count_ready sgs [] = 0
count_ready sgs (p ∷ ps) = (if (sgs p).is_ready then 1 else 0) + count_ready sgs ps

abbrev pub count_pending_sgroups : ℕ → World → ℕ
count_pending_sgroups wk w = count_ready w.sgroups (w.workers wk).sgroups

abbrev pub count_free_sgroups : ℕ → World → ℕ
count_free_sgroups wk w = length (w.workers wk).free_sgroups

-- AppendInstance of a group.
unfoldable pub append_instance : ℕ → ℕ → World → World
append_instance p i w =
    let sg = w.sgroups p in
    let w₁ = put_instance i (record (w.instances i) { sg = some p }) w in
    put_sgroup p (record sg { instances = sg.instances ++ i ∷ [] }) w₁
