-- ===== src/Controller/Groups/Pcie/Factory.antt =====
-- controller/worker.go and controller/background.go: the PCIe indices of a new worker, and a createFreeSGroup with no
-- index left.
use low_latency_faa_s.Prelude.{ℕ, ◌≡◌, refl, String, true, List, [], arith, ◌==◌, length}
use low_latency_faa_s.Prelude.Int.{pos}
use low_latency_faa_s.Prelude.Count.{count}
use low_latency_faa_s.Utils.IndexPool.{get_next_available}
use low_latency_faa_s.Utils.IndexPool.History.{here, Reach-IsShared}
use low_latency_faa_s.Go.{panic}
use low_latency_faa_s.Controller.State.{World, Env, put_worker}
use low_latency_faa_s.Controller.Groups.{
  take_port, take_pcie, new_worker, create_instance, new_sgroup, create_free_sgroup,
}
use low_latency_faa_s.Controller.Groups.Ports.{update-same}
use low_latency_faa_s.Controller.Groups.Pcie.Stock.{IsStocked, indices_left}

-- NewWorker has the index of each of its devices in the pool, and no groups.
pub new_worker-IsStocked :
    (wk : ℕ) (name ip : String) (core_num_offset core_num : ℕ) (pcie : List String)
    (switch_port : ℕ) (w : World)
    → IsStocked wk []
        (put_worker wk (new_worker name ip core_num_offset core_num pcie switch_port) w)
unfolding new_worker count
new_worker-IsStocked wk name ip offset num pcie port w =
    let a = new_worker name ip offset num pcie port in
    record {
      shared = rw (update-same w.workers wk a) (Reach-IsShared (pos 0) (length a.pcie) here);
      old = rw (update-same w.workers wk a) (λ p h. absurd (omega (arith, h)));
    }

-- Where the worker's pool has no PCIe index left, createFreeSGroup panics: GetNextAvailable answers -1, and
-- this is taken for the index of a device.
pub create_free_sgroup_panics :
    (env : Env) (wk : ℕ) (w : World) → indices_left wk w ≡ 0 → create_free_sgroup env wk w ≡ panic
unfolding create_free_sgroup new_sgroup create_instance take_pcie take_port get_next_available
create_free_sgroup_panics env wk w h =
    let e : (indices_left wk w == 0) ≡ true = ground (arith, h) in rw e refl
