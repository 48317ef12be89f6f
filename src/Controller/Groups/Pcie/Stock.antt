-- ===== src/Controller/Groups/Pcie/Stock.antt =====
-- controller/background.go and controller/worker.go: the free groups that a worker makes, and their PCIe
-- indices.
use low_latency_faa_s.Prelude.{
  ℕ, suc, ◌≤◌, ◌<◌, ◌≡◌, refl, inl, inr, String, false, List, [], ◌∷◌, ◌++◌, arith, ◌==◌, length,
  get_elem?_cases,
}
use low_latency_faa_s.Prelude.Int.{ℤ, pos, negsuc}
use low_latency_faa_s.Prelude.Count.{count, count-first, count-later}
use low_latency_faa_s.Utils.MinHeap.Count.{count as ℤ_count, count-append as ℤ_count-append}
use low_latency_faa_s.Utils.MinHeap.Laws.{heap_push-Pushed, heap_pop-Popped}
use low_latency_faa_s.Utils.IndexPool.{IndexPool, size, get_next_available, free}
use low_latency_faa_s.Utils.IndexPool.Laws.{IsValid, in_range}
use low_latency_faa_s.Utils.IndexPool.History.{take, Step-IsShared}
use low_latency_faa_s.Go.{returns}
use low_latency_faa_s.Controller.State.{SGroup, Worker, World, update}
use low_latency_faa_s.Controller.Groups.{pcie_at, take_pcie}
use low_latency_faa_s.Controller.Groups.Ports.{update-same}
use low_latency_faa_s.Controller.Groups.Pcie.{indices, ArePcieShared}
use low_latency_faa_s.Controller.Groups.Rollback.{same_held}
use low_latency_faa_s.Controller.Groups.Pcie.Steady.{IsSteady}

abbrev pub groups_of : ℕ → World → List ℕ
groups_of wk w = (w.workers wk).free_sgroups ++ (w.workers wk).sgroups

-- Each device of the worker has its index in the pool, or with one group, or in `held`; and the groups
-- stand at addresses that are in use.
pub record IsStocked (wk : ℕ) (held : List ℤ) (w : World) : Type 0 where
  pub shared :
      ArePcieShared
        (pos 0)
        (length (w.workers wk).pcie)
        wk
        (indices w.sgroups (groups_of wk w) ++ held)
        w
  pub old : (p : ℕ) → 0 < count p (groups_of wk w) → p < w.next_sgroup

abbrev pub indices_left : ℕ → World → ℕ
indices_left wk w = size (w.workers wk).pcie_pool

pub pcie_at_found :
    (a : Worker) (x : ℤ)
    → 0 < in_range (pos 0) (length a.pcie) x
    → (d : String) × (pcie_at a x ≡ returns d)
pcie_at_found a (pos i) h = elim (get_elem?_cases a.pcie i) [
  | inl (_, (d, e)) ↦ (d, rw e refl)
  | inr (out, _) ↦ absurd (ground (arith, h, out))
]
pcie_at_found a (negsuc i) h = absurd (ground (arith, h))

pub indices-fresh :
    (f : ℕ → SGroup) (p : ℕ) (sg : SGroup) (ps : List ℕ)
    → ((q : ℕ) → 0 < count q ps → q < p)
    → indices (update f p sg) ps ≡ indices f ps
indices-fresh f p sg [] h = refl
indices-fresh f p sg (q ∷ ps) h =
    let other : (p == q) ≡ false = ground (arith, h q (count-first q ps)) in
    rw (other, indices-fresh f p sg ps (λ r l. h r (count-later q r ps l))) refl

size-get_next_available :
    (p : IndexPool) → IsValid p → 0 < size p → suc (size (get_next_available p).1) ≡ size p
unfolding get_next_available
size-get_next_available p v h = ground (arith, (heap_pop-Popped p.pool h v.heap).size)

pub size-free : (p : IndexPool) (i : ℤ) → IsValid p → size p ≤ size (free p i)
unfolding free
size-free p i v = ground (arith, (heap_push-Pushed p.pool i v.heap).size)

-- Only how often an index is held matters.
pub IsStocked-held :
    (wk : ℕ) (held held' : List ℤ) (w : World)
    → ((x : ℤ) → ℤ_count x held' ≡ ℤ_count x held)
    → IsStocked wk held w
    → IsStocked wk held' w
IsStocked-held wk held held' w e v = record {
  shared =
      let ixs = indices w.sgroups (groups_of wk w) in
      same_held (pos 0) (length (w.workers wk).pcie) _ (ixs ++ held) _
        (λ x. omega (arith, e x, ℤ_count-append x ixs held, ℤ_count-append x ixs held')) v.shared;
  old = v.old;
}

-- The index of a thread stands first among the shared ones.
pub held_first :
    (wk : ℕ) (idx : ℤ) (held : List ℤ) (w : World)
    → IsStocked wk (idx ∷ held) w
    → ArePcieShared
        (pos 0)
        (length (w.workers wk).pcie)
        wk
        (idx ∷ (indices w.sgroups (groups_of wk w) ++ held))
        w
unfolding ℤ_count
held_first wk idx held w v =
    let ixs = indices w.sgroups (groups_of wk w) in
    same_held (pos 0) (length (w.workers wk).pcie) _ (ixs ++ idx ∷ held) _
      (λ x. omega (arith, ℤ_count-append x ixs held, ℤ_count-append x ixs (idx ∷ held))) v.shared

pub take_pcie-IsStocked :
    (wk : ℕ) (held : List ℤ) (w : World)
    → IsStocked wk held w
    → 0 < indices_left wk w
    → IsStocked wk ((take_pcie wk w).0 ∷ held) (take_pcie wk w).1
unfolding take_pcie ℤ_count
take_pcie-IsStocked wk held w v h =
    let ixs = indices w.sgroups (groups_of wk w) in
    record {
      shared = rw (update-same w.workers wk _) (
          same_held (pos 0) (length (w.workers wk).pcie) _ (_ ∷ (ixs ++ held)) _
            (λ x. omega (arith, ℤ_count-append x ixs held, ℤ_count-append x ixs (_ ∷ held)))
            (Step-IsShared (pos 0) (length (w.workers wk).pcie) (take h) v.shared));
      old = rw (update-same w.workers wk _) v.old;
    }

pub indices_left-take :
    (wk : ℕ) (held : List ℤ) (w : World)
    → IsStocked wk held w
    → 0 < indices_left wk w
    → suc (indices_left wk (take_pcie wk w).1) ≡ indices_left wk w
unfolding take_pcie
indices_left-take wk held w v h =
    rw (update-same w.workers wk _)
      (size-get_next_available (w.workers wk).pcie_pool v.shared.valid h)

pub steady-IsStocked :
    (wk : ℕ) (held : List ℤ) (w w' : World)
    → IsSteady wk w w'
    → IsStocked wk held w
    → IsStocked wk held w'
steady-IsStocked wk held w w' s v = record {
  shared = rw (s.pool, s.frees, s.members, s.pcie, s.sgroups) v.shared;
  old = rw (s.frees, s.members, s.next) v.old;
}

-- An index that is held is that of a device.
pub held_device :
    (wk : ℕ) (held : List ℤ) (idx : ℤ) (w : World)
    → IsStocked wk held w
    → 0 < ℤ_count idx held
    → (d : String) × (pcie_at (w.workers wk) idx ≡ returns d)
held_device wk held idx w v h = pcie_at_found (w.workers wk) idx (
    ground
      (arith, v.shared.shared idx, ℤ_count-append idx (indices w.sgroups (groups_of wk w)) held, h))
