-- ===== src/Controller/Lifecycle/Start/Workers.antt =====
-- controller/controller.go: the workers that NewFaaSController makes, before they come up.
use low_latency_faa_s.Prelude.{
  ℕ, ◌+◌, ◌-◌, ◌*◌, ◌%◌, ◌^◌, ◌≤◌, ◌<◌, ◌≡◌, ◌≢◌, refl, subst, inl, inr, String, List, [], ◌∷◌, map,
  ◌++◌, none, some, arith, ◌==◌, length, length-append, Bool-cases, Option-cases,
}
use text.Mathlib.Text.{◌==◌ as str_eq}
use text.Mathlib.TextEquality.{eq_iff}
use low_latency_faa_s.Prelude.Int.{pos}
use low_latency_faa_s.Prelude.Count.{count}
use low_latency_faa_s.Utils.IndexPool.{size}
use low_latency_faa_s.Utils.IndexPool.Spec.Refinement.{size-new_index_pool}
use low_latency_faa_s.Controller.State.{Worker, World, put_worker}
use low_latency_faa_s.Controller.Requests.{named}
use low_latency_faa_s.Controller.Groups.{default_pcie_devices, new_worker}
use low_latency_faa_s.Controller.Groups.Pcie.Stock.{IsStocked, indices_left}
use low_latency_faa_s.Controller.Groups.Pcie.Made.{IsElsewhere, elsewhere-IsStocked}
use low_latency_faa_s.Controller.Groups.Pcie.Factory.{new_worker-IsStocked}
use low_latency_faa_s.Controller.Lifecycle.{create_worker}
use low_latency_faa_s.Controller.Lifecycle.Start.{ClusterNode, create_workers}

abbrev pub addresses : List (String × ℕ) → List ℕ
addresses workers = map (λ (a : String × ℕ). a.1) workers

-- A list of devices of one entry leaves no index for the second of the first two free groups.
abbrev pub AreProvided : List ClusterNode → Type 0
AreProvided [] = Unit {0}
AreProvided (n ∷ nodes) = (length n.pcie ≢ 1) × AreProvided nodes

-- The workers stand at different addresses below their number, each with the indices of all its devices and with two
-- at least in its pool.
pub record IsManned (ws : List (String × ℕ)) (w : World) : Type 0 where
  pub below : (b : ℕ) → 0 < count b (addresses ws) → b < length ws
  pub stocked : (b : ℕ) → 0 < count b (addresses ws) → IsStocked b [] w
  pub enough : (b : ℕ) → 2 * count b (addresses ws) ≤ indices_left b w

enough_devices :
    (name ip : String) (offset num : ℕ) (pcie : List String) (port : ℕ)
    → length pcie ≢ 1
    → 2 ≤ size (new_worker name ip offset num pcie port).pcie_pool
unfolding new_worker
enough_devices name ip offset num [] port h =
    omega (arith, size-new_index_pool (pos 0) (length default_pcie_devices))
enough_devices name ip offset num (d ∷ []) port h = absurd (h refl)
enough_devices name ip offset num (d ∷ e ∷ ds) port h =
    omega (arith, size-new_index_pool (pos 0) (length (d ∷ e ∷ ds)))

put_worker-IsElsewhere : (wk : ℕ) (a : Worker) (w : World) → IsElsewhere wk w (put_worker wk a w)
put_worker-IsElsewhere wk a w = record {
  workers = λ b h. rw h refl;
  idx = λ p h. refl;
  next = omega arith;
}

count-addresses :
    (b : ℕ) (ws : List (String × ℕ)) (name : String) (wk : ℕ)
    → count b (addresses (ws ++ (name, wk) ∷ [])) ≡ count b (addresses ws) + count b (wk ∷ [])
unfolding count
count-addresses b [] name wk = omega arith
count-addresses b ((n, a) ∷ ws) name wk = omega (arith, count-addresses b ws name wk)

-- The names that were known still are.
abbrev pub Extends : List (String × ℕ) → List (String × ℕ) → Type 0
Extends ws ws' = (name : String) (wk : ℕ) → named ws name ≡ some wk → named ws' name ≡ some wk

named-append : (ws : List (String × ℕ)) (m : String) (a : ℕ) → Extends ws (ws ++ (m, a) ∷ [])
unfolding named
named-append [] m a name wk h = absurd (ground (arith, h))
named-append ((n, b) ∷ ws) m a name wk h = elim (Bool-cases (str_eq n name)) [
  | inl same ↦ ground (arith, same, h)
  | inr away ↦ ground (arith, away, h, named-append ws m a name wk)
]

named-last :
    (ws : List (String × ℕ)) (m : String) (a : ℕ)
    → named ws m ≡ none
    → named (ws ++ (m, a) ∷ []) m ≡ some a
unfolding named
named-last [] m a h = ground (arith, eq_iff m m)
named-last ((n, b) ∷ ws) m a h = ground (arith, h, named-last ws m a)

-- What one more worker leaves.
record IsAdded (name : String) (ws ws' : List (String × ℕ)) (w' : World) : Type 0 where
  manned : IsManned ws' w'
  extends : Extends ws ws'
  known : (wk : ℕ) × (named ws' name ≡ some wk)

new_worker-IsAdded :
    (ws : List (String × ℕ)) (name ip : String) (offset num : ℕ) (pcie : List String) (port : ℕ)
    (w : World)
    → length pcie ≢ 1
    → named ws name ≡ none
    → IsManned ws w
    → let wk = length ws in
      IsAdded name ws
        (ws ++ (name, wk) ∷ [])
        (put_worker wk (new_worker name ip offset num pcie port) w)
unfolding count
new_worker-IsAdded ws name ip offset num pcie port w h fresh m =
    let wk = length ws in
    let a = new_worker name ip offset num pcie port in
    let w₁ = put_worker wk a w in
    record {
      manned = record {
        below = λ b l.
            ground (
              arith,
              l,
              count-addresses b ws name wk,
              m.below b,
              length-append ws ((name, wk) ∷ []),
            );
        stocked = λ b l. elim (Bool-cases (wk == b)) [
          | inl same ↦
              let e : wk ≡ b = ground (arith, same) in
              subst (λ c. IsStocked c [] w₁) e
                (new_worker-IsStocked wk name ip offset num pcie port w)
          | inr away ↦
              elsewhere-IsStocked wk b [] w w₁ (put_worker-IsElsewhere wk a w) away
                (m.stocked b (ground (arith, l, away, count-addresses b ws name wk)))
        ];
        enough = λ b. elim (Bool-cases (wk == b)) [
          | inl same ↦ ground (
            arith,
            same,
            count-addresses b ws name wk,
            m.below b,
            enough_devices name ip offset num pcie port h,
          )
          | inr away ↦ ground (arith, away, count-addresses b ws name wk, m.enough b)
        ];
      };
      extends = named-append ws name wk;
      known = (wk, named-last ws name wk fresh);
    }

create_worker-IsAdded :
    (ws : List (String × ℕ)) (name ip : String) (offset num : ℕ) (pcie : List String) (port : ℕ)
    (w : World)
    → length pcie ≢ 1
    → IsManned ws w
    → let r = create_worker ws name ip offset num pcie port w in IsAdded name ws r.0 r.1
unfolding create_worker
create_worker-IsAdded ws name ip offset num pcie port w h m = elim (Option-cases (named ws name)) [
  | inl fresh ↦
      rw (fresh, create_worker) (new_worker-IsAdded ws name ip offset num pcie port w h fresh m)
  | inr (wk, old) ↦
      rw (old, create_worker) (record { manned = m; extends = λ n b e. e; known = (wk, old) })
]

-- Each node has a worker.
abbrev pub AreNamed : List ClusterNode → List (String × ℕ) → Type 0
AreNamed [] ws = Unit {0}
AreNamed (n ∷ nodes) ws = ((wk : ℕ) × (named ws n.name ≡ some wk)) × AreNamed nodes ws

pub create_workers-IsManned :
    (nodes : List ClusterNode) (ws : List (String × ℕ)) (w : World)
    → AreProvided nodes
    → IsManned ws w
    → let r = create_workers nodes ws w in IsManned r.0 r.1 × AreNamed nodes r.0 × Extends ws r.0
unfolding create_workers
create_workers-IsManned [] ws w h m = (m, tt, λ name wk e. e)
create_workers-IsManned (n ∷ nodes) ws w (h, hs) m =
    let r = create_worker ws n.name n.ip 1 (n.cores - 1) n.pcie (n.switch_port % 2 ^ 32) w in
    let a =
      create_worker-IsAdded ws n.name n.ip 1 (n.cores - 1) n.pcie (n.switch_port % 2 ^ 32) w h m in
    let (m', named', more) = create_workers-IsManned nodes r.0 r.1 hs a.manned in
    let (wk, e) = a.known in
    (m', ((wk, more n.name wk e), named'), λ name b f. more name b (a.extends name b f))
