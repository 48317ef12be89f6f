-- ===== src/Controller/Groups/Ready/Notify.antt =====
-- controller/sgroup.go: what the requests to CooperativeSched, and the part after them, leave of a group.
use low_latency_faa_s.Prelude.{
  ℕ, ◌≡◌, refl, ap, ◌∙◌, inl, inr, true, List, [], ◌∷◌, ◌++◌, some, arith, Bool-cases, Option-cases,
}
use low_latency_faa_s.Prelude.Int.{ℤ, pos}
use low_latency_faa_s.Utils.MinHeap.Count.{equal_iff}
use low_latency_faa_s.Controller.State.{SGroup, Core, World, Env, Reply, faas, idle_core_id, update}
use low_latency_faa_s.Controller.Core.{id_of, has_id, add_sgroup, find_core, modify_core}
use low_latency_faa_s.Controller.Core.Laws.{find_core-modify_core, add_sgroup-KeepsId}
use low_latency_faa_s.Controller.Attach.{request, on_core}
use low_latency_faa_s.Controller.Groups.Ports.{update-same}
use low_latency_faa_s.Controller.Groups.Ready.{mark_ready, notify}
use low_latency_faa_s.Controller.Groups.Ready.Calls.{part-update}

has_id-append :
    (sgs : ℕ → SGroup) (ps : List ℕ) (p : ℕ) → has_id sgs (ps ++ p ∷ []) (id_of sgs p) ≡ true
unfolding has_id
has_id-append sgs [] p = ground (arith, equal_iff (id_of sgs p) (id_of sgs p))
has_id-append sgs (q ∷ ps) p = ground (arith, has_id-append sgs ps p)

has_id-add_sgroup :
    (sgs : ℕ → SGroup) (p : ℕ) (c : Core)
    → has_id sgs (add_sgroup sgs p c).sgroups (id_of sgs p) ≡ true
unfolding add_sgroup
has_id-add_sgroup sgs p c = elim (Bool-cases (has_id sgs c.sgroups (id_of sgs p))) [
  | inl old ↦ rw old old
  | inr new ↦ rw new (has_id-append sgs c.sgroups p)
]

has_id-same :
    (f g : ℕ → SGroup) (ps : List ℕ) (id : ℤ)
    → ((q : ℕ) → id_of g q ≡ id_of f q)
    → has_id g ps id ≡ has_id f ps id
unfolding has_id
has_id-same f g [] id e = refl
has_id-same f g (p ∷ ps) id e = rw (e p, has_id-same f g ps id e) refl

-- The group is ready, scheduled, on core 1, which lists a group with its ID if it is there.
pub record IsListed (p wk : ℕ) (w : World) : Type 0 where
  pub ready : (w.sgroups p).is_ready ≡ true
  pub sched : (w.sgroups p).is_sched ≡ true
  pub core : (w.sgroups p).core_id ≡ pos 1
  pub listed :
      (c : Core)
      → find_core (pos 1) (w.workers wk).cores ≡ some c
      → has_id w.sgroups c.sgroups (id_of w.sgroups p) ≡ true

request-same :
    (replies : ℕ → Reply) (wk : ℕ) (w : World)
    → ((request replies wk w).1.sgroups ≡ w.sgroups)
      × ((request replies wk w).1.workers ≡ w.workers)
request-same replies wk w = elim (Bool-cases (w.workers wk).sched_connected) [
  | inl on ↦ rw on (refl, refl)
  | inr off ↦ rw off (refl, refl)
]

-- The core that a method was called on.
core_after :
    (id : ℤ) (f : Core → Core) (cs : List Core) (c : Core)
    → ((d : Core) → (f d).core_id ≡ d.core_id)
    → find_core id (modify_core id f cs) ≡ some c
    → (d : Core) × (c ≡ f d)
core_after id f cs c k e = elim (Option-cases (find_core id cs)) [
  | inl out ↦ absurd (ground (arith, out, e, find_core-modify_core id id f cs k))
  | inr (d, here) ↦
      (d, ground (arith, here, e, find_core-modify_core id id f cs k, equal_iff id id))
]

-- The end of `notify`, from the world that the requests leave.
mark_ready-IsListed :
    (p wk : ℕ) (w : World)
    → IsListed p wk (mark_ready faas p (on_core wk idle_core_id (add_sgroup w.sgroups p) w))
unfolding mark_ready
mark_ready-IsListed p wk w =
    let f = add_sgroup w.sgroups p in
    let a = w.workers wk in
    let sg = record (w.sgroups p) { core_id = pos 1; is_ready = true; is_sched = true } in
    let same : (q : ℕ) → id_of (update w.sgroups p sg) q ≡ id_of w.sgroups q =
      part-update (λ s. s.pcie_idx) w.sgroups p sg refl in
    record {
      ready = rw (update-same w.sgroups p _) refl;
      sched = rw (update-same w.sgroups p _) refl;
      core = rw (update-same w.sgroups p _) refl;
      listed = rw (update-same w.workers wk _) (λ c e.
          let (d, g) = core_after (pos 1) f a.cores c (add_sgroup-KeepsId w.sgroups p) e in
          has_id-same w.sgroups (update w.sgroups p sg) c.sgroups _ same
          ∙ ap (has_id w.sgroups c.sgroups) (same p)
          ∙ ap (λ e. has_id w.sgroups e.sgroups (id_of w.sgroups p)) g
          ∙ has_id-add_sgroup w.sgroups p d);
    }

-- What else of the group the requests and the part after them leave.
pub record IsNotified (p : ℕ) (w w' : World) : Type 0 where
  pub listed : IsListed p (w.sgroups p).worker w'
  pub tids : (w'.sgroups p).tids ≡ (w.sgroups p).tids
  pub batch_count : (w'.sgroups p).batch_count ≡ (w.sgroups p).batch_count

pub notify-IsNotified :
    (env : Env) (others : ℕ → World → World) (p : ℕ) (w : World)
    → IsNotified p w (notify env others p w)
unfolding notify mark_ready
notify-IsNotified env others p w =
    let wk = (w.sgroups p).worker in
    let w₁ = (request env.setup_chain wk w).1 in
    let w₂ = (request env.attach_chain wk w₁).1 in
    let (s₁, _) = request-same env.setup_chain wk w in
    let (s₂, _) = request-same env.attach_chain wk w₁ in
    let same : (w₂.sgroups p) ≡ w.sgroups p = ap (λ f. f p) (s₂ ∙ s₁) in
    record {
      listed = mark_ready-IsListed p wk w₂;
      tids = rw (update-same w₂.sgroups p _) (ap (λ s. s.tids) same);
      batch_count = rw (update-same w₂.sgroups p _) (ap (λ s. s.batch_count) same);
    }
