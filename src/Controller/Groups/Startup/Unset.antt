-- ===== src/Controller/Groups/Startup/Unset.antt =====
-- controller/background.go and controller/sgroup.go: a group whose instances have not told their threads' IDs yet.
use low_latency_faa_s.Prelude.{
  ℕ, suc, ◌<◌, ◌≡◌, refl, subst, ap, ◌∙◌, inl, inr, true, false, List, [], ◌∷◌, some, arith, ◌==◌,
  length, length-append, Bool-cases,
}
use low_latency_faa_s.Prelude.Int.{negsuc}
use low_latency_faa_s.Prelude.Count.{count, count-snoc, count-first}
use low_latency_faa_s.Go.{returns}
use low_latency_faa_s.Controller.State.{Instance, World, Env}
use low_latency_faa_s.Controller.Traffic.{append_instance}
use low_latency_faa_s.Controller.Groups.Ports.{update-same}
use low_latency_faa_s.Controller.Groups.Ready.{all_up, preprocess_before_ready}
use low_latency_faa_s.Controller.Groups.Ready.Calls.{part-update}
use low_latency_faa_s.Controller.Groups.Startup.{complete}

-- A new instance.
pub record IsBorn (i : ℕ) (w w' : World) : Type 0 where
  pub fresh : i ≡ w.next_instance
  pub next : w'.next_instance ≡ suc i
  pub others : (j : ℕ) → j < i → w'.instances j ≡ w.instances j
  pub unset : (w'.instances i).tid ≡ negsuc 0

-- The instances of the group stand at addresses in use, and none has told its thread's ID.
pub record AreUnset (p : ℕ) (w : World) : Type 0 where
  pub old : (i : ℕ) → 0 < count i (w.sgroups p).instances → i < w.next_instance
  pub tids : (i : ℕ) → 0 < count i (w.sgroups p).instances → (w.instances i).tid ≡ negsuc 0

born_unset :
    (i j : ℕ) (w w₁ : World)
    → IsBorn i w w₁
    → ((i == j) ≡ false → (w.instances j).tid ≡ negsuc 0)
    → ((i == j) ≡ false → j < w.next_instance)
    → (w₁.instances j).tid ≡ negsuc 0
born_unset i j w w₁ c v old = elim (Bool-cases (i == j)) [
  | inl same ↦
      let e : i ≡ j = ground (arith, same) in subst (λ k. (w₁.instances k).tid ≡ negsuc 0) e c.unset
  | inr away ↦ ap (λ a. a.tid) (c.others j (omega (arith, old away, c.fresh))) ∙ v away
]

pub append_instance-AreUnset :
    (p i : ℕ) (w w₁ : World)
    → w₁.sgroups ≡ w.sgroups
    → IsBorn i w w₁
    → AreUnset p w
    → AreUnset p (append_instance p i w₁)
unfolding append_instance
append_instance-AreUnset p i w w₁ e c v = record {
  old =
      rw (update-same w₁.sgroups p _, e)
        (λ j l. ground (arith, count-snoc j i (w.sgroups p).instances, v.old j, c.fresh, c.next));
  tids =
      rw (update-same w₁.sgroups p _, e)
        (λ j l.
          part-update (λ a. a.tid) w₁.instances i (record (w₁.instances i) { sg = some p }) refl j
          ∙ born_unset i j w w₁ c
              (λ k. v.tids j (ground (arith, l, k, count-snoc j i (w.sgroups p).instances)))
              (λ k. v.old j (ground (arith, l, k, count-snoc j i (w.sgroups p).instances))));
}

pub append_instance-length :
    (p i : ℕ) (w : World)
    → length ((append_instance p i w).sgroups p).instances ≡ suc (length (w.sgroups p).instances)
unfolding append_instance
append_instance-length p i w =
    rw (update-same w.sgroups p _) (omega (arith, length-append (w.sgroups p).instances (i ∷ [])))

all_up-unset :
    (ins : ℕ → Instance) (is : List ℕ)
    → 0 < length is
    → ((i : ℕ) → 0 < count i is → (ins i).tid ≡ negsuc 0)
    → all_up ins is ≡ false
unfolding all_up
all_up-unset ins [] l h = absurd (omega (arith, l))
all_up-unset ins (i ∷ is) l h = rw (h i (count-first i is)) refl

-- Such a group with an instance is not made ready, when it is complete.
pub complete-waits :
    (env : Env) (others : ℕ → World → World) (fuel wk p d more : ℕ) (w : World)
    → AreUnset p w
    → 0 < length (w.sgroups p).instances
    → preprocess_before_ready env others fuel p (complete wk p d more w)
      ≡ returns (complete wk p d more w)
unfolding preprocess_before_ready complete
complete-waits env others fuel wk p d more w v l =
    let down : all_up w.instances (w.sgroups p).instances ≡ false =
      all_up-unset w.instances _ l v.tids in
    let same =
      update-same w.sgroups p (record (w.sgroups p) { dag = some d; is_complete = true }) in
    elim (Bool-cases (w.sgroups p).is_ready) [
      | inl ready ↦ rw (same, ready) refl
      | inr fresh ↦ rw (same, fresh, down) refl
    ]
