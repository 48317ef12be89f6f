-- ===== src/Controller/Groups/Pcie/Release.antt =====
-- controller/background.go and controller/worker.go: the PCIe indices, when all groups of a worker are
-- destroyed.
use low_latency_faa_s.Prelude.{
  ℕ, ◌+◌, ◌≡◌, refl, sym, subst, ap, ◌∙◌, true, List, [], ◌∷◌, ◌++◌, Option, none, some, arith,
}
use low_latency_faa_s.Prelude.Int.{ℤ}
use low_latency_faa_s.Utils.MinHeap.Count.{count, count-append}
use low_latency_faa_s.Utils.IndexPool.History.{give, Step-IsShared}
use low_latency_faa_s.Controller.State.{SGroup, World, Env, put_worker}
use low_latency_faa_s.Controller.Groups.{
  free_pcie, add_free, destroy_instance, destroy_free_sgroup, destroy_sgroups, destroy_all_sgroups,
  destroy_free_sgroups, destroy_all_free_sgroups,
}
use low_latency_faa_s.Controller.Groups.Ports.{update-same}
use low_latency_faa_s.Controller.Groups.Rollback.{same_held}
use low_latency_faa_s.Controller.Groups.Pcie.{
  indices, indices-same, count-indices, ArePcieShared, IsQuiet, destroy_instance-IsQuiet,
  reset-IsQuiet,
}

-- The free groups after the loop of destroyAllSGroups.
freed_onto : List ℕ → List ℕ → List ℕ
freed_onto frees [] = frees
freed_onto frees (p ∷ ps) = freed_onto frees ps ++ p ∷ []

count-freed_onto :
    (f : ℕ → SGroup) (x : ℤ) (frees ps : List ℕ)
    → count x (indices f (freed_onto frees ps)) ≡ count x (indices f frees) + count x (indices f ps)
unfolding count freed_onto
count-freed_onto f x frees [] = omega arith
count-freed_onto f x frees (p ∷ ps) =
    omega (arith, count-freed_onto f x frees ps, count-indices f x (freed_onto frees ps) (p ∷ []))

-- What the loop of destroyAllSGroups leaves.
record IsReset (wk : ℕ) (ps : List ℕ) (w w' : World) : Type 0 where
  pool : (w'.workers wk).pcie_pool ≡ (w.workers wk).pcie_pool
  idx : (p : ℕ) → (w'.sgroups p).pcie_idx ≡ (w.sgroups p).pcie_idx
  frees : (w'.workers wk).free_sgroups ≡ freed_onto (w.workers wk).free_sgroups ps
  members : (w'.workers wk).sgroups ≡ (w.workers wk).sgroups

add_free-IsReset :
    (env : Env) (wk p : ℕ) (ps : List ℕ) (w w₁ w₂ : World)
    → IsReset wk ps w w₁
    → IsQuiet wk w₁ w₂
    → IsReset wk (p ∷ ps) w (add_free env wk p w₂)
unfolding freed_onto
add_free-IsReset env wk p ps w w₁ w₂ r q = record {
  pool = rw (update-same w₂.workers wk _) (q.pool ∙ r.pool);
  idx = λ j. q.idx j ∙ r.idx j;
  frees = rw (update-same w₂.workers wk _) (ap (λ l. l ++ p ∷ []) (q.frees ∙ r.frees));
  members = rw (update-same w₂.workers wk _) (q.members ∙ r.members);
}

destroy_sgroups-IsReset :
    (env : Env) (wk : ℕ) (ps : List ℕ) (w : World) → IsReset wk ps w (destroy_sgroups env wk ps w)
unfolding destroy_sgroups freed_onto
destroy_sgroups-IsReset env wk [] w = record {
  pool = refl;
  idx = λ p. refl;
  frees = refl;
  members = refl;
}
destroy_sgroups-IsReset env wk (p ∷ ps) w =
    add_free-IsReset env wk p ps w _ _ (destroy_sgroups-IsReset env wk ps w)
      (reset-IsQuiet env wk p (destroy_sgroups env wk ps w))

-- What the loop of destroyAllFreeSGroups leaves, apart from the pool.
record IsFreed (wk : ℕ) (w w' : World) : Type 0 where
  idx : (p : ℕ) → (w'.sgroups p).pcie_idx ≡ (w.sgroups p).pcie_idx
  frees : (w'.workers wk).free_sgroups ≡ (w.workers wk).free_sgroups
  members : (w'.workers wk).sgroups ≡ (w.workers wk).sgroups

module _ (env : Env) (base : ℤ) (n wk : ℕ) (del : (k : ℕ) → env.delete k ≡ true) where
  destroy_instance-none : (i : Option ℕ) (w : World) → (destroy_instance env wk i w).0 ≡ none
  unfolding destroy_instance
  destroy_instance-none none w = refl
  destroy_instance-none (some i) w = rw (del w.tick, destroy_instance) refl

  give_pcie :
      (i : ℤ) (held : List ℤ) (w w₁ : World)
      → ArePcieShared base n wk (i ∷ held) w
      → IsQuiet wk w w₁
      → ArePcieShared base n wk held (free_pcie wk i w₁)
  unfolding free_pcie
  give_pcie i held w w₁ v q =
      rw (update-same w₁.workers wk _, q.pool) (Step-IsShared base n (give [] i held refl) v)

  destroy_free_sgroup-IsFreed :
      (p : ℕ) (held : List ℤ) (w : World)
      → ArePcieShared base n wk ((w.sgroups p).pcie_idx ∷ held) w
      → ArePcieShared base n wk held (destroy_free_sgroup env wk p w)
        × IsFreed wk w (destroy_free_sgroup env wk p w)
  unfolding destroy_free_sgroup free_pcie
  destroy_free_sgroup-IsFreed p held w v =
      let m = (w.sgroups p).manager in
      let q = destroy_instance-IsQuiet env wk wk m w in
      rw (destroy_instance-none m w, destroy_free_sgroup)
        (
          give_pcie (w.sgroups p).pcie_idx held w _ v q,
          record {
            idx = q.idx;
            frees = rw (update-same (destroy_instance env wk m w).1.workers wk _) q.frees;
            members = rw (update-same (destroy_instance env wk m w).1.workers wk _) q.members;
          },
        )

  destroy_free_sgroups-IsFreed :
      (ps : List ℕ) (held : List ℤ) (w : World)
      → ArePcieShared base n wk (indices w.sgroups ps ++ held) w
      → ArePcieShared base n wk held (destroy_free_sgroups env wk ps w)
        × IsFreed wk w (destroy_free_sgroups env wk ps w)
  unfolding destroy_free_sgroups count
  destroy_free_sgroups-IsFreed [] held w v =
      (v, record { idx = λ p. refl; frees = refl; members = refl })
  destroy_free_sgroups-IsFreed (p ∷ ps) held w v =
      let i = (w.sgroups p).pcie_idx in
      let w₁ = destroy_free_sgroups env wk ps w in
      let (v₁, f₁) = destroy_free_sgroups-IsFreed ps (i ∷ held) w (
        same_held base n _ (i ∷ (indices w.sgroups ps ++ held)) _
          (λ x. omega (
            arith,
            count-append x (indices w.sgroups ps) (i ∷ held),
            count-append x (indices w.sgroups ps) held,
          ))
          v) in
      let (v₂, f₂) =
        destroy_free_sgroup-IsFreed p held w₁
          (subst (λ j. ArePcieShared base n wk (j ∷ held) w₁) (sym (f₁.idx p)) v₁) in
      (
        v₂,
        record {
          idx = λ j. f₂.idx j ∙ f₁.idx j;
          frees = f₂.frees ∙ f₁.frees;
          members = f₂.members ∙ f₁.members;
        },
      )

  -- The two loops empty the lists of the worker first.
  destroy_all_free_sgroups_lem :
      (held : List ℤ) (w : World)
      → ArePcieShared base n wk (indices w.sgroups (w.workers wk).free_sgroups ++ held) w
      → ArePcieShared base n wk held (destroy_all_free_sgroups env wk w)
        × ((destroy_all_free_sgroups env wk w).workers wk).free_sgroups ≡ []
        × ((destroy_all_free_sgroups env wk w).workers wk).sgroups ≡ (w.workers wk).sgroups
  unfolding destroy_all_free_sgroups
  destroy_all_free_sgroups_lem held w v =
      let w₁ = put_worker wk (record (w.workers wk) { free_sgroups = [] }) w in
      let (v₁, f) =
        destroy_free_sgroups-IsFreed (w.workers wk).free_sgroups held w₁
          (rw (update-same w.workers wk _) v) in
      (
        v₁,
        f.frees ∙ ap (λ a. a.free_sgroups) (update-same w.workers wk _),
        f.members ∙ ap (λ a. a.sgroups) (update-same w.workers wk _),
      )

  destroy_all_sgroups_lem :
      (held : List ℤ) (w : World)
      → ArePcieShared base n wk
          (indices w.sgroups ((w.workers wk).free_sgroups ++ (w.workers wk).sgroups) ++ held)
          w
      → let w₁ = destroy_all_sgroups env wk w in
        ArePcieShared base n wk (indices w₁.sgroups (w₁.workers wk).free_sgroups ++ held) w₁
        × (w₁.workers wk).sgroups ≡ []
  unfolding destroy_all_sgroups
  destroy_all_sgroups_lem held w v =
      let ps = (w.workers wk).sgroups in
      let w₀ = put_worker wk (record (w.workers wk) { sgroups = [] }) w in
      let w₁ = destroy_sgroups env wk ps w₀ in
      let r = destroy_sgroups-IsReset env wk ps w₀ in
      let frees : (w₁.workers wk).free_sgroups ≡ freed_onto (w.workers wk).free_sgroups ps =
        r.frees ∙ ap (λ a. freed_onto a.free_sgroups ps) (update-same w.workers wk _) in
      let pool : (w₁.workers wk).pcie_pool ≡ (w.workers wk).pcie_pool =
        r.pool ∙ ap (λ a. a.pcie_pool) (update-same w.workers wk _) in
      (
        rw
            (
              pool,
              frees,
              indices-same w.sgroups w₁.sgroups (freed_onto (w.workers wk).free_sgroups ps) r.idx,
            )
            (same_held base n _ _ _
              (λ x. omega (
                arith,
                count-append x (indices w.sgroups (freed_onto (w.workers wk).free_sgroups ps)) held,
                count-append x (indices w.sgroups ((w.workers wk).free_sgroups ++ ps)) held,
                count-indices w.sgroups x (w.workers wk).free_sgroups ps,
                count-freed_onto w.sgroups x (w.workers wk).free_sgroups ps,
              ))
              v),
        r.members ∙ ap (λ a. a.sgroups) (update-same w.workers wk _),
      )

  -- Where Kubernetes does every deletion, and each PCIe index of [base, base + n) is in the pool of a worker,
  -- or of one of its groups, or in `held`: after all its groups and then all its free groups are destroyed, as
  -- Close does, the worker has no groups and no free groups, and each index is in the pool or in `held`.
  pub destroy_all-ArePcieShared :
      (held : List ℤ) (w : World)
      → ArePcieShared base n wk
          (indices w.sgroups ((w.workers wk).free_sgroups ++ (w.workers wk).sgroups) ++ held)
          w
      → let w₁ = destroy_all_free_sgroups env wk (destroy_all_sgroups env wk w) in
        ArePcieShared base n wk held w₁
        × (w₁.workers wk).free_sgroups ≡ []
        × (w₁.workers wk).sgroups ≡ []
  destroy_all-ArePcieShared held w v =
      let (v₁, e) = destroy_all_sgroups_lem held w v in
      let (v₂, f, g) = destroy_all_free_sgroups_lem held (destroy_all_sgroups env wk w) v₁ in
      (v₂, f, g ∙ e)
