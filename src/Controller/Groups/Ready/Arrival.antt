-- ===== src/Controller/Groups/Ready/Arrival.antt =====
-- controller/sgroup.go: that preprocessBeforeReady makes a group ready.
use low_latency_faa_s.Prelude.{
  ℕ, zero, suc, ◌+◌, ◌<◌, ◌≡◌, refl, sym, subst, ap, ◌∙◌, inl, inr, Bool, true, false, List, [],
  ◌∷◌, ◌++◌, Option, some, arith, length, Bool-cases,
}
use text.Mathlib.Text.{◌==◌ as str_eq}
use low_latency_faa_s.Prelude.Count.{count, count-first, count-later}
use low_latency_faa_s.Go.{Error, Run, returns, ◌>>=◌}
use low_latency_faa_s.Controller.State.{Instance, SGroup, World, Env}
use low_latency_faa_s.Controller.Instance.{set_cycles}
use low_latency_faa_s.Controller.Groups.Ports.{update-same}
use low_latency_faa_s.Controller.Groups.Ready.{
  all_up, tids_of, sum_profiled, is_all_sgroups_connected, add_tids, add_conn, adjust_cycles,
  adjust_runtime_config, set_batches, with_batch_count, adjust_batch_count, wait_connected, notify,
  connect_sgroup, is_metron, preprocess_before_ready,
}
use low_latency_faa_s.Controller.Groups.Ready.Calls.{
  IsCalled, IsCalled-refl, IsCalled-trans, call_instance-IsCalled,
}
use low_latency_faa_s.Controller.Groups.Ready.Notify.{IsListed, notify-IsNotified}

-- Each of the instances belongs to the group `p`.
abbrev pub AreOf : ℕ → (ℕ → Instance) → List ℕ → Type 0
AreOf p ins is = (i : ℕ) → 0 < count i is → (ins i).sg ≡ some p

AreOf-called :
    (p : ℕ) (is : List ℕ) (w w' : World)
    → IsCalled w w'
    → AreOf p w.instances is
    → AreOf p w'.instances is
AreOf-called p is w w' c h i l = c.home i ∙ h i l

-- What the other threads do in `j` turns of the wait, from its `k`-th on.
unfoldable pub rounds : (ℕ → World → World) → ℕ → ℕ → World → World
rounds others zero k u = u
rounds others (suc j) k u = rounds others j (k + 1) (others k u)

sum_profiled-same :
    (f g : ℕ → Instance) (is : List ℕ)
    → ((i : ℕ) → (g i).profiled_cycle ≡ (f i).profiled_cycle)
    → sum_profiled g is ≡ sum_profiled f is
unfolding sum_profiled
sum_profiled-same f g [] e = refl
sum_profiled-same f g (i ∷ is) e = omega (arith, e i, sum_profiled-same f g is e)

module _ (env : Env) (others : ℕ → World → World) (p : ℕ) where
  one_cycles :
      (b : Bool) (i : ℕ) (w : World)
      → (w.instances i).sg ≡ some p
      → (w' : World) × ((elim b as (λ x. Run World) [
        | true ↦ (set_cycles env i w >>= λ (r : Option Error × World). returns r.1)
        | false ↦ returns w
      ])
          ≡ returns w')
        × IsCalled w w'
  one_cycles true i w h =
      let (r, e, c) = call_instance-IsCalled env env.set_cycles i p w h in (r.1, rw e refl, c)
  one_cycles false i w h = (w, refl, IsCalled-refl w)

  adjust_cycles-IsCalled :
      (is : List ℕ) (w : World)
      → AreOf p w.instances is
      → (w' : World) × (adjust_cycles env others is w ≡ returns w') × IsCalled w w'
  unfolding adjust_cycles
  adjust_cycles-IsCalled [] w h = (w, refl, IsCalled-refl w)
  adjust_cycles-IsCalled (i ∷ is) w h =
      let (w₁, e, c) =
        one_cycles (str_eq (w.instances i).func_type "bypass") i w (h i (count-first i is)) in
      let (w₂, f, d) =
        adjust_cycles-IsCalled is w₁ (λ j l. c.home j ∙ h j (count-later i j is l)) in
      (
        w₂,
        ap (λ r. r >>= λ (w₁ : World). adjust_cycles env others is w₁) e ∙ f,
        IsCalled-trans w w₁ w₂ c d,
      )

  set_batches-IsCalled :
      (is : List ℕ) (w : World)
      → AreOf p w.instances is
      → (w' : World) × (set_batches env others is w ≡ returns w') × IsCalled w w'
  unfolding set_batches
  set_batches-IsCalled [] w h = (w, refl, IsCalled-refl w)
  set_batches-IsCalled (i ∷ is) w h =
      let (r, e, c) = call_instance-IsCalled env env.set_batch i p w (h i (count-first i is)) in
      let (w₂, f, d) = set_batches-IsCalled is r.1 (λ j l. c.home j ∙ h j (count-later i j is l)) in
      (
        w₂,
        ap (λ r. r >>= λ (r : Option Error × World). set_batches env others is r.1) e ∙ f,
        IsCalled-trans w r.1 w₂ c d,
      )

  -- Where the count is right after some turns, the wait ends after at most so many.
  wait_connected-rounds :
      (fuel k j wk : ℕ) (u : World)
      → j < fuel
      → is_all_sgroups_connected wk (rounds others j k u) ≡ true
      → (i : ℕ) × (wait_connected env others fuel k wk u ≡ returns (rounds others i k u))
  unfolding wait_connected rounds
  wait_connected-rounds zero k j wk u l h = absurd (omega (arith, l))
  wait_connected-rounds (suc fuel) k zero wk u l h = (0, rw h refl)
  wait_connected-rounds (suc fuel) k (suc j) wk u l h =
      let (i, e) = wait_connected-rounds fuel (k + 1) j wk (others k u) (omega (arith, l)) h in
      elim (Bool-cases (is_all_sgroups_connected wk u)) [
        | inl now ↦ (0, rw now refl)
        | inr later ↦ (suc i, rw later e)
      ]

  rounds-keeps :
      ((k : ℕ) (u : World) → (others k u).sgroups p ≡ u.sgroups p)
      → (j k : ℕ) (u : World) → (rounds others j k u).sgroups p ≡ u.sgroups p
  unfolding rounds
  rounds-keeps h zero k u = refl
  rounds-keeps h (suc j) k u = rounds-keeps h j (k + 1) (others k u) ∙ h k u

  abbrev pub with_tids : World → SGroup
  with_tids w =
      let sg = w.sgroups p in record sg { tids = sg.tids ++ tids_of w.instances sg.instances }

  -- After adjustRuntimeConfig.
  record IsTuned (w w₁ : World) : Type 0 where
    group : w₁.sgroups p ≡ with_tids w
    workers : w₁.workers ≡ w.workers
    mode : w₁.mode ≡ w.mode
    home : AreOf p w₁.instances (w.sgroups p).instances
    cost : (j : ℕ) → (w₁.instances j).profiled_cycle ≡ (w.instances j).profiled_cycle

  adjust_runtime_config-IsTuned :
      (w : World)
      → AreOf p w.instances (w.sgroups p).instances
      → (w₁ : World) × (adjust_runtime_config env others p (add_tids p w) ≡ returns w₁)
        × IsTuned w w₁
  unfolding add_tids
  adjust_runtime_config-IsTuned w h =
      let v = add_tids p w in
      let same : v.sgroups p ≡ with_tids w = update-same w.sgroups p (with_tids w) in
      let (w₁, e, c) =
        adjust_cycles-IsCalled (v.sgroups p).instances v
          (subst (AreOf p w.instances) (sym (ap (λ s. s.instances) same)) h) in
      (
        w₁,
        e,
        record {
          group = ap (λ f. f p) c.sgroups ∙ same;
          workers = c.workers;
          mode = c.mode;
          home = AreOf-called p (w.sgroups p).instances v w₁ c h;
          cost = c.cost;
        },
      )

  abbrev pub prepared : World → SGroup
  prepared w =
      let sg = w.sgroups p in
      record (with_tids w) {
        batch_count =
            env.batch_count (length sg.instances) (sum_profiled w.instances sg.instances)
              sg.batch_size;
      }

  -- After adjustBatchCount.
  record IsPrepared (w w₂ : World) : Type 0 where
    group : w₂.sgroups p ≡ prepared w
    workers : w₂.workers ≡ w.workers

  adjust_batch_count-IsPrepared :
      (w w₁ : World)
      → IsTuned w w₁
      → (w₂ : World) × (adjust_batch_count env others p w₁ ≡ returns w₂) × IsPrepared w w₂
  unfolding adjust_batch_count
  adjust_batch_count-IsPrepared w w₁ t =
      let v = with_batch_count env others p w₁ in
      let is = (w.sgroups p).instances in
      let counted = λ (s : SGroup) (n : ℕ). record s {
        batch_count = env.batch_count (length s.instances) n s.batch_size;
      } in
      let (w₂, e, c) =
        set_batches-IsCalled (w₁.sgroups p).instances v
          (subst (AreOf p w₁.instances) (sym (ap (λ s. s.instances) t.group)) t.home) in
      (
        w₂,
        e,
        record {
          group =
              ap (λ f. f p) c.sgroups
              ∙ update-same w₁.sgroups p _
              ∙ ap (λ s. counted s (sum_profiled w₁.instances s.instances)) t.group
              ∙ ap (counted (with_tids w)) (sum_profiled-same w.instances w₁.instances is t.cost);
          workers = c.workers ∙ t.workers;
        },
      )

  -- The group is as `prepared` says, but for what makes it ready.
  pub record IsReadied (w w' : World) : Type 0 where
    pub listed : IsListed p (w.sgroups p).worker w'
    pub tids : (w'.sgroups p).tids ≡ (prepared w).tids
    pub batch_count : (w'.sgroups p).batch_count ≡ (prepared w).batch_count

  module _ (keeps : (k : ℕ) (u : World) → (others k u).sgroups p ≡ u.sgroups p) where
    connect_sgroup-IsReadied :
        (fuel : ℕ) (w w₁ : World)
        → IsTuned w w₁
        → ((u : World)
            → u.workers ≡ (add_conn (w.sgroups p).worker (w.sgroups p).group_id w).workers
            → (j : ℕ) × (j < fuel)
              × (is_all_sgroups_connected (w.sgroups p).worker (rounds others j 0 u) ≡ true))
        → (w' : World) × (connect_sgroup env others fuel p w₁ ≡ returns w') × IsReadied w w'
    unfolding connect_sgroup
    connect_sgroup-IsReadied fuel w w₁ t arrives =
        let (w₂, e, c) = adjust_batch_count-IsPrepared w w₁ t in
        let wk = (w.sgroups p).worker in
        let id = (w.sgroups p).group_id in
        let v = add_conn wk id w₂ in
        let (j, l, met) =
          arrives v (ap (λ f. (add_conn wk id (record w { workers = f })).workers) c.workers) in
        let (i, f) = wait_connected-rounds fuel 0 j wk v l met in
        let w₃ = rounds others i 0 v in
        let same : w₃.sgroups p ≡ prepared w = rounds-keeps keeps i 0 v ∙ c.group in
        let n = notify-IsNotified env others p w₃ in
        (
          notify env others p w₃,
          rw (e, c.group, f) refl,
          record {
            listed = subst (λ s. IsListed p s.worker (notify env others p w₃)) same n.listed;
            tids = n.tids ∙ ap (λ s. s.tids) same;
            batch_count = n.batch_count ∙ ap (λ s. s.batch_count) same;
          },
        )

    pub preprocess_before_ready-IsReadied :
        (fuel : ℕ) (w : World)
        → is_metron env others w.mode ≡ false
        → (w.sgroups p).is_complete ≡ true
        → (w.sgroups p).is_ready ≡ false
        → all_up w.instances (w.sgroups p).instances ≡ true
        → AreOf p w.instances (w.sgroups p).instances
        → ((u : World)
            → u.workers ≡ (add_conn (w.sgroups p).worker (w.sgroups p).group_id w).workers
            → (j : ℕ) × (j < fuel)
              × (is_all_sgroups_connected (w.sgroups p).worker (rounds others j 0 u) ≡ true))
        → (w' : World) × (preprocess_before_ready env others fuel p w ≡ returns w') × IsReadied w w'
    unfolding preprocess_before_ready
    preprocess_before_ready-IsReadied fuel w faas_mode whole fresh up home arrives =
        let (w₁, e, t) = adjust_runtime_config-IsTuned w home in
        let (w', f, r) = connect_sgroup-IsReadied fuel w w₁ t arrives in
        (w', rw (faas_mode, whole, fresh, up, e) f, r)
