-- ===== src/Controller/Groups/Ready/Calls.antt =====
-- controller/instance.go and controller/sgroup.go: what the calls to the instances of a group leave alone.
use low_latency_faa_s.Prelude.{
  ℕ, zero, suc, ◌+◌, ◌≡◌, refl, ap, ◌∙◌, inl, inr, Bool, true, false, Option, none, some, arith,
  ◌==◌, if◌then◌else◌, Bool-cases,
}
use low_latency_faa_s.Go.{Error, Run, returns, ◌>>=◌}
use low_latency_faa_s.Controller.State.{Instance, World, Env, put_instance, update}
use low_latency_faa_s.Controller.Instance.{
  sleep, reset_backoff, dial, max_rpc_conn_trials, max_rpc_call_trials, connect_trials, connect,
  call_trials, call_instance,
}

-- The two branches, where the test stands in the values too.
if_true : {A : Type 0} (b : Bool) (x y : A) → b ≡ true → (if b then x else y) ≡ x
if_true b x y h = rw h refl

if_false : {A : Type 0} (b : Bool) (x y : A) → b ≡ false → (if b then x else y) ≡ y
if_false b x y h = rw h refl

if_some :
    {A : Type 0} (o : Option ℕ) (p : ℕ) (x y : A)
    → o ≡ some p
    → (elim o as (λ _. A) [ none ↦ x | some _ ↦ y ]) ≡ y
if_some o p x y h = rw h refl

-- A write that keeps a part of what stood there keeps that part everywhere.
pub part-update :
    {A B : Type 0} (part : A → B) (f : ℕ → A) (p : ℕ) (a : A)
    → part a ≡ part (f p)
    → (q : ℕ) → part (update f p a q) ≡ part (f q)
part-update part f p a e q = elim (Bool-cases (p == q)) [
  | inl same ↦ let h : p ≡ q = ground (arith, same) in rw same (e ∙ ap (λ r. part (f r)) h)
  | inr other ↦ rw other refl
]

-- The calls only change connections and backoffs of instances.
pub record IsCalled (w w' : World) : Type 0 where
  pub sgroups : w'.sgroups ≡ w.sgroups
  pub workers : w'.workers ≡ w.workers
  pub mode : w'.mode ≡ w.mode
  pub home : (j : ℕ) → (w'.instances j).sg ≡ (w.instances j).sg
  pub tid : (j : ℕ) → (w'.instances j).tid ≡ (w.instances j).tid
  pub cost : (j : ℕ) → (w'.instances j).profiled_cycle ≡ (w.instances j).profiled_cycle

pub IsCalled-refl : (w : World) → IsCalled w w
IsCalled-refl w = record {
  sgroups = refl;
  workers = refl;
  mode = refl;
  home = λ j. refl;
  tid = λ j. refl;
  cost = λ j. refl;
}

pub IsCalled-trans : (u v w : World) → IsCalled u v → IsCalled v w → IsCalled u w
IsCalled-trans u v w a b = record {
  sgroups = b.sgroups ∙ a.sgroups;
  workers = b.workers ∙ a.workers;
  mode = b.mode ∙ a.mode;
  home = λ j. b.home j ∙ a.home j;
  tid = λ j. b.tid j ∙ a.tid j;
  cost = λ j. b.cost j ∙ a.cost j;
}

put_instance-IsCalled :
    (i t : ℕ) (a : Instance) (w : World)
    → a.sg ≡ (w.instances i).sg
    → a.tid ≡ (w.instances i).tid
    → a.profiled_cycle ≡ (w.instances i).profiled_cycle
    → IsCalled w (record (put_instance i a w) { tick = t })
put_instance-IsCalled i t a w h k c = record {
  sgroups = refl;
  workers = refl;
  mode = refl;
  home = part-update (λ b. b.sg) w.instances i a h;
  tid = part-update (λ b. b.tid) w.instances i a k;
  cost = part-update (λ b. b.profiled_cycle) w.instances i a c;
}

sleep-IsCalled : (i : ℕ) (w : World) → IsCalled w (sleep i w)
sleep-IsCalled i w = put_instance-IsCalled i w.tick _ w refl refl refl

reset_backoff-IsCalled : (i : ℕ) (w : World) → IsCalled w (reset_backoff i w)
reset_backoff-IsCalled i w = put_instance-IsCalled i w.tick _ w refl refl refl

tick-IsCalled : (w : World) → IsCalled w (record w { tick = w.tick + 1 })
tick-IsCalled w = record {
  sgroups = refl;
  workers = refl;
  mode = refl;
  home = λ j. refl;
  tid = λ j. refl;
  cost = λ j. refl;
}

module _ (env : Env) where
  dial-IsCalled : (i : ℕ) (w : World) → IsCalled w (dial env i w)
  dial-IsCalled i w = put_instance-IsCalled i (w.tick + 1) _ w refl refl refl

  call_trials-IsCalled : (ok : ℕ → Bool) (n i : ℕ) (w : World) → IsCalled w (call_trials ok n i w).1
  unfolding call_trials
  call_trials-IsCalled ok zero i w = IsCalled-refl w
  call_trials-IsCalled ok (suc n) i w =
      let w₁ = record w { tick = w.tick + 1 } in
      elim (Bool-cases (ok w.tick)) [
        | inl hit ↦ rw hit (tick-IsCalled w)
        | inr miss ↦ rw miss (
            IsCalled-trans w w₁ _ (tick-IsCalled w) (
              IsCalled-trans w₁ (sleep i w₁) _ (sleep-IsCalled i w₁)
                (call_trials-IsCalled ok n i (sleep i w₁))))
      ]

  -- An instance of a group is not asked for the name of a group that it does not have.
  connect_trials-IsCalled :
      (n i p : ℕ) (w : World)
      → (w.instances i).sg ≡ some p
      → (r : Option Error × World) × (connect_trials env n i w ≡ returns r) × IsCalled w r.1
  unfolding connect_trials
  connect_trials-IsCalled zero i p w h = ((some _, w), refl, IsCalled-refl w)
  connect_trials-IsCalled (suc n) i p w h =
      let w₁ = sleep i (dial env i w) in
      let c =
        IsCalled-trans w (dial env i w) w₁ (dial-IsCalled i w) (sleep-IsCalled i (dial env i w)) in
      let (r, e, d) = connect_trials-IsCalled n i p w₁ (c.home i ∙ h) in
      elim (Bool-cases (env.dial w.tick)) [
        | inl up ↦ ((none, dial env i w), if_true (env.dial w.tick) _ _ up, dial-IsCalled i w)
        | inr down ↦ (
          r,
          if_false (env.dial w.tick) _ _ down ∙ if_some (w.instances i).sg p _ _ h ∙ e,
          IsCalled-trans w w₁ r.1 c d,
        )
      ]

  connect-IsCalled :
      (i p : ℕ) (w : World)
      → (w.instances i).sg ≡ some p
      → (r : Option Error × World) × (connect env i w ≡ returns r) × IsCalled w r.1
  unfolding connect
  connect-IsCalled i p w h =
      let c = reset_backoff-IsCalled i w in
      let (r, e, d) =
        connect_trials-IsCalled max_rpc_conn_trials i p (reset_backoff i w) (c.home i ∙ h) in
      (r, e, IsCalled-trans w (reset_backoff i w) r.1 c d)

  calls-IsCalled :
      (ok : ℕ → Bool) (i : ℕ) (w : World)
      → IsCalled w (call_trials ok max_rpc_call_trials i (reset_backoff i w)).1
  calls-IsCalled ok i w =
      IsCalled-trans w (reset_backoff i w) _ (reset_backoff-IsCalled i w)
        (call_trials-IsCalled ok max_rpc_call_trials i (reset_backoff i w))

  -- The part of a call after `connect`.
  after_connect :
      (ok : ℕ → Bool) (i : ℕ) (w : World) (c : Run (Option Error × World))
      (r : Option Error × World)
      → c ≡ returns r
      → IsCalled w r.1
      → (s : Option Error × World) × ((c >>= λ (r : Option Error × World). elim r.0 [
        | some e ↦ returns (some e, r.1)
        | none ↦ returns (call_trials ok max_rpc_call_trials i (reset_backoff i r.1))
      ])
          ≡ returns s)
        × IsCalled w s.1
  after_connect ok i w c (some e, w₁) h v = ((some e, w₁), rw h refl, v)
  after_connect ok i w c (none, w₁) h v = (
    call_trials ok max_rpc_call_trials i (reset_backoff i w₁),
    rw h refl,
    IsCalled-trans w w₁ _ v (calls-IsCalled ok i w₁),
  )

  pub call_instance-IsCalled :
      (ok : ℕ → Bool) (i p : ℕ) (w : World)
      → (w.instances i).sg ≡ some p
      → (r : Option Error × World) × (call_instance env ok i w ≡ returns r) × IsCalled w r.1
  unfolding call_instance
  call_instance-IsCalled ok i p w h =
      let (r, e, c) = connect-IsCalled i p w h in
      let (s, f, d) = after_connect ok i w (connect env i w) r e c in
      elim (Bool-cases (w.instances i).connected) [
        | inl up ↦ (
          call_trials ok max_rpc_call_trials i (reset_backoff i w),
          if_true (w.instances i).connected _ _ up,
          calls-IsCalled ok i w,
        )
        | inr down ↦ (s, if_false (w.instances i).connected _ _ down ∙ f, d)
      ]
