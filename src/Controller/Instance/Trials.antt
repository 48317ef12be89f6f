-- ===== src/Controller/Instance/Trials.antt =====
-- controller/instance.go: how often a call to an instance is tried.
use low_latency_faa_s.Prelude.{
  ℕ, zero, suc, ◌+◌, ◌<◌, ◌≡◌, refl, inl, inr, ap, ◌∙◌, Bool, true, false, Option, none, some,
  arith, Bool-cases,
}
use low_latency_faa_s.Go.{Error, trials_failed, returns}
use low_latency_faa_s.Controller.State.{World, Env}
use low_latency_faa_s.Controller.Instance.{
  sleep, reset_backoff, max_rpc_call_trials, call_trials, call_instance,
}

-- At most `n` calls from the `t`-th on: they end at the first that succeeds, with no error; or all fail,
-- and so does the whole.
pub data Tried (ok : ℕ → Bool) (n t : ℕ) : Option Error → ℕ → Type 0 where
  succeeded :
      (k : ℕ)
      → k < n
      → ok (t + k) ≡ true
      → ((j : ℕ) → j < k → ok (t + j) ≡ false)
      → (t' : ℕ) → t' ≡ t + k + 1
      → Tried ok n t none t'
  gave_up :
      ((j : ℕ) → j < n → ok (t + j) ≡ false)
      → (t' : ℕ) → t' ≡ t + n
      → Tried ok n t (some trials_failed) t'

later_too :
    (ok : ℕ → Bool) (k t : ℕ)
    → ok t ≡ false
    → ((j : ℕ) → j < k → ok (t + 1 + j) ≡ false)
    → (j : ℕ) → j < suc k
    → ok (t + j) ≡ false
later_too ok k t miss early zero h = let here : t + 0 ≡ t = omega arith in ap ok here ∙ miss
later_too ok k t miss early (suc j) h =
    let there : t + suc j ≡ t + 1 + j = omega arith in ap ok there ∙ early j (omega (arith, h))

again :
    (ok : ℕ → Bool) (n t t₁ : ℕ) (e : Option Error)
    → ok t ≡ false
    → Tried ok n (t + 1) e t₁
    → Tried ok (suc n) t e t₁
again ok n t t₁ _ miss (succeeded k h hit early _ last) =
    let there : t + suc k ≡ t + 1 + k = omega arith in
    succeeded (suc k) (omega (arith, h)) (ap ok there ∙ hit) (later_too ok k t miss early) t₁
      (omega (arith, last))
again ok n t t₁ _ miss (gave_up all _ last) =
    gave_up (later_too ok n t miss all) t₁ (omega (arith, last))

call_trials-Tried :
    (ok : ℕ → Bool) (n i : ℕ) (w : World)
    → Tried ok n w.tick (call_trials ok n i w).0 (call_trials ok n i w).1.tick
unfolding call_trials
call_trials-Tried ok zero i w = gave_up (λ j h. absurd (omega (arith, h))) w.tick (omega arith)
call_trials-Tried ok (suc n) i w = elim (Bool-cases (ok w.tick)) [
  | inl hit ↦
      let here : w.tick + 0 ≡ w.tick = omega arith in
      rw hit (
        succeeded 0 (omega arith) (ap ok here ∙ hit) (λ j h. absurd (omega (arith, h))) (w.tick + 1)
          (omega arith))
  | inr miss ↦ rw miss (
      again ok n w.tick _ _ miss
        (call_trials-Tried ok n i (sleep i (record w { tick = w.tick + 1 }))))
]

-- setCycles and setBatch of an instance with a connection come back after at most 5 calls: at the first
-- that succeeds, with no error; or with an error after 5 that fail.
pub call_instance-Tried :
    (env : Env) (ok : ℕ → Bool) (i : ℕ) (w : World)
    → (w.instances i).connected ≡ true
    → (r : Option Error × World) × (call_instance env ok i w ≡ returns r)
      × Tried ok max_rpc_call_trials w.tick r.0 r.1.tick
unfolding call_instance
call_instance-Tried env ok i w h = (
  call_trials ok max_rpc_call_trials i (reset_backoff i w),
  rw h refl,
  call_trials-Tried ok max_rpc_call_trials i (reset_backoff i w),
)
