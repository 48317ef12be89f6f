-- ===== src/Controller/Traffic/Activity.antt =====
-- controller/sgroup.go: when a group stops and starts to be active.
use low_latency_faa_s.Prelude.{
  ℕ, ◌+◌, ◌<◌, ◌≡◌, refl, ap, ◌∙◌, Bool, true, false, List, [], ◌∷◌, ltb, ◌==◌, if◌then◌else◌,
  arith,
}
use low_latency_faa_s.Controller.State.{SGroup}
use low_latency_faa_s.Controller.Traffic.{min_idle_duration, update_activity, activate_sgroup}

-- A report of the first instance: its packet rate and its queue length.
pub record Sample : Type 0 where
  pub rate : ℕ
  pub queue : ℕ

abbrev pub with_sample : Sample → SGroup → SGroup
with_sample x sg = record sg { pkt_rate_kpps = x.rate; inc_queue_length = x.queue }

-- The activity after a row of reports, each followed by an update.
pub observe : Bool → List Sample → SGroup → SGroup
observe support [] sg = sg
observe support (x ∷ xs) sg = observe support xs (update_activity support (with_sample x sg))

-- How many of the reports show a zero rate.
pub idle_samples : List Sample → ℕ
idle_samples [] = 0
idle_samples (x ∷ xs) = (if x.rate == 0 then 1 else 0) + idle_samples xs

observe_inactive :
    (xs : List Sample) (sg : SGroup)
    → sg.is_active ≡ false
    → (observe false xs sg).is_active ≡ false
unfolding observe update_activity
observe_inactive [] sg h = h
observe_inactive (x ∷ xs) sg h =
    observe_inactive xs (update_activity false (with_sample x sg)) (ground arith)

observe_active :
    (xs : List Sample) (sg : SGroup)
    → sg.is_active ≡ true
    → sg.idle_sample_cnt < min_idle_duration
    → (observe false xs sg).is_active ≡ ltb (sg.idle_sample_cnt + idle_samples xs) min_idle_duration
unfolding observe idle_samples update_activity
observe_active [] sg a h = ground arith
observe_active (x ∷ xs) sg a h =
    let sg' = update_activity false (with_sample x sg) in
    ground (arith, observe_active xs sg', observe_inactive xs sg')

-- Without queue lengths, which is the default, a group that was set active is inactive after a row
-- of reports exactly when at least 15 of them show a zero rate, however many others come between.
pub observe-idle_samples :
    (xs : List Sample) (sg : SGroup)
    → (observe false xs (activate_sgroup sg)).is_active ≡ ltb (idle_samples xs) min_idle_duration
observe-idle_samples xs sg =
    let total : 0 + idle_samples xs ≡ idle_samples xs = omega arith in
    observe_active xs (activate_sgroup sg) refl (omega arith)
    ∙ ap (λ n. ltb n min_idle_duration) total
