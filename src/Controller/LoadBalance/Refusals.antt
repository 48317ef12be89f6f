-- ===== src/Controller/LoadBalance/Refusals.antt =====
-- controller/load_balance.go: when UpdateFlow refuses a flow.
use low_latency_faa_s.Prelude.{
  ℕ, ◌≡◌, ◌<◌, inl, inr, Bool, true, false, List, [], Option, none, some, arith, Bool-cases,
  Option-cases, ltb,
}
use low_latency_faa_s.Prelude.Count.{count}
use low_latency_faa_s.Go.{no_resources, returns}
use low_latency_faa_s.Controller.Flowlet.{Flow}
use low_latency_faa_s.Controller.State.{World}
use low_latency_faa_s.Controller.LoadBalance.{
  Cluster, Answer, find_match, find_available_high_load_first, get_free_of, values, send_to,
  serve_flow, update_flow, skips_loaded, wake,
}
use low_latency_faa_s.Controller.LoadBalance.Selection.{
  nothing, best, Choice, in_class, outside, find_available_high_load_first-Choice,
}
use low_latency_faa_s.Controller.LoadBalance.Free.{Freed, none_free, freed, get_free_of-Freed}

-- An answer that sends the flow to a group has no error.
send_to_error :
    (p : ℕ) (started : Option (ℕ × ℕ)) (w w' : World) (a : Answer)
    → send_to p started w ≡ returns (a, w')
    → a.error ≡ none
unfolding send_to
send_to_error p started w w' a run = ground (arith, run)

serve_flow_refuses :
    (c : Cluster) (x : Flow) (w w' : World) (a : Answer)
    → serve_flow c x w ≡ returns (a, w')
    → a.error ≡ some no_resources
    → (d : ℕ) × (find_match w.dags x c.dags ≡ some d)
      × ((w.dags d).is_active ≡ true)
      × (find_available_high_load_first w (w.dags d) ≡ none)
      × ((get_free_of (values c.workers) w).0 ≡ none)
unfolding serve_flow
serve_flow_refuses c x w w' a run e = elim (Option-cases (find_match w.dags x c.dags)) [
  | inl m ↦ absurd (ground (arith, run, e, m))
  | inr (d, m) ↦ elim (Bool-cases (w.dags d).is_active) [
    | inr off ↦ absurd (ground (arith, run, e, m, off))
    | inl on ↦ elim (Option-cases (find_available_high_load_first w (w.dags d))) [
      | inr (p, f) ↦ absurd (ground (arith, run, e, m, on, f, send_to_error p none (wake p w) w' a))
      | inl f ↦
          let w₁ = (get_free_of (values c.workers) w).1 in
          elim (Option-cases (get_free_of (values c.workers) w).0) [
            | inr (p, g) ↦
                absurd (ground (arith, run, e, m, on, f, g, send_to_error p (some (p, d)) w₁ w' a))
            | inl g ↦ (d, m, on, f, g)
          ]
    ]
  ]
]

skipped_all :
    (skip other : ℕ → Bool) (better : ℕ → ℕ → Bool) (ps : List ℕ) (r : Option ℕ)
    → r ≡ none
    → Choice skip other better ps r
    → (p : ℕ) → 0 < count p ps
    → other p ≡ true
skipped_all skip other better ps _ e (in_class s h) = absurd (ground (arith, e))
skipped_all skip other better ps _ e (outside _ h (nothing all)) = all
skipped_all skip other better ps _ e (outside _ h (best s k q all)) = absurd (ground (arith, e))

none_left :
    (w w₁ : World) (wks : List ℕ) (r : Option ℕ)
    → r ≡ none
    → Freed w wks r w₁
    → (wk : ℕ) → 0 < count wk wks
    → (w.workers wk).free_sgroups ≡ []
none_left w _ wks _ e (none_free all) = all
none_left w _ wks _ e (freed wk p rest h f) = absurd (ground (arith, e))

-- When UpdateFlow refuses a flow for want of resources, and its port is not one of the background
-- traffic, the flow matches an active DAG, each group of which is not ready or has a packet load above
-- 80, and no worker has a free group.
pub update_flow_refuses :
    (c : Cluster) (x : Flow) (w w' : World) (a : Answer)
    → ltb x.dst_port 2000 ≡ false
    → update_flow c x w ≡ returns (a, w')
    → a.error ≡ some no_resources
    → (d : ℕ) × (find_match w.dags x c.dags ≡ some d)
      × ((w.dags d).is_active ≡ true)
      × ((p : ℕ) → 0 < count p (w.dags d).sgroups → skips_loaded w p ≡ true)
      × ((wk : ℕ) → 0 < count wk (values c.workers) → (w.workers wk).free_sgroups ≡ [])
unfolding update_flow
update_flow_refuses c x w w' a port run e =
    let (d, m, on, f, g) = serve_flow_refuses c x w w' a (ground (arith, run, port)) e in
    (
      d,
      m,
      on,
      skipped_all _ _ _ _ _ f (find_available_high_load_first-Choice w (w.dags d)),
      none_left w _ _ _ g (get_free_of-Freed (values c.workers) w),
    )
