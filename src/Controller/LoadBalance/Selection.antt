-- ===== src/Controller/LoadBalance/Selection.antt =====
-- controller/load_balance.go: the group that findAvailableSGroup and findAvailableSGroupHighLoadFirst
-- select.
use mathlib.Core.Path.{subst}
use low_latency_faa_s.Prelude.{
  ℕ, ◌<◌, ◌≡◌, refl, ◌⊎◌, inl, inr, Bool, true, false, List, [], ◌∷◌, Option, none, some, ltb,
  if◌then◌else◌, arith, Bool-cases, sym, ◌∙◌, ap,
}
use low_latency_faa_s.Prelude.Count.{count, count-cases, count-later, count-first}
use low_latency_faa_s.Controller.Dag.{Dag}
use low_latency_faa_s.Controller.State.{World}
use low_latency_faa_s.Controller.LoadBalance.{
  select, or_else, rate, skips_high, skips_low, skips_loaded, find_available_sgroup,
  find_available_high_load_first,
}

-- The result is a group of the list that is not skipped, and none that is not skipped is better; or
-- there is no result, and every group is skipped.
pub data Best (skip : ℕ → Bool) (better : ℕ → ℕ → Bool) (ps : List ℕ) : Option ℕ → Type 0 where
  nothing : ((p : ℕ) → 0 < count p ps → skip p ≡ true) → Best skip better ps none
  best :
      (s : ℕ)
      → 0 < count s ps
      → skip s ≡ false
      → ((p : ℕ) → 0 < count p ps → skip p ≡ false → better s p ≡ false)
      → Best skip better ps (some s)

-- The comparison is by a rate, upwards or downwards.
abbrev IsOrder : (ℕ → ℕ → Bool) → Type 0
IsOrder better =
    ((p : ℕ) → better p p ≡ false)
    × ((p q r : ℕ) → better p q ≡ false → better q r ≡ false → better p r ≡ false)
    × ((p q : ℕ) → better p q ≡ true → better q p ≡ false)

not_in_nil : (p : ℕ) → ¬ (0 < count p [])
unfolding count
not_in_nil p h = omega (arith, h)

-- The equations of the loop.
module _ (skip : ℕ → Bool) (better : ℕ → ℕ → Bool) (x : ℕ) (ps : List ℕ) where
  select-skip :
      (s : Option ℕ) → skip x ≡ true → select skip better (x ∷ ps) s ≡ select skip better ps s
  unfolding select
  select-skip s e = rw e refl

  select-first : skip x ≡ false → select skip better (x ∷ ps) none ≡ select skip better ps (some x)
  unfolding select
  select-first e = rw e refl

  select-step :
      (s : ℕ)
      → skip x ≡ false
      → select skip better (x ∷ ps) (some s)
        ≡ select skip better ps (some (if better s x then x else s))
  unfolding select
  select-step s e = elim (Bool-cases (better s x)) [
    | inl b ↦ rw (e, b) refl
    | inr b ↦ rw (e, b) refl
  ]

select_nil : (skip : ℕ → Bool) (better : ℕ → ℕ → Bool) (s : Option ℕ) → select skip better [] s ≡ s
unfolding select
select_nil skip better s = refl

module _ (skip : ℕ → Bool) (better : ℕ → ℕ → Bool) (o : IsOrder better) where
  -- With a selected group `s`, the loop ends with one that is at least as good.
  data Kept (ps : List ℕ) (s : ℕ) : Option ℕ → Type 0 where
    kept :
        (t : ℕ)
        → ((t ≡ s) ⊎ ((0 < count t ps) × (skip t ≡ false)))
        → better t s ≡ false
        → ((p : ℕ) → 0 < count p ps → skip p ≡ false → better t p ≡ false)
        → Kept ps s (some t)

  skipped-Kept :
      (x s : ℕ) (ps : List ℕ) (r : Option ℕ) → skip x ≡ true → Kept ps s r → Kept (x ∷ ps) s r
  skipped-Kept x s ps _ e (kept t from as_good all) =
      kept t elim from [ inl same ↦ inl same | inr h ↦ inr (count-later x t ps h.0, h.1) ] as_good
        (count-cases {P = λ p. skip p ≡ false → better t p ≡ false} x ps
          (λ q. absurd (ground (arith, e, q))) all)

  replaced-Kept :
      (x s : ℕ) (ps : List ℕ) (r : Option ℕ)
      → skip x ≡ false
      → better s x ≡ true
      → Kept ps x r
      → Kept (x ∷ ps) s r
  replaced-Kept x s ps _ e b (kept t from as_good all) =
      kept t
        elim from [
          | inl same ↦ inr (
              subst (λ t. (0 < count t (x ∷ ps)) × (skip t ≡ false)) (sym same)
                (count-first x ps, e))
          | inr h ↦ inr (count-later x t ps h.0, h.1)
        ]
        (o.1 t x s as_good (o.2 s x b))
        (count-cases {P = λ p. skip p ≡ false → better t p ≡ false} x ps (λ q. as_good) all)

  stays-Kept :
      (x s : ℕ) (ps : List ℕ) (r : Option ℕ) → better s x ≡ false → Kept ps s r → Kept (x ∷ ps) s r
  stays-Kept x s ps _ b (kept t from as_good all) =
      kept t elim from [ inl same ↦ inl same | inr h ↦ inr (count-later x t ps h.0, h.1) ] as_good
        (count-cases {P = λ p. skip p ≡ false → better t p ≡ false} x ps (λ q. o.1 t s x as_good b)
          all)

  select-Kept : (ps : List ℕ) (s : ℕ) → Kept ps s (select skip better ps (some s))
  select-Kept [] s = rw select_nil (kept s (inl refl) (o.0 s) (λ p h. absurd (not_in_nil p h)))
  select-Kept (x ∷ ps) s = elim (Bool-cases (skip x)) [
    | inl e ↦ rw (select-skip, e) (skipped-Kept x s ps _ e (select-Kept ps s))
    | inr e ↦ elim (Bool-cases (better s x)) [
      | inl b ↦ rw (select-step, e, b) (replaced-Kept x s ps _ e b (select-Kept ps x))
      | inr b ↦ rw (select-step, e, b) (stays-Kept x s ps _ b (select-Kept ps s))
    ]
  ]

  taken-Best :
      (x : ℕ) (ps : List ℕ) (r : Option ℕ)
      → skip x ≡ false
      → Kept ps x r
      → Best skip better (x ∷ ps) r
  taken-Best x ps _ e (kept t from as_good all) =
      best t
        elim from [
          | inl same ↦ subst (λ t. 0 < count t (x ∷ ps)) (sym same) (count-first x ps)
          | inr h ↦ count-later x t ps h.0
        ]
        elim from [ inl same ↦ (ap skip same ∙ e) | inr h ↦ h.1 ]
        (count-cases {P = λ p. skip p ≡ false → better t p ≡ false} x ps (λ q. as_good) all)

  skipped-Best :
      (x : ℕ) (ps : List ℕ) (r : Option ℕ)
      → skip x ≡ true
      → Best skip better ps r
      → Best skip better (x ∷ ps) r
  skipped-Best x ps _ e (nothing all) = nothing (count-cases x ps e all)
  skipped-Best x ps _ e (best t h q all) = best t (count-later x t ps h) q (
      count-cases {P = λ p. skip p ≡ false → better t p ≡ false} x ps
        (λ q. absurd (ground (arith, e, q))) all)

  select-Best : (ps : List ℕ) → Best skip better ps (select skip better ps none)
  select-Best [] = rw select_nil (nothing (λ p h. absurd (not_in_nil p h)))
  select-Best (x ∷ ps) = elim (Bool-cases (skip x)) [
    | inl e ↦ rw (select-skip, e) (skipped-Best x ps _ e (select-Best ps))
    | inr e ↦ rw (select-first, e) (taken-Best x ps _ e (select-Kept ps x))
  ]

-- The choice between two classes of groups: the best of the first, or, where the first is empty, the
-- best of the second.
pub data Choice (skip other : ℕ → Bool) (better : ℕ → ℕ → Bool) (ps : List ℕ)
    : Option ℕ → Type 0 where
  in_class : (s : ℕ) → Best skip better ps (some s) → Choice skip other better ps (some s)
  outside :
      (r : Option ℕ)
      → Best skip better ps none
      → Best other better ps r
      → Choice skip other better ps r

or_else-Choice :
    (skip other : ℕ → Bool) (better : ℕ → ℕ → Bool) (ps : List ℕ) (a b : Option ℕ)
    → Best skip better ps a
    → Best other better ps b
    → Choice skip other better ps (or_else a b)
or_else-Choice skip other better ps (some s) b h k = in_class s h
or_else-Choice skip other better ps none b h k = outside b h k

abbrev pub lower : (w : World) → ℕ → ℕ → Bool
lower w s p = ltb (rate w p) (rate w s)

lower-IsOrder : (w : World) → IsOrder (lower w)
lower-IsOrder w =
    ((λ p. ground arith), (λ p q r h k. ground (arith, h, k)), (λ p q h. ground (arith, h)))

abbrev pub higher : (w : World) → ℕ → ℕ → Bool
higher w s p = ltb (rate w s) (rate w p)

higher-IsOrder : (w : World) → IsOrder (higher w)
higher-IsOrder w =
    ((λ p. ground arith), (λ p q r h k. ground (arith, h, k)), (λ p q h. ground (arith, h)))

-- findAvailableSGroup answers with a ready group of the DAG of the least packet rate among those with
-- a queue of at most 40 or a load of at most 60; if there is none, among those with a load of at most
-- 80; and with none only if there is none of these either.
pub find_available_sgroup-Choice :
    (w : World) (g : Dag)
    → Choice (skips_low w) (skips_loaded w) (lower w) g.sgroups (find_available_sgroup w g)
unfolding find_available_sgroup
find_available_sgroup-Choice w g =
    or_else-Choice _ _ _ _ _ _ (select-Best (skips_low w) (lower w) (lower-IsOrder w) g.sgroups)
      (select-Best (skips_loaded w) (lower w) (lower-IsOrder w) g.sgroups)

-- findAvailableSGroupHighLoadFirst answers with a ready group of the DAG of the greatest packet rate
-- among those with a queue of at most 40 and a load of at most 80; if there is none, among those with
-- a load of at most 80; and with none only if there is none of these either.
pub find_available_high_load_first-Choice :
    (w : World) (g : Dag)
    → Choice
        (skips_high w)
        (skips_loaded w)
        (higher w)
        g.sgroups
        (find_available_high_load_first w g)
unfolding find_available_high_load_first
find_available_high_load_first-Choice w g =
    or_else-Choice _ _ _ _ _ _ (select-Best (skips_high w) (higher w) (higher-IsOrder w) g.sgroups)
      (select-Best (skips_loaded w) (higher w) (higher-IsOrder w) g.sgroups)
