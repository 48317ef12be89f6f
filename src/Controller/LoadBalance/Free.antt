-- ===== src/Controller/LoadBalance/Free.antt =====
-- controller/load_balance.go: the free group that getFreeSGroup gives out.
use low_latency_faa_s.Prelude.{
  ℕ, ◌-◌, ◌<◌, ◌≡◌, refl, ap, ◌∙◌, inl, inr, List, [], ◌∷◌, ◌++◌, Option, none, some, length,
  get_elem?, get_elem?_cases, take, arith, Option-cases,
}
use low_latency_faa_s.Prelude.Count.{count, count-cases, count-later, count-first}
use low_latency_faa_s.Controller.State.{World, put_worker}
use low_latency_faa_s.Controller.LoadBalance.{get_free_sgroup, get_free_of}

-- No group is free on these workers, and nothing changes; or the last free group of one of them is
-- given out, leaves that worker's list, and nothing else changes.
pub data Freed (w : World) (wks : List ℕ) : Option ℕ → World → Type 0 where
  none_free : ((wk : ℕ) → 0 < count wk wks → (w.workers wk).free_sgroups ≡ []) → Freed w wks none w
  freed :
      (wk p : ℕ) (rest : List ℕ)
      → 0 < count wk wks
      → (w.workers wk).free_sgroups ≡ rest ++ p ∷ []
      → Freed w wks (some p) (put_worker wk (record (w.workers wk) { free_sgroups = rest }) w)

take_last :
    (xs : List ℕ) (p : ℕ)
    → get_elem? xs (length xs - 1) ≡ some p
    → xs ≡ take (length xs - 1) xs ++ p ∷ []
take_last [] p h = absurd (ground (arith, h))
take_last (x ∷ []) p h = ground (arith, h)
take_last (x ∷ y ∷ xs) p h = ground (arith, h, take_last (y ∷ xs) p)

empty : (xs : List ℕ) → get_elem? xs (length xs - 1) ≡ none → xs ≡ []
empty [] h = refl
empty (x ∷ xs) h = ground (arith, h, get_elem?_cases (x ∷ xs) (length xs))

pub only : (wk a : ℕ) → 0 < count a (wk ∷ []) → a ≡ wk
unfolding count
only wk a h = ground (arith, h)

pub get_free_sgroup-Freed :
    (wk : ℕ) (w : World) → Freed w (wk ∷ []) (get_free_sgroup wk w).0 (get_free_sgroup wk w).1
unfolding get_free_sgroup count
get_free_sgroup-Freed wk w =
    let xs = (w.workers wk).free_sgroups in
    elim (Option-cases (get_elem? xs (length xs - 1))) [
      | inl e ↦
          rw (e, get_free_sgroup)
            (none_free (λ a h. ap (λ b. (w.workers b).free_sgroups) (only wk a h) ∙ empty xs e))
      | inr (p, e) ↦ rw (e, get_free_sgroup) (freed wk p _ (ground arith) (take_last xs p e))
    ]

more :
    (w : World) (wk : ℕ) (wks : List ℕ) (r : Option ℕ) (w₁ : World)
    → (w.workers wk).free_sgroups ≡ []
    → Freed w wks r w₁
    → Freed w (wk ∷ wks) r w₁
more w wk wks _ _ e (none_free all) =
    none_free (count-cases {P = λ a. (w.workers a).free_sgroups ≡ []} wk wks e all)
more w wk wks _ _ e (freed a p rest h f) = freed a p rest (count-later wk a wks h) f

head_of : (a wk : ℕ) (wks : List ℕ) → 0 < count a (wk ∷ []) → 0 < count a (wk ∷ wks)
unfolding count
head_of a wk wks h = omega (arith, h)

get_free_of-step :
    (wk : ℕ) (wks : List ℕ) (w w₁ : World) (r : Option ℕ) (rest : Option ℕ × World)
    → Freed w (wk ∷ []) r w₁
    → Freed w wks rest.0 rest.1
    → Freed w
        (wk ∷ wks)
        (elim r as (λ x. Option ℕ × World) [ none ↦ rest | some p ↦ (some p, w₁) ]).0
        (elim r as (λ x. Option ℕ × World) [ none ↦ rest | some p ↦ (some p, w₁) ]).1
get_free_of-step wk wks w _ _ rest (none_free all) k =
    more w wk wks _ _ (all wk (count-first wk [])) k
get_free_of-step wk wks w _ _ rest (freed a p l h f) k = freed a p l (head_of a wk wks h) f

-- The method getFreeSGroup of FaaSController gives out the last free group of one of its workers, takes
-- it off that worker's list and changes nothing else; it gives none only if no worker has a free group.
pub get_free_of-Freed :
    (wks : List ℕ) (w : World) → Freed w wks (get_free_of wks w).0 (get_free_of wks w).1
unfolding get_free_of count
get_free_of-Freed [] w = none_free (λ wk h. absurd (omega (arith, h)))
get_free_of-Freed (wk ∷ wks) w =
    get_free_of-step wk wks w _ _ (get_free_of wks w) (get_free_sgroup-Freed wk w)
      (get_free_of-Freed wks w)
