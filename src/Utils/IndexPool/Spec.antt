-- ===== src/Utils/IndexPool/Spec.antt =====
-- utils/index_pool.go: what a pool is to do, as a sorted list without duplicates.
pub mod Refinement
use low_latency_faa_s.Prelude.{
  ℕ, zero, suc, ◌+◌, ◌≤◌, ◌<◌, ◌≡◌, refl, sym, subst, ap, ◌∙◌, ◌⊎◌, inl, inr, ◌↔◌, Bool, true,
  false, List, [], ◌∷◌, arith, ltb, ◌==◌, if◌then◌else◌, length, Bool-cases,
}
use low_latency_faa_s.Prelude.Int.{ℤ, pos, negsuc, ◌+ℤ◌, ◌≤ℤ◌, ltb_ℤ, pos_part, neg_part, +ℤ_parts}
use low_latency_faa_s.Utils.MinHeap.{MinHeap, len, equal, contain, heap_push, heap_pop}
use low_latency_faa_s.Utils.MinHeap.Count.{count, contain_iff, equal_iff, tally}
use low_latency_faa_s.Utils.MinHeap.Laws.{IsHeapOf, heap_push-Pushed, heap_pop-Popped}
use low_latency_faa_s.Utils.IndexPool.{
  IndexPool, push_range, new_index_pool, size, get_next_available, free,
}
use low_latency_faa_s.Utils.IndexPool.History.{get_next_available-count}
use low_latency_faa_s.Utils.IndexPool.Laws.{
  IsValid, holds, Taken, in_range, push_range-count, get_next_available-Taken, free-IsValid,
}

-- A call of a method, and the number that it answers; Free answers nothing, which is 0 here.
pub data Call : Type 0 where
  get_next : Call
  put : ℤ → Call
  ask_size : Call

unfoldable pub call : Call → IndexPool → ℤ × IndexPool
call get_next p = get_next_available p
call (put i) p = (pos 0, free p i)
call ask_size p = (pos (size p), p)

unfoldable pub answers : List Call → IndexPool → List ℤ
answers [] p = []
answers (c ∷ cs) p = (call c p).0 ∷ answers cs (call c p).1

-- The specification: the numbers of the pool in increasing order.
unfoldable pub range : ℤ → ℕ → List ℤ
range base zero = []
range base (suc n) = base ∷ range (base +ℤ pos 1) n

unfoldable pub insert : ℤ → List ℤ → List ℤ
insert i [] = i ∷ []
insert i (x ∷ l) =
    let rest = insert i l in if equal i x then x ∷ l else if ltb_ℤ i x then i ∷ x ∷ l else x ∷ rest

unfoldable pub spec_call : Call → List ℤ → ℤ × List ℤ
spec_call get_next [] = (negsuc 0, [])
spec_call get_next (x ∷ l) = (x, l)
spec_call (put i) l = (pos 0, insert i l)
spec_call ask_size l = (pos (length l), l)

unfoldable pub spec_answers : List Call → List ℤ → List ℤ
spec_answers [] l = []
spec_answers (c ∷ cs) l = (spec_call c l).0 ∷ spec_answers cs (spec_call c l).1

pub data IsSorted : List ℤ → Type 0 where
  sorted_none : IsSorted []
  sorted_next :
      {x : ℤ} {l : List ℤ}
      → ((y : ℤ) → 0 < count y l → ltb_ℤ x y ≡ true)
      → IsSorted l
      → IsSorted (x ∷ l)

pub insert-count :
    (i : ℤ) (l : List ℤ)
    → IsSorted l
    → (y : ℤ) → count y (insert i l) ≡ count y l + (if ltb 0 (count i l) then 0 else tally i y)
unfolding insert count
insert-count i [] s y = ground (arith)
insert-count i (x ∷ l) (sorted_next h s) y =
    ground (arith, insert-count i l s y, equal_iff i x, equal_iff x i, h i)

above : (i x : ℤ) → equal i x ≡ false → ltb_ℤ i x ≡ false → ltb_ℤ x i ≡ true
above (pos i) (pos x) e l = ground (arith, e, l)
above (pos i) (negsuc x) e l = ground (arith, e, l)
above (negsuc i) (pos x) e l = ground (arith, e, l)
above (negsuc i) (negsuc x) e l = ground (arith, e, l)

below-first :
    (i x : ℤ) (l : List ℤ)
    → ltb_ℤ i x ≡ true
    → ((y : ℤ) → 0 < count y l → ltb_ℤ x y ≡ true)
    → (y : ℤ) → 0 < count y (x ∷ l)
    → ltb_ℤ i y ≡ true
unfolding count
below-first i x l less h y c = elim (Bool-cases (equal x y)) [
  | inl here ↦
      let e : x ≡ y = ground (arith, here, equal_iff x y) in subst (λ z. ltb_ℤ i z ≡ true) e less
  | inr there ↦ ground (arith, c, there, less, h y)
]

below-insert :
    (i x : ℤ) (l : List ℤ)
    → IsSorted l
    → ltb_ℤ x i ≡ true
    → ((y : ℤ) → 0 < count y l → ltb_ℤ x y ≡ true)
    → (y : ℤ) → 0 < count y (insert i l)
    → ltb_ℤ x y ≡ true
below-insert i x l s less h y c = elim (Bool-cases (equal i y)) [
  | inl here ↦
      let e : i ≡ y = ground (arith, here, equal_iff i y) in subst (λ z. ltb_ℤ x z ≡ true) e less
  | inr there ↦ ground (arith, c, there, insert-count i l s y, h y)
]

pub insert-IsSorted : (i : ℤ) (l : List ℤ) → IsSorted l → IsSorted (insert i l)
unfolding insert count
insert-IsSorted i [] s = sorted_next (λ y h. ground (arith, h)) sorted_none
insert-IsSorted i (x ∷ l) (sorted_next h s) = elim (Bool-cases (equal i x)) [
  | inl same ↦ rw same (sorted_next h s)
  | inr other ↦ elim (Bool-cases (ltb_ℤ i x)) [
    | inl less ↦ rw (other, less) (sorted_next (below-first i x l less h) (sorted_next h s))
    | inr more ↦
        rw (other, more)
          (sorted_next (below-insert i x l s (above i x other more) h) (insert-IsSorted i l s))
  ]
]

range-lower : (base : ℤ) (n : ℕ) (y : ℤ) → 0 < count y (range base n) → base ≤ℤ y
unfolding range count
range-lower base zero y h = absurd (omega arith)
range-lower base (suc n) y h =
    ground (arith, h, equal_iff base y, range-lower (base +ℤ pos 1) n y, +ℤ_parts base (pos 1))

pub range-IsSorted : (base : ℤ) (n : ℕ) → IsSorted (range base n)
unfolding range
range-IsSorted base zero = sorted_none
range-IsSorted base (suc n) =
    sorted_next (λ y h. ground (arith, range-lower (base +ℤ pos 1) n y h, +ℤ_parts base (pos 1)))
      (range-IsSorted (base +ℤ pos 1) n)

pub range-count : (base : ℤ) (n : ℕ) (x : ℤ) → count x (range base n) ≡ in_range base n x
unfolding range count
range-count base zero x = ground arith
range-count base (suc n) x =
    ground (arith, range-count (base +ℤ pos 1) n x, +ℤ_parts base (pos 1), equal_iff base x)

pub range-length : (base : ℤ) (n : ℕ) → length (range base n) ≡ n
unfolding range
range-length base zero = refl
range-length base (suc n) = omega (arith, range-length (base +ℤ pos 1) n)

pub insert-length :
    (i : ℤ) (l : List ℤ)
    → IsSorted l
    → length (insert i l) ≡ length l + (if ltb 0 (count i l) then 0 else 1)
unfolding insert count
insert-length i [] s = omega arith
insert-length i (x ∷ l) (sorted_next h s) =
    ground (arith, insert-length i l s, equal_iff i x, equal_iff x i, h i)
