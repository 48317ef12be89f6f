-- ===== src/Utils/MinHeap/Count.antt =====
-- utils/min_heap.go: how often a number stands in a slice, and what the slice operations do to it.
use low_latency_faa_s.Prelude.{
  ℕ, zero, suc, ◌+◌, ◌<◌, ◌≡◌, refl, true, List, [], ◌∷◌, ◌++◌, ◌↔◌, arith, ◌==◌, if◌then◌else◌,
  length, length-set, set, take,
}
use low_latency_faa_s.Prelude.Int.{ℤ}
use low_latency_faa_s.Utils.MinHeap.{MinHeap, at, equal, swap, contain, contain_loop}

abbrev pub tally : ℤ → ℤ → ℕ
tally x y = if equal x y then 1 else 0

unfoldable pub count : ℤ → List ℤ → ℕ
count x [] = 0
count x (y ∷ ys) = tally y x + count x ys

pub equal_iff : (x y : ℤ) → (equal x y ≡ true) ↔ (x ≡ y)
equal_iff x y = ground arith

pub count-append : (x : ℤ) (xs ys : List ℤ) → count x (xs ++ ys) ≡ count x xs + count x ys
unfolding count
count-append x [] ys = omega arith
count-append x (y ∷ xs) ys = omega (arith, count-append x xs ys)

-- A write trades the old entry for the new one.
pub count-set :
    (x : ℤ) (a : List ℤ) (i : ℕ) (v : ℤ)
    → i < length a
    → count x (set a i v) + tally (at a i) x ≡ count x a + tally v x
unfolding count
count-set x [] i v h = absurd (omega arith)
count-set x (y ∷ a) zero v h = omega arith
count-set x (y ∷ a) (suc i) v h = omega (arith, count-set x a i v)

pub at-set :
    (a : List ℤ) (i j : ℕ) (v : ℤ)
    → i < length a
    → at (set a i v) j ≡ (if i == j then v else at a j)
at-set [] i j v h = absurd (omega arith)
at-set (y ∷ a) zero zero v h = refl
at-set (y ∷ a) (suc i) (suc j) v h = ground (arith, at-set a i j v)
at-set (y ∷ a) i j v h = ground arith

pub length-swap : (a : List ℤ) (i j : ℕ) → length (swap a i j) ≡ length a
unfolding swap
length-swap a i j = simp length-set

module _ (a : List ℤ) (i j : ℕ) (hi : i < length a) (hj : j < length a) where
  pub at-swap :
      (c : ℕ) → at (swap a i j) c ≡ (if j == c then at a i else if i == c then at a j else at a c)
  unfolding swap
  at-swap c =
      rw (at-set (set a i (at a j)) j c (at a i) (rw length-set hj), at-set a i c (at a j) hi)

  pub count-swap : (x : ℤ) → count x (swap a i j) ≡ count x a
  unfolding swap
  count-swap x = ground (
    arith,
    length-set a i (at a j),
    at-set a i j (at a j) hi,
    count-set x a i (at a j) hi,
    count-set x (set a i (at a j)) j (at a i),
  )

pub at-append : (a b : List ℤ) (i : ℕ) → i < length a → at (a ++ b) i ≡ at a i
at-append [] b i h = absurd (omega arith)
at-append (y ∷ a) b zero h = refl
at-append (y ∷ a) b (suc i) h = at-append a b i (omega arith)

pub at-take : (n : ℕ) (a : List ℤ) (i : ℕ) → i < n → at (take n a) i ≡ at a i
at-take zero a i h = absurd (omega arith)
at-take (suc n) [] i h = refl
at-take (suc n) (y ∷ a) zero h = refl
at-take (suc n) (y ∷ a) (suc i) h = at-take n a i (omega arith)

-- A slice is its last element and the rest.
pub count-take :
    (x : ℤ) (n : ℕ) (a : List ℤ)
    → length a ≡ suc n
    → count x (take n a) + tally (at a n) x ≡ count x a
unfolding count
count-take x zero (y ∷ []) h = omega arith
count-take x zero (y ∷ z ∷ a) h = absurd (omega arith)
count-take x (suc n) (y ∷ a) h = omega (arith, count-take x n a)
count-take x n [] h = absurd (omega arith)

pub count-at : (a : List ℤ) (i : ℕ) → i < length a → 0 < count (at a i) a
unfolding count
count-at [] i h = absurd (omega arith)
count-at (y ∷ a) zero h = ground (arith, equal_iff y y)
count-at (y ∷ a) (suc i) h = omega (arith, count-at a i)

contain_loop_iff : (xs : List ℤ) (t : ℤ) → (contain_loop xs t ≡ true) ↔ (0 < count t xs)
unfolding contain_loop count
contain_loop_iff [] t = ground arith
contain_loop_iff (x ∷ xs) t = ground (arith, contain_loop_iff xs t)

pub contain_iff : (h : MinHeap) (t : ℤ) → (contain h t ≡ true) ↔ (0 < count t h.nums)
unfolding contain
contain_iff h t = contain_loop_iff h.nums t
