-- ===== src/Prelude/Count.antt =====
-- How often a number stands in a list. A pointer is a number, so this counts pointers too.
use Prim.Native.Nat.{ℕ, ◌+◌}
use mathlib.Core.Path.{◌≡◌, subst}
use mathlib.Core.Logic.{inl, inr}
use Prim.Native.Nat.{◌<◌}
use mathlib.Core.List.{List, [], ◌∷◌, ◌++◌}
use native.Mathlib.Omega.{arith}
use low_latency_faa_s.Prelude.Tests.{◌==◌, if◌then◌else◌, Bool-cases}

unfoldable pub count : ℕ → List ℕ → ℕ
count x [] = 0
count x (y ∷ ys) = (if y == x then 1 else 0) + count x ys

pub count-snoc :
    (x y : ℕ) (ys : List ℕ) → count x (ys ++ y ∷ []) ≡ count x ys + (if y == x then 1 else 0)
unfolding count
count-snoc x y [] = omega arith
count-snoc x y (z ∷ ys) = omega (arith, count-snoc x y ys)

-- A property of the head and of the members of the tail holds of the members of the list.
pub count-cases {ℓ} :
    {P : ℕ → Type ℓ} (x : ℕ) (ps : List ℕ)
    → P x
    → ((p : ℕ) → 0 < count p ps → P p)
    → (p : ℕ) → 0 < count p (x ∷ ps)
    → P p
unfolding count
count-cases {P = P} x ps here there p h = elim (Bool-cases (x == p)) [
  | inl same ↦ subst P (ground (arith, same)) here
  | inr other ↦ there p (ground (arith, h, other))
]

pub count-later : (x t : ℕ) (ps : List ℕ) → 0 < count t ps → 0 < count t (x ∷ ps)
unfolding count
count-later x t ps h = omega (arith, h)

pub count-first : (x : ℕ) (ps : List ℕ) → 0 < count x (x ∷ ps)
unfolding count
count-first x ps = ground arith

pub count-append : (x : ℕ) (ys zs : List ℕ) → count x (ys ++ zs) ≡ count x ys + count x zs
unfolding count
count-append x [] zs = omega arith
count-append x (y ∷ ys) zs = omega (arith, count-append x ys zs)
