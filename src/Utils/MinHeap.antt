-- ===== src/Utils/MinHeap.antt =====
-- utils/min_heap.go, with the part of Go's container/heap that it is used through.
-- A slice is a list. Every index that the heap code uses is inside the slice; `at` answers 0 past
-- its end, which no theorem relies on.
pub mod Count
pub mod Order
pub mod Laws
use low_latency_faa_s.Prelude.{
  ℕ, zero, suc, ◌+◌, ◌-◌, ◌*◌, ◌/◌, Bool, true, false, ◌&&◌, List, [], ◌∷◌, ◌++◌, ltb, ◌==◌,
  if◌then◌else◌, length, set, get_or, take,
}
use low_latency_faa_s.Prelude.Int.{ℤ, pos, negsuc, ltb_ℤ}

pub record MinHeap : Type 0 where
  pub nums : List ℤ

abbrev pub at : List ℤ → ℕ → ℤ
at a i = get_or a i (pos 0)

abbrev pub equal : ℤ → ℤ → Bool
equal (pos a) (pos b) = a == b
equal (negsuc a) (negsuc b) = a == b
equal a b = false

abbrev pub new_min_heap : MinHeap
new_min_heap = record { nums = [] }

abbrev pub len : MinHeap → ℕ
len h = length h.nums

abbrev pub size : MinHeap → ℕ
size h = length h.nums

abbrev pub less : List ℤ → ℕ → ℕ → Bool
less a i j = ltb_ℤ (at a i) (at a j)

unfoldable pub swap : List ℤ → ℕ → ℕ → List ℤ
swap a i j = set (set a i (at a j)) j (at a i)

-- The loop of Contain, over the elements from the front.
pub contain_loop : List ℤ → ℤ → Bool
contain_loop [] t = false
contain_loop (x ∷ xs) t = let rest = contain_loop xs t in if equal x t then true else rest

unfoldable pub contain : MinHeap → ℤ → Bool
unfolding contain_loop
contain h t = contain_loop h.nums t

unfoldable pub push_back : MinHeap → ℤ → MinHeap
push_back h x = record h { nums = h.nums ++ x ∷ [] }

-- The method Pop: the last element, and the slice without it.
unfoldable pub pop_back : MinHeap → ℤ × MinHeap
pop_back h = let n = length h.nums in (at h.nums (n - 1), record h { nums = take (n - 1) h.nums })

abbrev pub parent : ℕ → ℕ
parent j = (j - 1) / 2

-- container/heap's up, on fuel above `j`.
unfoldable pub up : ℕ → List ℤ → ℕ → List ℤ
up zero a j = a
up (suc k) a j =
    let i = parent j in
    let rest = up k (swap a i j) i in if i == j then a else if less a j i then rest else a

-- The child that down compares with: the smaller one of the two that lie below `n`.
abbrev pub child : List ℤ → ℕ → ℕ → ℕ
child a i n = let j1 = 2 * i + 1 in let j2 = j1 + 1 in if ltb j2 n && less a j2 j1 then j2 else j1

-- container/heap's down, on fuel above `n - i`.
pub down : ℕ → List ℤ → ℕ → ℕ → List ℤ
down zero a i n = a
down (suc k) a i n =
    let j = child a i n in
    let rest = down k (swap a i j) j n in
    if ltb (2 * i + 1) n then (if less a j i then rest else a) else a

-- container/heap's Push and Pop.
unfoldable pub heap_push : MinHeap → ℤ → MinHeap
heap_push h x = let g = push_back h x in record g { nums = up (len g) g.nums (len g - 1) }

unfoldable pub heap_pop : MinHeap → ℤ × MinHeap
heap_pop h = let n = len h - 1 in pop_back (record h { nums = down (suc n) (swap h.nums 0 n) 0 n })

-- The loop of container/heap's Init: down at i, i - 1, ..., 0, for `rounds` positions.
unfoldable pub heap_init_loop : ℕ → List ℤ → List ℤ
heap_init_loop zero a = a
heap_init_loop (suc i) a = heap_init_loop i (down (suc (length a)) a i (length a))

unfoldable pub heap_init : MinHeap → MinHeap
unfolding heap_init_loop
heap_init h = record h { nums = heap_init_loop (len h / 2) h.nums }
