-- ===== src/Utils/IndexPool/History.antt =====
-- utils/index_pool.go: a pool and the numbers that its callers hold, over any history of calls.
use low_latency_faa_s.Prelude.{ℕ, ◌+◌, ◌<◌, ◌≡◌, ap, ◌∙◌, List, [], ◌∷◌, ◌++◌, arith, inl, inr}
use low_latency_faa_s.Prelude.Int.{ℤ}
use low_latency_faa_s.Utils.MinHeap.Count.{count, count-append, contain_iff, equal_iff, tally}
use low_latency_faa_s.Utils.MinHeap.Laws.{heap_push-Pushed, heap_pop-Popped}
use low_latency_faa_s.Utils.IndexPool.{IndexPool, new_index_pool, size, get_next_available, free}
use low_latency_faa_s.Utils.IndexPool.Laws.{
  IsValid, in_range, push_range-count, get_next_available-Taken, free-IsValid,
}

-- `held` are the numbers that were handed out and not yet freed.
pub record Client : Type 0 where
  pub pool : IndexPool
  pub held : List ℤ

-- A caller takes the next number of a pool that is not empty, or frees one that it holds.
pub data Step (s : Client) : Client → Type 0 where
  take :
      0 < size s.pool
      → Step s (record {
        pool = (get_next_available s.pool).1;
        held = (get_next_available s.pool).0 ∷ s.held;
      })
  give :
      (before : List ℤ) (i : ℤ) (after : List ℤ)
      → s.held ≡ before ++ i ∷ after
      → Step s (record { pool = free s.pool i; held = before ++ after })

pub data Reach (s : Client) : Client → Type 0 where
  here : Reach s s
  next : {t u : Client} → Reach s t → Step t u → Reach s u

-- Each number of [base, base + n) is either in the pool or held, by one caller, and no other is.
pub record IsShared (base : ℤ) (n : ℕ) (s : Client) : Type 0 where
  pub valid : IsValid s.pool
  pub shared : (x : ℤ) → count x s.pool.pool.nums + count x s.held ≡ in_range base n x

pub get_next_available-count :
    (p : IndexPool) (x : ℤ)
    → IsValid p
    → 0 < size p
    → count x (get_next_available p).1.pool.nums + tally (get_next_available p).0 x
      ≡ count x p.pool.nums
unfolding get_next_available
get_next_available-count p x v h = ground (arith, (heap_pop-Popped p.pool h v.heap).counts x)

pub free-count :
    (p : IndexPool) (i x : ℤ)
    → IsValid p
    → count i p.pool.nums ≡ 0
    → count x (free p i).pool.nums ≡ count x p.pool.nums + tally i x
unfolding free
free-count p i x v h =
    ground (arith, contain_iff p.pool i, (heap_push-Pushed p.pool i v.heap).counts x)

pub get_next_available-IsValid :
    (p : IndexPool) → IsValid p → 0 < size p → IsValid (get_next_available p).1
get_next_available-IsValid p v h = elim (get_next_available-Taken p v) [
  | inl (empty, _) ↦ absurd (omega arith)
  | inr (_, taken) ↦ taken.valid
]

pub Step-IsShared :
    (base : ℤ) (n : ℕ) {s t : Client} → Step s t → IsShared base n s → IsShared base n t
unfolding count
Step-IsShared base n {s = s} (take h) v = record {
  valid = get_next_available-IsValid s.pool v.valid h;
  shared = λ x. omega (arith, get_next_available-count s.pool x v.valid h, v.shared x);
}
Step-IsShared base n {s = s} (give before i after e) v =
    let split = λ (x : ℤ). ap (count x) e ∙ count-append x before (i ∷ after) in
    let out : count i s.pool.pool.nums ≡ 0 = ground (arith, split i, v.shared i, equal_iff i i) in
    record {
      valid = (free-IsValid s.pool i v.valid).0;
      shared = λ x. omega (
        arith,
        split x,
        free-count s.pool i x v.valid out,
        v.shared x,
        count-append x before after,
      );
    }

-- From a new pool on, whatever is taken and freed, each number of [base, base + n) is in the pool
-- or held by one caller, and no other number is: no number is handed out while it is held.
pub Reach-IsShared :
    (base : ℤ) (n : ℕ) {t : Client}
    → Reach (record { pool = new_index_pool base n; held = [] }) t
    → IsShared base n t
unfolding new_index_pool count
Reach-IsShared base n here =
    let (v, c) = push_range-count n base (record { nums = [] }) (λ c p q r. absurd (omega arith)) in
    record {
      valid = record { heap = v; once = λ x. ground (arith, c x) };
      shared = λ x. omega (arith, c x);
    }
Reach-IsShared base n (next r st) = Step-IsShared base n st (Reach-IsShared base n r)
