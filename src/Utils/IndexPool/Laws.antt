-- ===== src/Utils/IndexPool/Laws.antt =====
-- utils/index_pool.go: a pool is a finite set of numbers, of which GetNextAvailable takes the least.
use low_latency_faa_s.Prelude.{
  ℕ, zero, suc, ◌+◌, ◌≤◌, ◌<◌, ◌≡◌, Bool, true, ◌&&◌, ◌||◌, not, ◌⊎◌, ◌↔◌, inl, inr, List, [], ◌∷◌,
  arith, ltb, ◌==◌, if◌then◌else◌, length, Bool-cases,
}
use low_latency_faa_s.Prelude.Int.{ℤ, pos, negsuc, ◌+ℤ◌, ◌≤ℤ◌, ltb_ℤ, pos_part, neg_part, +ℤ_parts}
use low_latency_faa_s.Utils.MinHeap.{MinHeap, at, equal, contain, heap_push, heap_pop}
use low_latency_faa_s.Utils.MinHeap.Count.{count, contain_iff, equal_iff}
use low_latency_faa_s.Utils.MinHeap.Laws.{IsHeapOf, heap_push-Pushed, heap_pop-Popped}
use low_latency_faa_s.Utils.IndexPool.{
  IndexPool, push_range, new_index_pool, size, get_next_available, free,
}

-- A heap in which no number stands twice.
pub record IsValid (p : IndexPool) : Type 0 where
  pub heap : IsHeapOf p.pool
  pub once : (x : ℤ) → count x p.pool.nums ≤ 1

-- The set that a pool stands for.
abbrev pub holds : IndexPool → ℤ → Bool
holds p x = contain p.pool x

-- How often `x` stands in base, base + 1, ..., base + n - 1.
abbrev pub in_range : ℤ → ℕ → ℤ → ℕ
in_range base n x =
    if ltb (pos_part x + neg_part base) (pos_part base + neg_part x)
    then 0
    else if ltb (pos_part x + neg_part base) (pos_part base + neg_part x + n)
    then 1
    else 0

pub push_range-count :
    (n : ℕ) (i : ℤ) (h : MinHeap)
    → IsHeapOf h
    → IsHeapOf (push_range n i h)
      × ((x : ℤ) → count x (push_range n i h).nums ≡ count x h.nums + in_range i n x)
unfolding push_range
push_range-count zero i h v = (v, λ x. ground arith)
push_range-count (suc n) i h v =
    let p = heap_push-Pushed h i v in
    let (v', c) = push_range-count n (i +ℤ pos 1) (heap_push h i) p.heap in
    (v', λ x. ground (arith, c x, p.counts x, +ℤ_parts i (pos 1), equal_iff i x))

-- A new pool is a heap with no number twice, and holds exactly the numbers of [base, base + n).
pub new_index_pool-IsValid :
    (base : ℤ) (n : ℕ)
    → IsValid (new_index_pool base n)
      × ((x : ℤ)
          → (holds (new_index_pool base n) x ≡ true)
            ↔ ((base ≤ℤ x) × (ltb_ℤ x (base +ℤ pos n) ≡ true)))
unfolding new_index_pool count
new_index_pool-IsValid base n =
    let (v, c) = push_range-count n base (record { nums = [] }) (λ c p q r. absurd (omega arith)) in
    (
      record { heap = v; once = λ x. ground (arith, c x) },
      λ x. ground (
        arith,
        c x,
        +ℤ_parts base (pos n),
        contain_iff (push_range n base (record { nums = [] })) x,
      ),
    )

-- What GetNextAvailable does on a pool that is not empty.
pub record Taken (p : IndexPool) (r : ℤ × IndexPool) : Type 0 where
  pub valid : IsValid r.1
  pub held : holds p r.0 ≡ true
  pub least : (x : ℤ) → holds p x ≡ true → r.0 ≤ℤ x
  pub rest : (x : ℤ) → holds r.1 x ≡ (holds p x && not (equal r.0 x))

least_of_count :
    (b : ℤ) (a : List ℤ) → ((i : ℕ) → i < length a → b ≤ℤ at a i) → (x : ℤ) → 0 < count x a → b ≤ℤ x
unfolding count
least_of_count b [] h x c = absurd (omega arith)
least_of_count b (y ∷ a) h x c =
    ground (arith, h 0, equal_iff y x, least_of_count b a (λ i p. h (suc i) (omega arith)) x)

-- GetNextAvailable on a valid pool that is not empty takes out the least number, and that one alone,
-- and leaves a valid pool; on an empty pool it answers -1 and changes nothing.
pub get_next_available-Taken :
    (p : IndexPool)
    → IsValid p
    → ((size p ≡ 0) × (get_next_available p ≡ (negsuc 0, p)))
      ⊎ ((0 < size p) × Taken p (get_next_available p))
unfolding get_next_available
get_next_available-Taken p v = elim (Bool-cases (size p == 0)) [
  | inl none_left ↦ inl (ground arith, rw none_left)
  | inr some_left ↦
      let q = heap_pop-Popped p.pool (ground arith) v.heap in
      let r = heap_pop p.pool in
      inr (
        ground arith,
        rw some_left (record {
          valid = record { heap = q.heap; once = λ x. omega (arith, q.counts x, v.once x) };
          held = ground (arith, q.counts r.0, contain_iff p.pool r.0, equal_iff r.0 r.0);
          least = λ x h.
              least_of_count r.0 p.pool.nums q.least x (ground (arith, contain_iff p.pool x));
          rest = λ x. ground (arith, q.counts x, v.once x, contain_iff p.pool x, contain_iff r.1 x);
        }),
      )
]

-- Free of a number keeps a pool a heap with no number twice, and the pool then holds that number and
-- what it held before.
pub free-IsValid :
    (p : IndexPool) (i : ℤ)
    → IsValid p
    → IsValid (free p i) × ((x : ℤ) → holds (free p i) x ≡ (equal i x || holds p x))
unfolding free
free-IsValid p i v = elim (Bool-cases (contain p.pool i)) [
  | inl old ↦ rw old (v, λ x. ground (arith, equal_iff i x))
  | inr new ↦
      let q = heap_push-Pushed p.pool i v.heap in
      rw new (
        record {
          heap = q.heap;
          once = λ x. ground (arith, q.counts x, v.once x, equal_iff i x, contain_iff p.pool i);
        },
        λ x. ground (arith, q.counts x, contain_iff p.pool x, contain_iff (heap_push p.pool i) x),
      )
]
