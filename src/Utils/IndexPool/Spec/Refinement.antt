-- ===== src/Utils/IndexPool/Spec/Refinement.antt =====
-- utils/index_pool.go: that the heap does what the sorted list of the specification does.
use low_latency_faa_s.Prelude.{
  ℕ, zero, suc, ◌+◌, ◌<◌, ◌≡◌, refl, ap, inl, inr, true, List, [], ◌∷◌, arith, ◌==◌, if◌then◌else◌,
  length,
}
use low_latency_faa_s.Prelude.Int.{ℤ, pos, negsuc, ◌+ℤ◌, ◌≤ℤ◌}
use low_latency_faa_s.Utils.MinHeap.{MinHeap, len, contain, heap_push}
use low_latency_faa_s.Utils.MinHeap.Count.{count, contain_iff, equal_iff, tally}
use low_latency_faa_s.Utils.MinHeap.Laws.{IsHeapOf, heap_push-Pushed, heap_pop-Popped}
use low_latency_faa_s.Utils.IndexPool.{
  IndexPool, push_range, new_index_pool, size, get_next_available, free,
}
use low_latency_faa_s.Utils.IndexPool.History.{get_next_available-count}
use low_latency_faa_s.Utils.IndexPool.Laws.{
  IsValid, holds, Taken, push_range-count, get_next_available-Taken, free-IsValid,
}
use low_latency_faa_s.Utils.IndexPool.Spec.{
  Call, get_next, put, ask_size, call, answers, range, insert, spec_call, spec_answers, IsSorted,
  sorted_next, insert-count, insert-IsSorted, insert-length, range-IsSorted, range-count,
  range-length,
}

-- A valid pool that holds the numbers of a sorted list.
pub record Refines (p : IndexPool) (l : List ℤ) : Type 0 where
  pub valid : IsValid p
  pub sorted : IsSorted l
  pub counts : (x : ℤ) → count x p.pool.nums ≡ count x l
  pub length : len p.pool ≡ length l

push_range-length : (n : ℕ) (i : ℤ) (h : MinHeap) → IsHeapOf h → len (push_range n i h) ≡ n + len h
unfolding push_range
push_range-length zero i h v = omega arith
push_range-length (suc n) i h v =
    let p = heap_push-Pushed h i v in
    omega (arith, push_range-length n (i +ℤ pos 1) (heap_push h i) p.heap, p.size)

new_index_pool-Refines : (base : ℤ) (n : ℕ) → Refines (new_index_pool base n) (range base n)
unfolding new_index_pool count
new_index_pool-Refines base n =
    let empty : IsHeapOf (record { nums = [] }) = λ c p q r. absurd (omega arith) in
    let (v, c) = push_range-count n base (record { nums = [] }) empty in
    record {
      valid = record { heap = v; once = λ x. ground (arith, c x) };
      sorted = range-IsSorted base n;
      counts = λ x. omega (arith, c x, range-count base n x);
      length =
          omega (arith, push_range-length n base (record { nums = [] }) empty, range-length base n);
    }

pub size-new_index_pool : (base : ℤ) (n : ℕ) → size (new_index_pool base n) ≡ n
size-new_index_pool base n =
    omega (arith, (new_index_pool-Refines base n).length, range-length base n)

free-length :
    (p : IndexPool) (i : ℤ)
    → IsValid p
    → len (free p i).pool ≡ len p.pool + (if contain p.pool i then 0 else 1)
unfolding free
free-length p i v = ground (arith, (heap_push-Pushed p.pool i v.heap).size)

free-counts :
    (p : IndexPool) (i x : ℤ)
    → IsValid p
    → count x (free p i).pool.nums
      ≡ count x p.pool.nums + (if contain p.pool i then 0 else tally i x)
unfolding free
free-counts p i x v = ground (arith, (heap_push-Pushed p.pool i v.heap).counts x)

put-Refines : (p : IndexPool) (l : List ℤ) (i : ℤ) → Refines p l → Refines (free p i) (insert i l)
put-Refines p l i r = record {
  valid = (free-IsValid p i r.valid).0;
  sorted = insert-IsSorted i l r.sorted;
  counts = λ x. ground (
    arith,
    free-counts p i x r.valid,
    insert-count i l r.sorted x,
    contain_iff p.pool i,
    r.counts x,
    r.counts i,
  );
  length = ground (
    arith,
    free-length p i r.valid,
    insert-length i l r.sorted,
    contain_iff p.pool i,
    r.counts i,
    r.length,
  );
}

-- What a call answers is what the specification answers, and leaves what it leaves.
record Agrees (a : ℤ × IndexPool) (b : ℤ × List ℤ) : Type 0 where
  answer : a.0 ≡ b.0
  rest : Refines a.1 b.1

≤ℤ-antisym : (a b : ℤ) → a ≤ℤ b → b ≤ℤ a → a ≡ b
≤ℤ-antisym (pos a) (pos b) h k = ground (arith, h, k)
≤ℤ-antisym (pos a) (negsuc b) h k = absurd (omega (arith, h, k))
≤ℤ-antisym (negsuc a) (pos b) h k = absurd (omega (arith, h, k))
≤ℤ-antisym (negsuc a) (negsuc b) h k = ground (arith, h, k)

tail-IsSorted : (x : ℤ) (l : List ℤ) → IsSorted (x ∷ l) → IsSorted l
tail-IsSorted x l (sorted_next h s) = s

head-least : (x : ℤ) (l : List ℤ) → IsSorted (x ∷ l) → (y : ℤ) → 0 < count y (x ∷ l) → x ≤ℤ y
unfolding count
head-least x l (sorted_next h s) y c = ground (arith, c, h y, equal_iff x y)

first_least :
    (p : IndexPool) (x : ℤ) (l : List ℤ)
    → Refines p (x ∷ l)
    → (a : ℤ) → holds p a ≡ true
    → ((y : ℤ) → holds p y ≡ true → a ≤ℤ y)
    → a ≡ x
unfolding count
first_least p x l r a held least =
    ≤ℤ-antisym a x (least x (ground (arith, contain_iff p.pool x, r.counts x, equal_iff x x)))
      (head-least x l r.sorted a (ground (arith, contain_iff p.pool a, r.counts a, held)))

counts_rest :
    (x : ℤ) (l : List ℤ) (a : ℤ)
    → a ≡ x
    → (y : ℤ) (c d : ℕ) → c + tally a y ≡ d
    → d ≡ count y (x ∷ l)
    → c ≡ count y l
unfolding count
counts_rest x l a e y c d h k = omega (arith, ap (λ z. tally z y) e, h, k)

get_next_available-length :
    (p : IndexPool) → IsValid p → 0 < size p → suc (len (get_next_available p).1.pool) ≡ len p.pool
unfolding get_next_available
get_next_available-length p v h = ground (arith, (heap_pop-Popped p.pool h v.heap).size)

Taken-Agrees :
    (p : IndexPool) (x : ℤ) (l : List ℤ)
    → Refines p (x ∷ l)
    → 0 < size p
    → Taken p (get_next_available p)
    → Agrees (get_next_available p) (x, l)
Taken-Agrees p x l r h t =
    let first = (get_next_available p).0 in
    let e : first ≡ x = first_least p x l r first t.held t.least in
    record {
      answer = e;
      rest = record {
        valid = t.valid;
        sorted = tail-IsSorted x l r.sorted;
        counts = λ y.
            counts_rest x l first e y _ _ (get_next_available-count p y r.valid h) (r.counts y);
        length = omega (arith, get_next_available-length p r.valid h, r.length);
      };
    }

get_next-Agrees :
    (p : IndexPool) (l : List ℤ)
    → Refines p l
    → Agrees (get_next_available p) (spec_call get_next l)
unfolding spec_call count get_next_available
get_next-Agrees p [] r =
    let e : (len p.pool == 0) ≡ true = ground (arith, r.length) in
    rw e (record { answer = refl; rest = r })
get_next-Agrees p (x ∷ l) r = elim (get_next_available-Taken p r.valid) [
  | inl (none_left, _) ↦ absurd (omega (arith, none_left, r.length))
  | inr (some_left, t) ↦ Taken-Agrees p x l r some_left t
]

call-Agrees :
    (c : Call) (p : IndexPool) (l : List ℤ) → Refines p l → Agrees (call c p) (spec_call c l)
unfolding call spec_call
call-Agrees get_next p l r = get_next-Agrees p l r
call-Agrees (put i) p l r = record { answer = refl; rest = put-Refines p l i r }
call-Agrees ask_size p l r = record { answer = ap pos r.length; rest = r }

answers-Refines :
    (cs : List Call) (p : IndexPool) (l : List ℤ) → Refines p l → answers cs p ≡ spec_answers cs l
unfolding answers spec_answers
answers-Refines [] p l r = refl
answers-Refines (c ∷ cs) p l r =
    let a = call-Agrees c p l r in
    rw (a.answer, answers-Refines cs (call c p).1 (spec_call c l).1 a.rest) refl

-- From a new pool on, any sequence of calls of GetNextAvailable, Free and Size is answered as the
-- specification answers it: a sorted list without duplicates, which starts as [base, base + n), of which
-- GetNextAvailable takes the head, or answers -1 when it is empty, and into which Free inserts.
pub answers-spec_answers :
    (base : ℤ) (n : ℕ) (cs : List Call)
    → answers cs (new_index_pool base n) ≡ spec_answers cs (range base n)
answers-spec_answers base n cs =
    answers-Refines cs (new_index_pool base n) (range base n) (new_index_pool-Refines base n)
