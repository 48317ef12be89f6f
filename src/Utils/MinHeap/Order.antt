-- ===== src/Utils/MinHeap/Order.antt =====
-- utils/min_heap.go: the heap order, and how up and down of container/heap restore it.
use low_latency_faa_s.Prelude.{
  ℕ, zero, suc, ◌+◌, ◌*◌, ◌≤◌, ◌<◌, ◌≡◌, ◌≢◌, refl, ◌⊎◌, inl, inr, true, List, arith, length,
  Bool-cases, ltb, ◌==◌, if◌then◌else◌,
}
use low_latency_faa_s.Prelude.Int.{ℤ, ◌≤ℤ◌}
use low_latency_faa_s.Utils.MinHeap.{at, swap, parent, child, less, up, down}
use low_latency_faa_s.Utils.MinHeap.Count.{count, length-swap, at-swap, count-swap}

-- Every edge from `lo` on, among the first `n` entries, is in order.
abbrev pub IsHeap : ℕ → ℕ → List ℤ → Type 0
IsHeap lo n a = (c : ℕ) → 0 < c → c < n → lo ≤ parent c → at a (parent c) ≤ℤ at a c

-- The same length, and the same numbers as often.
pub record Same (b a : List ℤ) : Type 0 where
  pub size : length b ≡ length a
  pub counts : (x : ℤ) → count x b ≡ count x a

pub Same-refl : (a : List ℤ) → Same a a
Same-refl a = record { size = refl; counts = λ x. refl }

pub Same-trans : {a b c : List ℤ} → Same c b → Same b a → Same c a
Same-trans p q = record {
  size = omega (arith, p.size, q.size);
  counts = λ x. omega (arith, p.counts x, q.counts x);
}

pub swap-Same : (a : List ℤ) (i j : ℕ) → i < length a → j < length a → Same (swap a i j) a
swap-Same a i j hi hj = record { size = length-swap a i j; counts = count-swap a i j hi hj }

abbrev pub Sifted : ℕ → ℕ → List ℤ → List ℤ → Type 0
Sifted lo n a b = IsHeap lo n b × Same b a

Sifted-swap :
    (lo n : ℕ) (a b : List ℤ) (i j : ℕ)
    → i < length a
    → j < length a
    → Sifted lo n (swap a i j) b
    → Sifted lo n a b
Sifted-swap lo n a b i j hi hj s = (s.0, Same-trans s.1 (swap-Same a i j hi hj))

-- What up needs at `j`: only the edge above `j` may be out of order.
pub record UpInv (n : ℕ) (a : List ℤ) (j : ℕ) : Type 0 where
  pub whole : n ≡ length a
  pub inside : j < n
  pub edges : (c : ℕ) → 0 < c → c < n → c ≢ j → at a (parent c) ≤ℤ at a c
  pub bridge : (c : ℕ) → 0 < c → c < n → parent c ≡ j → 0 < j → at a (parent j) ≤ℤ at a c

module _ (n : ℕ) (a : List ℤ) (j : ℕ) (v : UpInv n a j) (apart : parent j ≢ j)
    (below : less a j (parent j) ≡ true) where
  abbrev raised : ℕ → ℤ
  raised c = if j == c then at a (parent j) else if parent j == c then at a j else at a c

  at-raised : (c : ℕ) → at (swap a (parent j) j) c ≡ raised c
  at-raised =
      at-swap a (parent j) j (omega (arith, v.whole, v.inside)) (omega (arith, v.whole, v.inside))

  raised_edges : (c : ℕ) → 0 < c → c < n → c ≢ parent j → raised (parent c) ≤ℤ raised c
  raised_edges c p q r = ground (arith, v.edges c, v.edges (parent j), v.bridge c)

  raised_bridge :
      (c : ℕ)
      → 0 < c
      → c < n
      → parent c ≡ parent j
      → 0 < parent j
      → raised (parent (parent j)) ≤ℤ raised c
  raised_bridge c p q r o = ground (arith, v.edges c, v.edges (parent j))

  swap-UpInv : UpInv n (swap a (parent j) j) (parent j)
  swap-UpInv = record {
    whole = omega (arith, v.whole, length-swap a (parent j) j);
    inside = omega (arith, v.inside);
    edges = λ c p q r. rw (at-raised c, at-raised (parent c)) (raised_edges c p q r);
    bridge = λ c p q r o. rw (at-raised c, at-raised (parent (parent j))) (raised_bridge c p q r o);
  }

pub up_restores : (k n : ℕ) (a : List ℤ) (j : ℕ) → j < k → UpInv n a j → Sifted 0 n a (up k a j)
unfolding up
up_restores zero n a j h v = absurd (omega arith)
up_restores (suc k) n a j h v = elim (Bool-cases (parent j == j)) [
  | inl top ↦ rw (top, up) (λ c p q r. v.edges c p q (ground arith), Same-refl a)
  | inr low ↦ elim (Bool-cases (less a j (parent j))) [
    | inr right ↦ rw (low, right, up) (λ c p q r. ground (arith, v.edges c p q), Same-refl a)
    | inl below ↦
        let apart : parent j ≢ j = ground arith in
        rw (low, below, up)
          (Sifted-swap 0 n a _ (parent j) j (omega (arith, v.whole, v.inside))
            (omega (arith, v.whole, v.inside))
            (up_restores k n _ (parent j) (omega arith) (swap-UpInv n a j v apart below)))
  ]
]

-- What down needs at `i`: only the edges below `i` may be out of order.
pub record DownInv (lo n : ℕ) (a : List ℤ) (i : ℕ) : Type 0 where
  pub inside : n ≤ length a
  pub edges : (c : ℕ) → 0 < c → c < n → lo ≤ parent c → parent c ≢ i → at a (parent c) ≤ℤ at a c
  pub bridge :
      (c : ℕ) → 0 < c → c < n → parent c ≡ i → 0 < i → lo ≤ parent i → at a (parent i) ≤ℤ at a c

-- The child is one below `i`, and no other child is smaller.
record IsChild (a : List ℤ) (i n j : ℕ) : Type 0 where
  below : j < n
  linked : parent j ≡ i
  positive : i < j
  smaller : (c : ℕ) → 0 < c → c < n → parent c ≡ i → at a j ≤ℤ at a c

-- The children of `i` are the entries at 2 i + 1 and 2 i + 2.
child_smaller :
    (a : List ℤ) (i n c : ℕ)
    → (c ≡ 2 * i + 1) ⊎ (c ≡ 2 * i + 2)
    → c < n
    → at a (child a i n) ≤ℤ at a c
child_smaller a i n c (inl e) q = rw e (ground arith)
child_smaller a i n c (inr e) q = rw e (ground arith)

child-IsChild : (a : List ℤ) (i n : ℕ) → 2 * i + 1 < n → IsChild a i n (child a i n)
child-IsChild a i n room = record {
  below = ground arith;
  linked = ground arith;
  positive = ground arith;
  smaller = λ c p q r. child_smaller a i n c (omega arith) q;
}

swap-DownInv :
    (lo n : ℕ) (a : List ℤ) (i j : ℕ)
    → lo ≤ i
    → DownInv lo n a i
    → IsChild a i n j
    → less a j i ≡ true
    → DownInv lo n (swap a i j) j
swap-DownInv lo n a i j l v ch below = grind (arith, length-swap a i j, at-swap a i j)

pub down_restores :
    (lo k : ℕ) (a : List ℤ) (i n : ℕ)
    → n < k + i
    → lo ≤ i
    → DownInv lo n a i
    → Sifted lo n a (down k a i n)
unfolding down
down_restores lo zero a i n h l v = (λ c p q r. v.edges c p q r (omega arith), Same-refl a)
down_restores lo (suc k) a i n h l v = elim (Bool-cases (ltb (2 * i + 1) n)) [
  | inr leaf ↦ rw (leaf, down) (λ c p q r. ground (arith, v.edges c p q r), Same-refl a)
  | inl room ↦
      let ch = child-IsChild a i n (ground arith) in
      elim (Bool-cases (less a (child a i n) i)) [
        | inr right ↦
            rw (room, right, down)
              (λ c p q r. ground (arith, v.edges c p q r, ch.smaller c p q), Same-refl a)
        | inl below ↦
            rw (room, below, down)
              (Sifted-swap lo n a _ i (child a i n) (omega (arith, v.inside, ch.below, ch.positive))
                (omega (arith, v.inside, ch.below))
                (down_restores lo k _ (child a i n) n (omega (arith, ch.positive))
                  (omega (arith, ch.positive)) (swap-DownInv lo n a i _ l v ch below)))
      ]
]

-- Down leaves the entries from `n` on where they are.
pub at-down : (k : ℕ) (a : List ℤ) (i n c : ℕ) → n ≤ length a → n ≤ c → at (down k a i n) c ≡ at a c
unfolding down
at-down zero a i n c h l = refl
at-down (suc k) a i n c h l = elim (Bool-cases (ltb (2 * i + 1) n)) [
  | inr leaf ↦ rw (leaf, down)
  | inl room ↦
      let ch = child-IsChild a i n (ground arith) in
      elim (Bool-cases (less a (child a i n) i)) [
        | inr right ↦ rw (room, right, down)
        | inl below ↦
            rw (room, below, down)
              (ground (
                arith,
                ch.below,
                ch.positive,
                length-swap a i (child a i n),
                at-swap a i (child a i n) (omega (arith, ch.below, ch.positive))
                    (omega (arith, ch.below)) c,
                at-down k (swap a i (child a i n)) (child a i n) n c,
              ))
      ]
]

root_least_below : (k n : ℕ) (a : List ℤ) (i : ℕ) → IsHeap 0 n a → i < k → i < n → at a 0 ≤ℤ at a i
root_least_below zero n a i h f p = absurd (omega arith)
root_least_below (suc k) n a i h f p = ground (arith, h i, root_least_below k n a (parent i) h)

-- The root of a heap is a least number.
pub root_least : (n : ℕ) (a : List ℤ) (i : ℕ) → IsHeap 0 n a → i < n → at a 0 ≤ℤ at a i
root_least n a i h p = root_least_below (suc i) n a i h (omega arith) p
