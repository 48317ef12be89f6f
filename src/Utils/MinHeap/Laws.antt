-- ===== src/Utils/MinHeap/Laws.antt =====
-- utils/min_heap.go: Init, Push and Pop of container/heap keep a heap and the numbers in it.
use low_latency_faa_s.Prelude.{
  ℕ, zero, suc, ◌+◌, ◌-◌, ◌/◌, ◌<◌, ◌≡◌, List, [], ◌∷◌, ◌++◌, arith, length, take, length-append,
  length-take, ◌∙◌,
}
use low_latency_faa_s.Prelude.Int.{ℤ, ◌≤ℤ◌}
use low_latency_faa_s.Utils.MinHeap.{
  MinHeap, at, swap, parent, down, push_back, pop_back, heap_push, heap_pop, heap_init,
  heap_init_loop,
}
use low_latency_faa_s.Utils.MinHeap.Count.{
  tally, count, count-append, count-take, count-swap, length-swap, at-swap, at-append, at-take,
}
use low_latency_faa_s.Utils.MinHeap.Order.{
  IsHeap, Sifted, UpInv, DownInv, Same-refl, Same-trans, up_restores, down_restores, at-down,
  root_least,
}

abbrev pub IsHeapOf : MinHeap → Type 0
IsHeapOf h = IsHeap 0 (length h.nums) h.nums

append-UpInv :
    (a : List ℤ) (x : ℤ) (j : ℕ)
    → j ≡ length a
    → IsHeap 0 (length a) a
    → UpInv (suc (length a)) (a ++ x ∷ []) j
append-UpInv a x j e v = record {
  whole = omega (arith, length-append a (x ∷ []));
  inside = omega arith;
  edges = λ c p q r. ground (arith, v c, at-append a (x ∷ []) c, at-append a (x ∷ []) (parent c));
  bridge = λ c p q r o. absurd (omega arith);
}

-- `g` is the heap `h` after a push of `x`.
pub record Pushed (h : MinHeap) (x : ℤ) (g : MinHeap) : Type 0 where
  pub heap : IsHeapOf g
  pub size : length g.nums ≡ suc (length h.nums)
  pub counts : (y : ℤ) → count y g.nums ≡ count y h.nums + tally x y

-- Push on a heap gives a heap with one entry more: the number is in it once more, and every other
-- number as often as before.
pub heap_push-Pushed : (h : MinHeap) (x : ℤ) → IsHeapOf h → Pushed h x (heap_push h x)
unfolding heap_push push_back count
heap_push-Pushed h x v =
    let b = h.nums ++ x ∷ [] in
    let grown : length b ≡ suc (length h.nums) = omega (arith, length-append h.nums (x ∷ [])) in
    let (heap, same) =
      up_restores (length b) (suc (length h.nums)) b (length b - 1) (omega arith)
        (append-UpInv h.nums x _ (omega arith) v) in
    record {
      heap = λ c p q r. heap c p (omega (arith, same.size)) r;
      size = omega (arith, same.size);
      counts = λ y. omega (arith, same.counts y, count-append y h.nums (x ∷ []));
    }

-- `r` is the number that a pop of `h` answers with, and the heap after it.
pub record Popped (h : MinHeap) (r : ℤ × MinHeap) : Type 0 where
  pub heap : IsHeapOf r.1
  pub size : suc (length r.1.nums) ≡ length h.nums
  pub counts : (y : ℤ) → count y r.1.nums + tally r.0 y ≡ count y h.nums
  pub least : (i : ℕ) → i < length h.nums → r.0 ≤ℤ at h.nums i

module _ (a : List ℤ) (n : ℕ) (whole : length a ≡ suc n) (v : IsHeap 0 (suc n) a) where
  cut-DownInv : DownInv 0 n (swap a 0 n) 0
  cut-DownInv = record {
    inside = omega (arith, length-swap a 0 n);
    edges = λ c p q r s. ground (
      arith,
      v c,
      at-swap a 0 n (omega arith) (omega arith) c,
      at-swap a 0 n (omega arith) (omega arith) (parent c),
    );
    bridge = λ c p q r s. absurd (omega arith);
  }

  cut-Sifted : Sifted 0 n (swap a 0 n) (down (suc n) (swap a 0 n) 0 n)
  cut-Sifted = down_restores 0 (suc n) (swap a 0 n) 0 n (omega arith) (omega arith) cut-DownInv

  -- Pop's last step, at the length `m` that it reads.
  cut-Popped :
      (m : ℕ)
      → m ≡ n
      → let d = down (suc n) (swap a 0 n) 0 n in
        Popped (record { nums = a }) (at d m, record { nums = take m d })
  cut-Popped m e =
      let d = down (suc n) (swap a 0 n) 0 n in
      let (heap, same) = cut-Sifted in
      let whole' : length d ≡ suc n = omega (arith, same.size, length-swap a 0 n) in
      let last : at d n ≡ at a 0 =
        at-down (suc n) (swap a 0 n) 0 n n (omega (arith, length-swap a 0 n)) (omega arith)
        ∙ ground (arith, at-swap a 0 n (omega arith) (omega arith) n) in
      rw e (record {
        heap = λ c p q r.
            let short : c < n = omega (arith, length-take n d) in
            rw (at-take n d c short, at-take n d (parent c) (omega arith)) (heap c p short r);
        size = omega (arith, length-take n d);
        counts = λ y. omega (
          arith,
          count-take y n d whole',
          same.counts y,
          count-swap a 0 n (omega arith) (omega arith) y,
        );
        least = λ i p. rw last (root_least (suc n) a i v (omega arith));
      })

-- Pop on a heap that is not empty answers with a least number of it, and leaves a heap with that number
-- once less and every other as often as before.
pub heap_pop-Popped : (h : MinHeap) → 0 < length h.nums → IsHeapOf h → Popped h (heap_pop h)
unfolding heap_pop pop_back
heap_pop-Popped h p v =
    let n = length h.nums - 1 in
    let whole : length h.nums ≡ suc n = omega arith in
    let order : IsHeap 0 (suc n) h.nums = λ c a b r. v c a (omega arith) r in
    let (heap, same) = cut-Sifted h.nums n whole order in
    cut-Popped h.nums n whole order _ (omega (arith, same.size, length-swap h.nums 0 n))

init_loop-Sifted :
    (i : ℕ) (a : List ℤ) → IsHeap i (length a) a → Sifted 0 (length a) a (heap_init_loop i a)
unfolding heap_init_loop
init_loop-Sifted zero a v = (v, Same-refl a)
init_loop-Sifted (suc i) a v =
    let b = down (suc (length a)) a i (length a) in
    let (heap, same) =
      down_restores i (suc (length a)) a i (length a) (omega arith) (omega arith) (record {
        inside = omega arith;
        edges = λ c p q r s. v c p q (omega arith);
        bridge = λ c p q r o s. absurd (omega arith);
      }) in
    let (heap', same') = init_loop-Sifted i b (λ c p q r. heap c p (omega (arith, same.size)) r) in
    (λ c p q r. heap' c p (omega (arith, same.size)) r, Same-trans same' same)

-- Init makes a heap of any slice, of the same length and with the same numbers as often.
pub heap_init-Sifted : (h : MinHeap) → Sifted 0 (length h.nums) h.nums (heap_init h).nums
unfolding heap_init
heap_init-Sifted h = init_loop-Sifted (length h.nums / 2) h.nums (λ c p q r. absurd (omega arith))
