-- ===== src/Tests/Utils.antt =====
-- Concrete runs: utils/index_pool.go and utils/backoff.go.
use low_latency_faa_s.Prelude.{
  ℕ, ◌+◌, ◌-◌, ◌<◌, ◌≡◌, ◌⊎◌, refl, true, List, [], ◌∷◌, arith, ltb, leb,
}
use low_latency_faa_s.Prelude.Int.{ℤ, pos, negsuc, ◌+ℤ◌, ◌≤ℤ◌, ltb_ℤ}
use low_latency_faa_s.Utils.MinHeap.{up, push_back, heap_push, heap_init}
use low_latency_faa_s.Utils.IndexPool.{
  IndexPool, push_range, new_index_pool, size, get_next_available,
}
use low_latency_faa_s.Utils.IndexPool.History.{
  Client, IsShared, Reach, here, next, take, Reach-IsShared,
}
use low_latency_faa_s.Utils.IndexPool.Spec.{
  Call, get_next, put, ask_size, answers, range, insert, spec_call, spec_answers,
}
use low_latency_faa_s.Utils.IndexPool.Spec.Refinement.{answers-spec_answers}
use low_latency_faa_s.Utils.Backoff.{
  Floats, Backoff, for_attempt, min_of, max_of, durations, planned, reset, for_attempt_bounds,
  durations-reset,
}

-- The ports 50052, 50053 and 50054 of a worker.
abbrev ports : IndexPool
ports = new_index_pool (pos 50052) 3

abbrev start : Client
start = record { pool = ports; held = [] }

some_left : 0 < size ports
unfolding new_index_pool push_range heap_init heap_push push_back up ◌+ℤ◌
some_left = omega arith

taken_one :
    Reach start
      (record { pool = (get_next_available ports).1; held = (get_next_available ports).0 ∷ [] })
taken_one = next here (take some_left)

Reach-IsShared_example :
    IsShared
      (pos 50052)
      3
      (record { pool = (get_next_available ports).1; held = (get_next_available ports).0 ∷ [] })
Reach-IsShared_example = Reach-IsShared (pos 50052) 3 taken_one

-- Numbers in place of floats.
abbrev whole : Floats
whole = record {
  Float = ℕ;
  of_int = λ (x : ℤ). elim x [ pos n ↦ n | negsuc n ↦ 0 ];
  add = λ (x y : ℕ). x + y;
  sub = λ (x y : ℕ). x - y;
  mul = λ (x y : ℕ). x + y;
  pow = λ (x y : ℕ). x + y;
  lt = λ (x y : ℕ). ltb x y;
  le = λ (x y : ℕ). leb x y;
  to_int = λ (x : ℕ). pos x;
  max_int64 = 1000;
}

abbrev policy : Backoff ℕ
policy = record { attempt = 4; factor = 2; jitter = true; min = pos 3; max = pos 9 }

for_attempt_bounds_example :
    (for_attempt whole policy 1 6 ≤ℤ max_of policy)
    × ((ltb_ℤ (max_of policy) (min_of policy) ≡ true)
        ⊎ (min_of policy ≤ℤ for_attempt whole policy 1 6))
for_attempt_bounds_example = for_attempt_bounds whole policy 1 6

durations-reset_example :
    ((durations whole (1 ∷ 0 ∷ []) (reset whole policy)).0 ≡ planned whole 0 (1 ∷ 0 ∷ []) policy)
    × ((durations whole (1 ∷ 0 ∷ []) (reset whole policy)).1 ≡ record policy { attempt = 2 })
durations-reset_example = durations-reset whole (1 ∷ 0 ∷ []) policy (omega arith)

-- Two numbers of a pool of two are taken, a third is not there, and one comes back.
abbrev calls : List Call
calls = get_next ∷ get_next ∷ get_next ∷ put (pos 1) ∷ ask_size ∷ get_next ∷ []

answers-spec_answers_example :
    answers calls (new_index_pool (pos 0) 2) ≡ spec_answers calls (range (pos 0) 2)
answers-spec_answers_example = answers-spec_answers (pos 0) 2 calls

-- What the specification answers.
spec_answers_run :
    spec_answers calls (range (pos 0) 2) ≡ pos 0 ∷ pos 1 ∷ negsuc 0 ∷ pos 0 ∷ pos 1 ∷ pos 1 ∷ []
unfolding spec_answers spec_call range insert ◌+ℤ◌
spec_answers_run = refl
