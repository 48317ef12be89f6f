-- ===== src/Utils/IndexPool.antt =====
-- utils/index_pool.go: a pool of numbers that hands out the least one.
-- The mutex makes each method one atomic step; the methods are modelled as such steps.
pub mod Laws
pub mod History
pub mod Spec
use low_latency_faa_s.Prelude.{ℕ, zero, suc, Bool, true, false, List, [], ◌∷◌, if◌then◌else◌, ◌==◌}
use low_latency_faa_s.Prelude.Int.{ℤ, pos, negsuc, ◌+ℤ◌}
use low_latency_faa_s.Utils.MinHeap.{
  MinHeap, len, contain, heap_push, heap_pop, heap_init, new_min_heap,
}

pub record IndexPool : Type 0 where
  pub pool : MinHeap

-- The loop of NewIndexPool over i, i + 1, ..., for `rounds` numbers.
unfoldable pub push_range : ℕ → ℤ → MinHeap → MinHeap
push_range zero i h = h
push_range (suc rounds) i h = push_range rounds (i +ℤ pos 1) (heap_push h i)

unfoldable pub new_index_pool : ℤ → ℕ → IndexPool
unfolding push_range heap_push heap_init
new_index_pool base n = record { pool = push_range n base (heap_init new_min_heap) }

abbrev pub size : IndexPool → ℕ
size p = len p.pool

-- -1 says that the pool is empty.
unfoldable pub get_next_available : IndexPool → ℤ × IndexPool
get_next_available p =
    if len p.pool == 0
    then (negsuc 0, p)
    else let (i, h) = heap_pop p.pool in (i, record p { pool = h })

unfoldable pub free : IndexPool → ℤ → IndexPool
free p i = if contain p.pool i then p else record p { pool = heap_push p.pool i }
