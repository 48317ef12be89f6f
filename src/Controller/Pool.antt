-- ===== src/Controller/Pool.antt =====
-- controller/pool.go: the instances of a worker that wait for their thread's id, by port, and a pool of
-- groups without duplicates.
pub mod Laws
use low_latency_faa_s.Prelude.{
  ℕ, Bool, true, false, List, [], ◌∷◌, ◌++◌, Option, none, some, if◌then◌else◌,
}
use low_latency_faa_s.Prelude.Int.{ℤ}
use low_latency_faa_s.Utils.MinHeap.{equal}
use low_latency_faa_s.Controller.State.{SGroup}
use low_latency_faa_s.Controller.Core.{id_of, has_id, erase_id}

-- The map of Go: its entries, of which the first for a key counts.
unfoldable pub entry : List (ℤ × ℕ) → ℤ → Option ℕ
entry [] port = none
entry ((k, v) ∷ m) port = let rest = entry m port in if equal k port then some v else rest

unfoldable pub without : List (ℤ × ℕ) → ℤ → List (ℤ × ℕ)
without [] port = []
without ((k, v) ∷ m) port =
    let rest = without m port in if equal k port then rest else (k, v) ∷ rest

-- A pool of instances: a map from ports.
pub record InstancePool : Type 0 where
  pub pool : List (ℤ × ℕ)

abbrev pub new_instance_pool : InstancePool
new_instance_pool = record { pool = [] }

-- An instance that was there is only reported, and replaced.
unfoldable pub add_instance : ℤ → ℕ → InstancePool → InstancePool
add_instance port ins s = record { pool = (port, ins) ∷ without s.pool port }

unfoldable pub get_instance : ℤ → InstancePool → Option ℕ
get_instance port s = entry s.pool port

unfoldable pub remove_instance : ℤ → InstancePool → InstancePool
remove_instance port s = elim (entry s.pool port) [
  | none ↦ s
  | some _ ↦ record { pool = without s.pool port }
]

-- A pool of groups, in the order in which they came.
pub record SGroupPool : Type 0 where
  pub pool : List ℕ

abbrev pub new_sgroup_pool : SGroupPool
new_sgroup_pool = record { pool = [] }

module _ (sgs : ℕ → SGroup) where
  unfoldable pub add_to_pool : ℕ → SGroupPool → SGroupPool
  add_to_pool p s =
      if has_id sgs s.pool (id_of sgs p) then s else record { pool = s.pool ++ p ∷ [] }

  unfoldable pub first_with_id : List ℕ → ℤ → Option ℕ
  first_with_id [] id = none
  first_with_id (p ∷ ps) id =
      let rest = first_with_id ps id in if equal (id_of sgs p) id then some p else rest

  unfoldable pub get_from_pool : ℤ → SGroupPool → Option ℕ
  get_from_pool id s = first_with_id s.pool id

  unfoldable pub remove_from_pool : ℤ → SGroupPool → SGroupPool
  remove_from_pool id s = record { pool = erase_id sgs s.pool id }
