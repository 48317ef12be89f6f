-- ===== src/Controller/Core.antt =====
-- controller/core.go: the groups that a core manages, and the cores of a worker as a map.
pub mod Laws
use low_latency_faa_s.Prelude.{
  ℕ, Bool, true, false, not, List, [], ◌∷◌, ◌++◌, Option, none, some, if◌then◌else◌,
}
use low_latency_faa_s.Prelude.Int.{ℤ}
use low_latency_faa_s.Utils.MinHeap.{equal}
use low_latency_faa_s.Controller.State.{SGroup, Core}

-- The method ID of SGroup, through a pointer.
abbrev pub id_of : (ℕ → SGroup) → ℕ → ℤ
id_of sgs p = (sgs p).pcie_idx

abbrev pub new_core : ℤ → Core
new_core core_id = record { core_id = core_id; sgroups = [] }

unfoldable pub has_id : (ℕ → SGroup) → List ℕ → ℤ → Bool
has_id sgs [] id = false
has_id sgs (p ∷ ps) id =
    let rest = has_id sgs ps id in if equal (id_of sgs p) id then true else rest

unfoldable pub add_sgroup : (ℕ → SGroup) → ℕ → Core → Core
add_sgroup sgs p c =
    if has_id sgs c.sgroups (id_of sgs p) then c else record c { sgroups = c.sgroups ++ p ∷ [] }

-- The slice without the first group of that ID.
unfoldable pub erase_id : (ℕ → SGroup) → List ℕ → ℤ → List ℕ
erase_id sgs [] id = []
erase_id sgs (p ∷ ps) id =
    let rest = erase_id sgs ps id in if equal (id_of sgs p) id then ps else p ∷ rest

unfoldable pub remove_sgroup : (ℕ → SGroup) → ℕ → Core → Core
remove_sgroup sgs p c =
    if equal (sgs p).core_id c.core_id
    then record c { sgroups = erase_id sgs c.sgroups (id_of sgs p) }
    else c

-- `w.cores[id]`, and a call of a method on it.
unfoldable pub find_core : ℤ → List Core → Option Core
find_core id [] = none
find_core id (c ∷ cs) = let rest = find_core id cs in if equal c.core_id id then some c else rest

unfoldable pub modify_core : ℤ → (Core → Core) → List Core → List Core
modify_core id f [] = []
modify_core id f (c ∷ cs) =
    let rest = modify_core id f cs in if equal c.core_id id then f c ∷ cs else c ∷ rest

-- The groups on the core with that id; none where there is no such core.
abbrev pub groups_on : ℤ → List Core → List ℕ
groups_on id cs = elim (find_core id cs) [ none ↦ [] | some c ↦ c.sgroups ]
