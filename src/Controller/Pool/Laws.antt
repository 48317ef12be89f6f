-- ===== src/Controller/Pool/Laws.antt =====
-- controller/pool.go: what is found in a pool after an addition or a removal.
use low_latency_faa_s.Prelude.{
  ℕ, ◌≡◌, ◌≢◌, refl, inl, inr, true, false, List, [], ◌∷◌, ◌++◌, none, some, if◌then◌else◌, arith,
  Bool-cases,
}
use low_latency_faa_s.Prelude.Int.{ℤ}
use low_latency_faa_s.Utils.MinHeap.{equal}
use low_latency_faa_s.Utils.MinHeap.Count.{equal_iff}
use low_latency_faa_s.Controller.State.{SGroup}
use low_latency_faa_s.Controller.Core.{id_of, has_id, erase_id}
use low_latency_faa_s.Controller.Pool.{
  entry, without, InstancePool, add_instance, get_instance, remove_instance, SGroupPool,
  add_to_pool, first_with_id, get_from_pool, remove_from_pool,
}

entry-without :
    (m : List (ℤ × ℕ)) (k port : ℤ)
    → entry (without m k) port ≡ (if equal k port then none else entry m port)
unfolding entry without
entry-without [] k port = ground arith
entry-without ((j, v) ∷ m) k port =
    ground (arith, entry-without m k port, equal_iff j k, equal_iff k port, equal_iff j port)

-- After an addition the pool answers with the new instance for its port, whether or not there was one,
-- and as before for every other port; after a removal it answers with none for that port, and as before
-- for every other.
pub get_instance_lem :
    (s : InstancePool) (k port : ℤ) (ins : ℕ)
    → (get_instance port (add_instance k ins s)
        ≡ (if equal k port then some ins else get_instance port s))
      × (get_instance port (remove_instance k s)
          ≡ (if equal k port then none else get_instance port s))
unfolding get_instance add_instance remove_instance entry
get_instance_lem s k port ins = (
  ground (arith, entry-without s.pool k port),
  ground (arith, entry-without s.pool k port, equal_iff k port),
)

module _ (sgs : ℕ → SGroup) where
  -- No two groups of the list have the same ID.
  abbrev pub IsUnique : List ℕ → Type 0
  IsUnique [] = Unit
  IsUnique (p ∷ ps) = (has_id sgs ps (id_of sgs p) ≡ false) × IsUnique ps

  has_id-first : (ps : List ℕ) (id : ℤ) → has_id sgs ps id ≡ false → first_with_id sgs ps id ≡ none
  unfolding has_id first_with_id
  has_id-first [] id h = refl
  has_id-first (p ∷ ps) id h = ground (arith, h, has_id-first ps id)

  has_id-erase_id :
      (ps : List ℕ) (id j : ℤ) → has_id sgs ps j ≡ false → has_id sgs (erase_id sgs ps id) j ≡ false
  unfolding has_id erase_id
  has_id-erase_id [] id j h = refl
  has_id-erase_id (p ∷ ps) id j h = ground (arith, h, has_id-erase_id ps id j)

  erase_id-IsUnique : (ps : List ℕ) (id : ℤ) → IsUnique ps → IsUnique (erase_id sgs ps id)
  unfolding erase_id
  erase_id-IsUnique [] id u = u
  erase_id-IsUnique (p ∷ ps) id u = elim (Bool-cases (equal (id_of sgs p) id)) [
    | inl e ↦ rw e u.1
    | inr e ↦ rw e (has_id-erase_id ps id (id_of sgs p) u.0, erase_id-IsUnique ps id u.1)
  ]

  has_id-snoc :
      (ps : List ℕ) (p : ℕ) (id : ℤ)
      → has_id sgs (ps ++ p ∷ []) id ≡ (if has_id sgs ps id then true else equal (id_of sgs p) id)
  unfolding has_id
  has_id-snoc [] p id = ground arith
  has_id-snoc (q ∷ ps) p id = ground (arith, has_id-snoc ps p id)

  snoc-IsUnique :
      (ps : List ℕ) (p : ℕ)
      → has_id sgs ps (id_of sgs p) ≡ false
      → IsUnique ps
      → IsUnique (ps ++ p ∷ [])
  unfolding has_id
  snoc-IsUnique [] p h u = (refl, tt)
  snoc-IsUnique (q ∷ ps) p h u = (
    ground (
      arith,
      has_id-snoc ps p (id_of sgs q),
      h,
      u.0,
      equal_iff (id_of sgs q) (id_of sgs p),
      equal_iff (id_of sgs p) (id_of sgs q),
    ),
    snoc-IsUnique ps p (ground (arith, h)) u.1,
  )

  first-erase_id :
      (ps : List ℕ) (id j : ℤ)
      → IsUnique ps
      → first_with_id sgs (erase_id sgs ps id) j
        ≡ (if equal id j then none else first_with_id sgs ps j)
  unfolding has_id first_with_id erase_id
  first-erase_id [] id j u = ground arith
  first-erase_id (p ∷ ps) id j u = ground (
    arith,
    first-erase_id ps id j u.1,
    has_id-first ps j,
    u.0,
    equal_iff (id_of sgs p) id,
    equal_iff id j,
    equal_iff (id_of sgs p) j,
  )

  first-snoc :
      (ps : List ℕ) (p : ℕ) (j : ℤ)
      → first_with_id sgs (ps ++ p ∷ []) j ≡ elim (first_with_id sgs ps j) [
        | none ↦ if equal (id_of sgs p) j then some p else none
        | some q ↦ some q
      ]
  unfolding first_with_id
  first-snoc [] p j = refl
  first-snoc (q ∷ ps) p j = ground (arith, first-snoc ps p j)

  has_id-none : (ps : List ℕ) (id : ℤ) → has_id sgs ps id ≡ true → first_with_id sgs ps id ≢ none
  unfolding has_id first_with_id
  has_id-none [] id h e = absurd (ground (arith, h))
  has_id-none (p ∷ ps) id h e = absurd (ground (arith, h, e, has_id-none ps id))

  -- A pool without duplicates stays so when a group is added. It then answers for the group's ID with
  -- the group that had it, or else with the new one; and as before for every other ID.
  pub add_to_pool_lem :
      (s : SGroupPool) (p : ℕ) (id : ℤ)
      → IsUnique s.pool
      → IsUnique (add_to_pool sgs p s).pool
        × (get_from_pool sgs id (add_to_pool sgs p s) ≡ elim (get_from_pool sgs id s) [
          | none ↦ if equal (id_of sgs p) id then some p else none
          | some q ↦ some q
        ])
  unfolding add_to_pool get_from_pool
  add_to_pool_lem s p id u = elim (Bool-cases (has_id sgs s.pool (id_of sgs p))) [
    | inl h ↦
        rw h (u, ground (arith, has_id-none s.pool (id_of sgs p) h, equal_iff (id_of sgs p) id))
    | inr h ↦ rw h (snoc-IsUnique s.pool p h u, first-snoc s.pool p id)
  ]

  -- A pool without duplicates stays so when a group is removed. It then answers with none for the ID,
  -- and as before for every other ID.
  pub remove_from_pool_lem :
      (s : SGroupPool) (id j : ℤ)
      → IsUnique s.pool
      → IsUnique (remove_from_pool sgs id s).pool
        × (get_from_pool sgs j (remove_from_pool sgs id s)
            ≡ (if equal id j then none else get_from_pool sgs j s))
  unfolding remove_from_pool get_from_pool
  remove_from_pool_lem s id j u = (erase_id-IsUnique s.pool id u, first-erase_id s.pool id j u)
