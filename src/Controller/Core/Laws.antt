-- ===== src/Controller/Core/Laws.antt =====
-- controller/core.go: what addSGroup and removeSGroup do to the groups of each core.
use mathlib.Core.Path.{subst}
use low_latency_faa_s.Prelude.{
  ℕ, ◌+◌, ◌≤◌, ◌<◌, ◌≡◌, refl, ap, true, false, ◌↔◌, inl, inr, List, [], ◌∷◌, none, some, arith,
  ◌==◌, if◌then◌else◌, Option-cases, ◌&&◌,
}
use low_latency_faa_s.Prelude.Int.{ℤ}
use low_latency_faa_s.Prelude.Count.{count, count-snoc}
use low_latency_faa_s.Utils.MinHeap.{equal}
use low_latency_faa_s.Utils.MinHeap.Count.{equal_iff}
use low_latency_faa_s.Controller.State.{SGroup, Core}
use low_latency_faa_s.Controller.Core.{
  id_of, has_id, add_sgroup, erase_id, remove_sgroup, find_core, modify_core, groups_on,
}

-- No two groups of the list have one ID.
abbrev pub IsNamed : (ℕ → SGroup) → List ℕ → Type 0
IsNamed sgs ps = (p q : ℕ) → 0 < count p ps → 0 < count q ps → id_of sgs p ≡ id_of sgs q → p ≡ q

-- Every group of the one list stands in the other.
abbrev pub Within : List ℕ → List ℕ → Type 0
Within ps qs = (p : ℕ) → 0 < count p ps → 0 < count p qs

-- A section over groups with different IDs, a list of some of them, and one more group `p`.
module _ (sgs : ℕ → SGroup) (gs : List ℕ) (n : IsNamed sgs gs) (p : ℕ) (h : 0 < count p gs) where
  same_id : (x : ℕ) → 0 < count x gs → (equal (id_of sgs x) (id_of sgs p) ≡ true) ↔ (x ≡ p)
  same_id x hx = (
    λ e. n x p hx h ((equal_iff (id_of sgs x) (id_of sgs p)).0 e),
    λ e. (equal_iff (id_of sgs x) (id_of sgs p)).1 (ap (id_of sgs) e),
  )

  pub has_id_lem :
      (ps : List ℕ)
      → Within ps gs
      → has_id sgs ps (id_of sgs p) ≡ (if count p ps == 0 then false else true)
  unfolding has_id count
  has_id_lem [] i = refl
  has_id_lem (x ∷ ps) i =
      let rest = has_id_lem ps (λ r c. i r (omega arith)) in
      ground (arith, rest, same_id x (i x (ground arith)))

  pub erase_id-count :
      (ps : List ℕ) (q : ℕ)
      → Within ps gs
      → count p ps ≤ 1
      → count q (erase_id sgs ps (id_of sgs p)) ≡ (if p == q then 0 else count q ps)
  unfolding erase_id count
  erase_id-count [] q i o = ground arith
  erase_id-count (x ∷ ps) q i o =
      let rest = erase_id-count ps q (λ r c. i r (omega arith)) (omega arith) in
      ground (arith, rest, same_id x (i x (ground arith)))

-- The method keeps the id of its core.
abbrev pub KeepsId : (Core → Core) → Type 0
KeepsId f = (c : Core) → (f c).core_id ≡ c.core_id

pub find_core-modify_core :
    (id j : ℤ) (f : Core → Core) (cs : List Core)
    → KeepsId f
    → find_core j (modify_core id f cs)
      ≡ elim (find_core j cs) [ none ↦ none | some c ↦ some (if equal id j then f c else c) ]
unfolding find_core modify_core
find_core-modify_core id j f [] k = refl
find_core-modify_core id j f (c ∷ cs) k = ground (
  arith,
  k c,
  equal_iff id j,
  equal_iff c.core_id j,
  equal_iff c.core_id id,
  equal_iff (f c).core_id j,
  find_core-modify_core id j f cs k,
)

-- The same cores are there afterwards.
pub find_core-none :
    (id j : ℤ) (f : Core → Core) (cs : List Core)
    → KeepsId f
    → (find_core j (modify_core id f cs) ≡ none) ↔ (find_core j cs ≡ none)
find_core-none id j f cs k = ground (arith, find_core-modify_core id j f cs k)

pub find_core-id : (id : ℤ) (c : Core) (cs : List Core) → find_core id cs ≡ some c → c.core_id ≡ id
unfolding find_core
find_core-id id c [] e = cc
find_core-id id c (d ∷ cs) e = ground (arith, equal_iff d.core_id id, find_core-id id c cs)

pub remove_sgroup-KeepsId : (sgs : ℕ → SGroup) (p : ℕ) → KeepsId (remove_sgroup sgs p)
unfolding remove_sgroup
remove_sgroup-KeepsId sgs p c = ground arith

pub add_sgroup-KeepsId : (sgs : ℕ → SGroup) (p : ℕ) → KeepsId (add_sgroup sgs p)
unfolding add_sgroup
add_sgroup-KeepsId sgs p c = ground arith

module _ (sgs : ℕ → SGroup) (gs : List ℕ) (n : IsNamed sgs gs) (p : ℕ) (h : 0 < count p gs)
    (cs : List Core) where
  -- removeSGroup takes the group off the core whose id it has, and leaves the other cores alone.
  pub groups_on-remove :
      (prev j : ℤ) (q : ℕ)
      → (sgs p).core_id ≡ prev
      → Within (groups_on j cs) gs
      → count p (groups_on j cs) ≤ 1
      → count q (groups_on j (modify_core prev (remove_sgroup sgs p) cs))
        ≡ (if equal prev j && p == q then 0 else count q (groups_on j cs))
  unfolding remove_sgroup count
  groups_on-remove prev j q e i o = elim (Option-cases (find_core j cs)) [
    | inl missing ↦ ground (
      arith,
      missing,
      find_core-modify_core prev j (remove_sgroup sgs p) cs (remove_sgroup-KeepsId sgs p),
    )
    | inr (c, found) ↦
        let here : groups_on j cs ≡ c.sgroups = ground (arith, found) in
        let i' : Within c.sgroups gs = subst (λ l. Within l gs) here i in
        let o' : count p c.sgroups ≤ 1 = subst (λ l. count p l ≤ 1) here o in
        ground (
          arith,
          found,
          find_core-id j c cs found,
          equal_iff prev j,
          equal_iff (sgs p).core_id c.core_id,
          erase_id-count sgs gs n p h c.sgroups q i' o',
          find_core-modify_core prev j (remove_sgroup sgs p) cs (remove_sgroup-KeepsId sgs p),
        )
  ]

  -- addSGroup puts a group that is not on the core there once, and leaves the other cores alone.
  pub groups_on-add :
      (id j : ℤ) (q : ℕ)
      → Within (groups_on j cs) gs
      → count p (groups_on j cs) ≡ 0
      → (c : Core) → find_core id cs ≡ some c
      → count q (groups_on j (modify_core id (add_sgroup sgs p) cs))
        ≡ count q (groups_on j cs) + (if equal id j && p == q then 1 else 0)
  unfolding add_sgroup count
  groups_on-add id j q i z c e = elim (Option-cases (find_core j cs)) [
    | inl missing ↦ ground (
      arith,
      missing,
      equal_iff id j,
      find_core-modify_core id j (add_sgroup sgs p) cs (add_sgroup-KeepsId sgs p),
    )
    | inr (d, found) ↦
        let here : groups_on j cs ≡ d.sgroups = ground (arith, found) in
        let i' : Within d.sgroups gs = subst (λ l. Within l gs) here i in
        let z' : count p d.sgroups ≡ 0 = subst (λ l. count p l ≡ 0) here z in
        ground (
          arith,
          found,
          z',
          count-snoc q p d.sgroups,
          has_id_lem sgs gs n p h d.sgroups i',
          find_core-modify_core id j (add_sgroup sgs p) cs (add_sgroup-KeepsId sgs p),
        )
  ]
