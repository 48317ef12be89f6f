-- ===== src/Controller/Dag/Activation.antt =====
-- controller/dag.go: Activate, whatever order Go ranges over the map in.
use mathlib.Core.List.{append_assoc}
use low_latency_faa_s.Prelude.{
  ℕ, zero, suc, ◌+◌, ◌≤◌, ◌<◌, ◌≡◌, ◌≢◌, refl, ap, ◌∙◌, Bool, true, false, ◌⊎◌, inl, inr, List, [],
  ◌∷◌, ◌++◌, Option, none, some, arith, ltb, ◌==◌, if◌then◌else◌, length, get_elem?,
  get_elem?_cases, Bool-cases, List-cases,
}
use low_latency_faa_s.Prelude.Count.{count}
use low_latency_faa_s.Go.{invalid_ingress, returns, hangs}
use low_latency_faa_s.Controller.Dag.{Nf, Dag, find_ingress, walk, activate}
use low_latency_faa_s.Controller.Dag.Links.{edges, IsLinked, Built, Built-IsLinked}

-- An NF of the map that no edge leads to.
unfoldable pub is_source : List Nf → ℕ → Bool
is_source m u = elim (get_elem? m u) [
  | none ↦ false
  | some a ↦ elim a.prev_nfs [ [] ↦ true | _ ∷ _ ↦ false ]
]

sources : List Nf → List ℕ → ℕ
sources m [] = 0
sources m (i ∷ ids) = (if is_source m i then 1 else 0) + sources m ids

-- `ids` is the map's keys in some order.
abbrev pub IsRange : List Nf → List ℕ → Type 0
IsRange m ids = (u : ℕ) → count u ids ≡ (if ltb u (length m) then 1 else 0)

find_ingress-cons :
    (m : List Nf) (i : ℕ) (ids : List ℕ) (o : Option ℕ) (c : ℕ)
    → find_ingress m (i ∷ ids) o c
      ≡ (if is_source m i then find_ingress m ids (some i) (c + 1) else find_ingress m ids o c)
unfolding find_ingress is_source
find_ingress-cons m i ids o c = ground arith

find_ingress-sources :
    (m : List Nf) (ids : List ℕ) (o : Option ℕ) (c : ℕ)
    → (find_ingress m ids o c).1 ≡ c + sources m ids
unfolding find_ingress sources
find_ingress-sources m [] o c = omega arith
find_ingress-sources m (i ∷ ids) o c = elim (Bool-cases (is_source m i)) [
  | inl hit ↦
      rw (find_ingress-cons m i ids o c, hit)
        (omega (arith, find_ingress-sources m ids (some i) (c + 1)))
  | inr miss ↦
      rw (find_ingress-cons m i ids o c, miss) (omega (arith, find_ingress-sources m ids o c))
]

find_ingress_unique :
    (m : List Nf) (s : ℕ) (ids : List ℕ) (o : Option ℕ) (c : ℕ)
    → ((u : ℕ) → is_source m u ≡ true → u ≡ s)
    → (find_ingress m ids o c).0 ≡ (if sources m ids == 0 then o else some s)
unfolding find_ingress sources
find_ingress_unique m s [] o c h = refl
find_ingress_unique m s (i ∷ ids) o c h = elim (Bool-cases (is_source m i)) [
  | inl hit ↦
      rw (find_ingress-cons m i ids o c, hit)
        (ground (arith, h i hit, find_ingress_unique m s ids (some i) (c + 1) h))
  | inr miss ↦
      rw (find_ingress-cons m i ids o c, miss) (ground (arith, find_ingress_unique m s ids o c h))
]

sources_unique :
    (m : List Nf) (s : ℕ) (ids : List ℕ)
    → is_source m s ≡ true
    → ((u : ℕ) → is_source m u ≡ true → u ≡ s)
    → sources m ids ≡ count s ids
unfolding sources count
sources_unique m s [] hs h = refl
sources_unique m s (i ∷ ids) hs h = ground (arith, h i, sources_unique m s ids hs h)

sources_two :
    (m : List Nf) (s t : ℕ) (ids : List ℕ)
    → is_source m s ≡ true
    → is_source m t ≡ true
    → s ≢ t
    → count s ids + count t ids ≤ sources m ids
unfolding sources count
sources_two m s t [] hs ht h = omega arith
sources_two m s t (i ∷ ids) hs ht h = ground (arith, sources_two m s t ids hs ht h)

sources_none : (m : List Nf) (ids : List ℕ) → ((u : ℕ) → is_source m u ≡ false) → sources m ids ≡ 0
unfolding sources
sources_none m [] h = refl
sources_none m (i ∷ ids) h = ground (arith, h i, sources_none m ids h)

source-lt : (m : List Nf) (u : ℕ) → is_source m u ≡ true → u < length m
unfolding is_source
source-lt m u h = ground (arith, get_elem?_cases m u)

-- The NFs from `u` on, each one the first successor of the one before it, to one with no successor.
pub data Chain (m : List Nf) : ℕ → List ℕ → Type 0 where
  last : {u : ℕ} (a : Nf) → get_elem? m u ≡ some a → a.next_nfs ≡ [] → Chain m u (u ∷ [])
  more :
      {u v : ℕ} {l : List ℕ} (a : Nf) (vs : List ℕ)
      → get_elem? m u ≡ some a
      → a.next_nfs ≡ v ∷ vs
      → Chain m v l
      → Chain m u (u ∷ l)

-- Every edge leads to a lower rank, so there is no cycle.
abbrev pub IsRanked : List Nf → (ℕ → ℕ) → Type 0
IsRanked m rank = (u v : ℕ) → 0 < edges m u v → rank v < rank u

first-edge :
    (m : List Nf) (u v : ℕ) (vs : List ℕ) (a : Nf)
    → get_elem? m u ≡ some a
    → a.next_nfs ≡ v ∷ vs
    → 0 < edges m u v
unfolding edges count
first-edge m u v vs a e f = ground arith

walk-last :
    (fuel : ℕ) (m : List Nf) (u : ℕ) (done : List ℕ) (a : Nf)
    → get_elem? m u ≡ some a
    → a.next_nfs ≡ []
    → walk (suc fuel) m u done ≡ returns (done ++ u ∷ [])
unfolding walk
walk-last fuel m u done a e f = rw (e, walk) (ground arith)

walk-more :
    (fuel : ℕ) (m : List Nf) (u v : ℕ) (done vs : List ℕ) (a : Nf)
    → get_elem? m u ≡ some a
    → a.next_nfs ≡ v ∷ vs
    → walk (suc fuel) m u done ≡ walk fuel m v (done ++ u ∷ [])
unfolding walk
walk-more fuel m u v done vs a e f = rw (e, walk) (ground arith)

walk-Chain :
    (fuel : ℕ) (m : List Nf) (u : ℕ) (done : List ℕ) (rank : ℕ → ℕ)
    → IsLinked m
    → IsRanked m rank
    → u < length m
    → rank u < fuel
    → (l : List ℕ) × (walk fuel m u done ≡ returns (done ++ l)) × Chain m u l
walk-Chain zero m u done rank l r h f = absurd (omega arith)
walk-Chain (suc fuel) m u done rank l r h f = elim (get_elem?_cases m u) [
  | inr (outside, _) ↦ absurd (omega arith)
  | inl (_, (a, e)) ↦ elim (List-cases a.next_nfs) [
    | inl end ↦ (u ∷ [], walk-last fuel m u done a e end, last a e end)
    | inr (v, vs, on) ↦
        let edge = first-edge m u v vs a e on in
        let (rest, run, chain) =
          walk-Chain fuel m v (done ++ u ∷ []) rank l r (l.inside u v edge)
            (omega (arith, r u v edge)) in
        (
          u ∷ rest,
          walk-more fuel m u v done vs a e on ∙ run ∙ ap returns (append_assoc done (u ∷ []) rest),
          more a vs e on chain,
        )
  ]
]

-- Every NF of the set `P` has a first successor, which is in `P` as well.
abbrev pub IsClosed : List Nf → (ℕ → Type 0) → Type 0
IsClosed m P =
    (u : ℕ)
    → P u
    → (a : Nf) × (v : ℕ) × (vs : List ℕ) × (get_elem? m u ≡ some a) × (a.next_nfs ≡ v ∷ vs) × P v

walk_hangs :
    (fuel : ℕ) (m : List Nf) (u : ℕ) (done : List ℕ) (P : ℕ → Type 0)
    → IsClosed m P
    → P u
    → walk fuel m u done ≡ hangs
unfolding walk
walk_hangs zero m u done P c h = refl
walk_hangs (suc fuel) m u done P c h =
    let (a, v, vs, e, on, h') = c u h in
    walk-more fuel m u v done vs a e on ∙ walk_hangs fuel m v (done ++ u ∷ []) P c h'

-- The NF that starts the chain: the only one that no edge leads to.
pub record IsIngress (m : List Nf) (s : ℕ) : Type 0 where
  pub source : is_source m s ≡ true
  pub only : (u : ℕ) → is_source m u ≡ true → u ≡ s

find_ingress-IsIngress :
    (m : List Nf) (ids : List ℕ) (s : ℕ)
    → IsRange m ids
    → IsIngress m s
    → find_ingress m ids none 0 ≡ (some s, 1)
find_ingress-IsIngress m ids s r i =
    let one : sources m ids ≡ 1 =
      ground (arith, sources_unique m s ids i.source i.only, r s, source-lt m s i.source) in
    ground (arith, find_ingress-sources m ids none 0, find_ingress_unique m s ids none 0 i.only)

-- Activate on a DAG that AddNF and ConnectNFs built, with one ingress NF and no cycle: whatever the order in which the map is ranged
-- over, it comes back with no error, and the DAG is active with the chain from the ingress NF to an
-- NF with no successor, along first successors. Fuel above the rank of the ingress NF is enough.
pub activate-Chain :
    (g : Dag) (ids : List ℕ) (s fuel : ℕ) (rank : ℕ → ℕ)
    → Built g
    → IsRange g.nf_map ids
    → IsIngress g.nf_map s
    → IsRanked g.nf_map rank
    → rank s < fuel
    → (l : List ℕ) × (activate fuel ids g
        ≡ returns (none, record g { chains = l; is_active = true }))
      × Chain g.nf_map s l
unfolding activate
activate-Chain g ids s fuel rank b r i k f =
    let (l, run, chain) =
      walk-Chain fuel g.nf_map s [] rank (Built-IsLinked b) k (source-lt g.nf_map s i.source) f in
    (
      l,
      rw (find_ingress-IsIngress g.nf_map ids s r i, activate)
          (rw (find_ingress-IsIngress g.nf_map ids s r i, run)),
      chain,
    )

-- Activate on a DAG with no NF that no edge leads to, or with two: an error, and nothing changes.
pub activate_refuses :
    (g : Dag) (ids : List ℕ) (fuel : ℕ)
    → IsRange g.nf_map ids
    → ((u : ℕ) → is_source g.nf_map u ≡ false)
      ⊎ ((s : ℕ) × (t : ℕ) × (s ≢ t)
          × (is_source g.nf_map s ≡ true)
          × (is_source g.nf_map t ≡ true))
    → activate fuel ids g ≡ returns (some invalid_ingress, g)
unfolding activate
activate_refuses g ids fuel r (inl h) =
    let no_source = λ (u : ℕ) (e : is_source g.nf_map u ≡ true).
      let wrong : u ≡ 0 = ground (arith, h u) in wrong in
    ground (arith, sources_none g.nf_map ids h, find_ingress_unique g.nf_map 0 ids none 0 no_source)
activate_refuses g ids fuel r (inr (s, t, apart, hs, ht)) = ground (
  arith,
  find_ingress-sources g.nf_map ids none 0,
  sources_two g.nf_map s t ids hs ht apart,
  r s,
  r t,
  source-lt g.nf_map s hs,
  source-lt g.nf_map t ht,
)

-- Activate on a DAG whose ingress NF leads into a cycle never comes back.
pub activate_hangs :
    (g : Dag) (ids : List ℕ) (s fuel : ℕ) (P : ℕ → Type 0)
    → IsRange g.nf_map ids
    → IsIngress g.nf_map s
    → IsClosed g.nf_map P
    → P s
    → activate fuel ids g ≡ hangs
unfolding activate
activate_hangs g ids s fuel P r i c h =
    rw (find_ingress-IsIngress g.nf_map ids s r i, activate)
      (rw (find_ingress-IsIngress g.nf_map ids s r i, walk_hangs fuel g.nf_map s [] P c h))
