-- ===== src/Controller/Dag/Links.antt =====
-- controller/dag.go: the two ends of each edge agree, and ConnectNFs adds exactly one edge.
use low_latency_faa_s.Prelude.{
  ℕ, ◌+◌, ◌≤◌, ◌<◌, ◌≡◌, refl, ap, ◌∙◌, String, true, false, Bool-cases, ◌&&◌, ◌⊎◌, inl, inr, List,
  [], ◌∷◌, ◌++◌, Option, none, some, arith, ◌==◌, if◌then◌else◌, length, length-set, length-append,
  get_elem?, set, get_elem?-set, get_elem?_cases, get_elem?-append,
}
use low_latency_faa_s.Prelude.Int.{ℤ, pos, negsuc, pos_part}
use low_latency_faa_s.Prelude.Count.{count, count-snoc}
use low_latency_faa_s.Go.{Error, invalid_up_id, invalid_down_id, Run, returns, panic}
use low_latency_faa_s.Controller.Dag.{
  Nf, Dag, new_dag, fresh_nf, add_nf, add_dummy_nf, link_next, link_prev, update_nf, link_nfs,
  out_of_range, connect_nfs,
}

-- How many edges lead from `u` to `v`, by the list of `u` and by the list of `v`.
unfoldable pub edges : List Nf → ℕ → ℕ → ℕ
edges m u v = elim (get_elem? m u) [ none ↦ 0 | some a ↦ count v a.next_nfs ]

unfoldable pub back_edges : List Nf → ℕ → ℕ → ℕ
back_edges m u v = elim (get_elem? m v) [ none ↦ 0 | some b ↦ count u b.prev_nfs ]

pub record IsLinked (m : List Nf) : Type 0 where
  pub agree : (u v : ℕ) → edges m u v ≡ back_edges m u v
  pub inside : (u v : ℕ) → 0 < edges m u v → v < length m

abbrev pub one_if : ℕ → ℕ → ℕ → ℕ → ℕ
one_if up down u v = if up == u && down == v then 1 else 0

update_nf_lem :
    (m : List Nf) (id : ℕ) (f : Nf → Nf)
    → ((id < length m)
        × ((a : Nf) × (get_elem? m id ≡ some a) × (update_nf m id f ≡ returns (set m id (f a)))))
      ⊎ ((length m ≤ id) × (update_nf m id f ≡ panic))
unfolding update_nf
update_nf_lem m id f = ground (arith, get_elem?_cases m id)

link_next-edges :
    (m : List Nf) (up down : ℕ) (a : Nf)
    → up < length m
    → get_elem? m up ≡ some a
    → (u v : ℕ)
    → (edges (set m up (link_next down a)) u v ≡ edges m u v + one_if up down u v)
      × (back_edges (set m up (link_next down a)) u v ≡ back_edges m u v)
unfolding edges back_edges
link_next-edges m up down a h e u v = ground (
  arith,
  count-snoc v down a.next_nfs,
  get_elem?-set m up u (link_next down a),
  get_elem?-set m up v (link_next down a),
)

link_prev-edges :
    (m : List Nf) (up down : ℕ) (b : Nf)
    → down < length m
    → get_elem? m down ≡ some b
    → (u v : ℕ)
    → (edges (set m down (link_prev up b)) u v ≡ edges m u v)
      × (back_edges (set m down (link_prev up b)) u v ≡ back_edges m u v + one_if up down u v)
unfolding edges back_edges
link_prev-edges m up down b h e u v = ground (
  arith,
  count-snoc u up b.prev_nfs,
  get_elem?-set m down u (link_prev up b),
  get_elem?-set m down v (link_prev up b),
)

-- What a successful ConnectNFs does to the map.
pub record Connected (up down : ℕ) (m m' : List Nf) : Type 0 where
  pub size : length m' ≡ length m
  pub forward : (u v : ℕ) → edges m' u v ≡ edges m u v + one_if up down u v
  pub backward : (u v : ℕ) → back_edges m' u v ≡ back_edges m u v + one_if up down u v

-- The two writes add one edge, at both of its ends, and panic on an id that is not in the map.
link_nfs_cases :
    (g : Dag) (up down : ℕ)
    → ((up < length g.nf_map)
        × (down < length g.nf_map)
        × ((m : List Nf) × (link_nfs g (pos up) (pos down)
              ≡ returns (none, record g { nf_map = m }))
            × Connected up down g.nf_map m))
      ⊎ (((length g.nf_map ≤ up) ⊎ (length g.nf_map ≤ down))
          × (link_nfs g (pos up) (pos down) ≡ panic))
unfolding link_nfs
link_nfs_cases g up down = elim (update_nf_lem g.nf_map up (link_next down)) [
  | inr (outside, first) ↦ inr (inl outside, ground (arith, first))
  | inl (hu, (a, ea, first)) ↦
      let m = set g.nf_map up (link_next down a) in
      let size : length m ≡ length g.nf_map = length-set g.nf_map up (link_next down a) in
      elim (update_nf_lem m down (link_prev up)) [
        | inr (outside, second) ↦ inr (inr (omega (arith, size)), ground (arith, first, second))
        | inl (hd, (b, eb, second)) ↦
            let next = link_next-edges g.nf_map up down a hu ea in
            let prev = link_prev-edges m up down b hd eb in
            let connected : Connected up down g.nf_map (set m down (link_prev up b)) = record {
              size = length-set m down (link_prev up b) ∙ size;
              forward = λ u v. omega (arith, (next u v).0, (prev u v).0);
              backward = λ u v. omega (arith, (next u v).1, (prev u v).1);
            } in
            inl (
              hu,
              omega (arith, size),
              (set m down (link_prev up b), ground (arith, first, second), connected),
            )
      ]
]

-- The ids that the checks of ConnectNFs let through.
abbrev pub IsWithin : ℤ → ℕ → Type 0
IsWithin id n = (k : ℕ) × (id ≡ pos k) × (k ≤ n)

out_of_range-IsWithin :
    (id : ℤ) (n : ℕ)
    → ((out_of_range id n ≡ false) × IsWithin id n)
      ⊎ ((out_of_range id n ≡ true) × ¬ (IsWithin id n))
out_of_range-IsWithin (pos k) n = elim (Bool-cases (out_of_range (pos k) n)) [
  | inl out ↦ inr (out, λ (j, e, l). ground (arith, out, ap pos_part e, l))
  | inr fits ↦ inl (fits, (k, refl, ground (arith, fits)))
]
out_of_range-IsWithin (negsuc k) n = inr (ground arith, λ (j, e, l). ground (arith, e))

-- How a call of ConnectNFs ends, for a map of `n` NFs.
pub data Connection (g : Dag) (up_id down_id : ℤ) : Run (Option Error × Dag) → Type 0 where
  connected :
      (up down : ℕ) (m : List Nf)
      → up_id ≡ pos up
      → down_id ≡ pos down
      → up < length g.nf_map
      → down < length g.nf_map
      → Connected up down g.nf_map m
      → Connection g up_id down_id (returns (none, record g { nf_map = m }))
  refused_up :
      ¬ (IsWithin up_id (length g.nf_map))
      → Connection g up_id down_id (returns (some invalid_up_id, g))
  refused_down :
      IsWithin up_id (length g.nf_map)
      → ¬ (IsWithin down_id (length g.nf_map))
      → Connection g up_id down_id (returns (some invalid_down_id, g))
  panicked :
      IsWithin up_id (length g.nf_map)
      → IsWithin down_id (length g.nf_map)
      → (up_id ≡ pos (length g.nf_map)) ⊎ (down_id ≡ pos (length g.nf_map))
      → Connection g up_id down_id panic

link_nfs-Connection :
    (g : Dag) (up_id down_id : ℤ)
    → IsWithin up_id (length g.nf_map)
    → IsWithin down_id (length g.nf_map)
    → Connection g up_id down_id (link_nfs g up_id down_id)
link_nfs-Connection g up_id down_id (up, eu, lu) (down, ed, ld) = elim (link_nfs_cases g up down) [
  | inl (hu, hd, (m, run, c)) ↦ rw (eu, ed, run) (connected up down m refl refl hu hd c)
  | inr (outside, run) ↦
      let last : (pos up ≡ pos (length g.nf_map)) ⊎ (pos down ≡ pos (length g.nf_map)) =
        elim outside [
          | inl h ↦ inl (ap pos (omega (arith, lu, h)))
          | inr h ↦ inr (ap pos (omega (arith, ld, h)))
        ] in
      rw (eu, ed, run) (panicked (up, refl, lu) (down, refl, ld) last)
]

pub connect_nfs_outcome :
    (g : Dag) (up_id down_id : ℤ) → Connection g up_id down_id (connect_nfs g up_id down_id)
unfolding connect_nfs
connect_nfs_outcome g up_id down_id = elim (out_of_range-IsWithin up_id (length g.nf_map)) [
  | inr (out, h) ↦ rw out (refused_up h)
  | inl (first, hu) ↦ elim (out_of_range-IsWithin down_id (length g.nf_map)) [
    | inr (out, h) ↦ rw (first, out) (refused_down hu h)
    | inl (second, hd) ↦ rw (first, second) (link_nfs-Connection g up_id down_id hu hd)
  ]
]

in_range-IsWithin : (id : ℤ) (n : ℕ) → out_of_range id n ≡ false → IsWithin id n
in_range-IsWithin id n h = elim (out_of_range-IsWithin id n) [
  | inl (_, v) ↦ v
  | inr (out, _) ↦ absurd (ground (arith, h, out))
]

module _ (g : Dag) (up_id down_id : ℤ) where
  ended_panics :
      (r : Run (Option Error × Dag))
      → Connection g up_id down_id r
      → IsWithin up_id (length g.nf_map)
      → IsWithin down_id (length g.nf_map)
      → (up_id ≡ pos (length g.nf_map)) ⊎ (down_id ≡ pos (length g.nf_map))
      → r ≡ panic
  ended_panics _ (connected up down m eu ed lu ld c) hu hd (inl last) =
      absurd (omega (arith, lu, ap pos_part eu, ap pos_part last))
  ended_panics _ (connected up down m eu ed lu ld c) hu hd (inr last) =
      absurd (omega (arith, ld, ap pos_part ed, ap pos_part last))
  ended_panics _ (refused_up h) hu hd last = absurd (h hu)
  ended_panics _ (refused_down _ h) hu hd last = absurd (h hd)
  ended_panics _ (panicked _ _ _) hu hd last = refl

-- ConnectNFs lets the number of NFs itself through its checks, which is the id of no NF: it panics
-- on it, as either id, where the other id passes its check.
pub connect_nfs_panics :
    (g : Dag) (up_id down_id : ℤ)
    → out_of_range up_id (length g.nf_map) ≡ false
    → out_of_range down_id (length g.nf_map) ≡ false
    → (up_id ≡ pos (length g.nf_map)) ⊎ (down_id ≡ pos (length g.nf_map))
    → connect_nfs g up_id down_id ≡ panic
connect_nfs_panics g up_id down_id hu hd outside =
    ended_panics g up_id down_id _ (connect_nfs_outcome g up_id down_id)
      (in_range-IsWithin up_id (length g.nf_map) hu)
      (in_range-IsWithin down_id (length g.nf_map) hd) outside

empty-IsLinked : IsLinked new_dag.nf_map
unfolding edges back_edges
empty-IsLinked = record { agree = λ u v. refl; inside = λ u v h. absurd (omega arith) }

-- A new NF has no edges.
append-IsLinked :
    (m : List Nf) (label func_type : String)
    → IsLinked m
    → IsLinked (m ++ fresh_nf (length m) label func_type ∷ [])
unfolding edges back_edges count
append-IsLinked m label func_type l = record {
  agree = λ u v. ground (
    arith,
    l.agree u v,
    l.inside u v,
    get_elem?_cases m u,
    get_elem?_cases m v,
    get_elem?-append m (fresh_nf (length m) label func_type) u,
    get_elem?-append m (fresh_nf (length m) label func_type) v,
  );
  inside = λ u v p. ground (
    arith,
    l.inside u v,
    length-append m (fresh_nf (length m) label func_type ∷ []),
    get_elem?-append m (fresh_nf (length m) label func_type) u,
  );
}

connect-IsLinked :
    (up down : ℕ) (m m' : List Nf)
    → down < length m
    → Connected up down m m'
    → IsLinked m
    → IsLinked m'
connect-IsLinked up down m m' h c l = record {
  agree = λ u v. omega (arith, c.forward u v, c.backward u v, l.agree u v);
  inside = λ u v p. ground (arith, c.forward u v, l.inside u v, c.size);
}

Connection-IsLinked :
    (g g' : Dag) (up_id down_id : ℤ) (e : Option Error) (r : Run (Option Error × Dag))
    → Connection g up_id down_id r
    → r ≡ returns (e, g')
    → IsLinked g.nf_map
    → IsLinked g'.nf_map
Connection-IsLinked g g' up_id down_id e _ (connected up down m eu ed lu ld c) run l =
    let same : g' ≡ record g { nf_map = m } = ground (arith, run) in
    rw same (connect-IsLinked up down g.nf_map m ld c l)
Connection-IsLinked g g' up_id down_id e _ (refused_up _) run l =
    let same : g' ≡ g = ground (arith, run) in rw same l
Connection-IsLinked g g' up_id down_id e _ (refused_down _ _) run l =
    let same : g' ≡ g = ground (arith, run) in rw same l
Connection-IsLinked g g' up_id down_id e _ (panicked _ _ _) run l = absurd (ground (arith, run))

-- The DAGs that the calls of AddNF, AddDummyNF and ConnectNFs make from an empty one.
pub data Built : Dag → Type 0 where
  start : Built new_dag
  adds : {g : Dag} → Built g → (func_type : String) → Built (add_nf g func_type).1
  adds_dummy : {g : Dag} → Built g → (func_type : String) → Built (add_dummy_nf g func_type).1
  connects :
      {g g' : Dag}
      → Built g
      → (up_id down_id : ℤ) (e : Option Error) → connect_nfs g up_id down_id ≡ returns (e, g')
      → Built g'

-- However a DAG is built, the lists of successors and predecessors agree, and lead to NFs of the map.
pub Built-IsLinked : {g : Dag} → Built g → IsLinked g.nf_map
unfolding add_nf add_dummy_nf
Built-IsLinked start = empty-IsLinked
Built-IsLinked (adds {g = g} b func_type) = append-IsLinked g.nf_map _ func_type (Built-IsLinked b)
Built-IsLinked (adds_dummy {g = g} b func_type) =
    append-IsLinked g.nf_map _ func_type (Built-IsLinked b)
Built-IsLinked (connects {g = g} {g' = g'} b up_id down_id e run) =
    Connection-IsLinked g g' up_id down_id e _ (connect_nfs_outcome g up_id down_id) run
      (Built-IsLinked b)
