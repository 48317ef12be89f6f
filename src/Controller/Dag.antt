-- ===== src/Controller/Dag.antt =====
-- controller/dag.go: the logical DAG of NFs of a user, and its activation into a chain.
-- NFMap has the keys 0, 1, ..., len - 1, since addNF is its only writer: it is a list, and an NF
-- pointer of it is its key. Ids come from the caller as signed integers.
pub mod Links
pub mod Activation
use low_latency_faa_s.Prelude.{
  ℕ, zero, suc, ◌+◌, String, Bool, true, false, ◌||◌, List, [], ◌∷◌, ◌++◌, Option, none, some, ltb,
  ◌==◌, if◌then◌else◌, length, get_elem?, set,
}
use low_latency_faa_s.Prelude.Int.{ℤ, pos, negsuc, ltb_ℤ}
use low_latency_faa_s.Go.{
  Error, invalid_up_id, invalid_down_id, invalid_ingress, Run, returns, panic, hangs, ◌>>=◌,
  or_panic,
}
use low_latency_faa_s.Controller.Flowlet.{Flowlet, Flow, matches_flow}
use low_latency_faa_s.Controller.Profile.{default_cycle_cost, nf_cycle_costs, find_cost}

pub record Nf : Type 0 where
  pub id : ℕ
  pub func_type : String
  pub cycles : ℕ
  pub prev_nfs : List ℕ
  pub next_nfs : List ℕ

-- `chains` are NFs of the map, `sgroups` pointers into the store of the controller.
pub record Dag : Type 0 where
  pub nf_map : List Nf
  pub flowlets : List Flowlet
  pub chains : List ℕ
  pub sgroups : List ℕ
  pub is_active : Bool

abbrev pub new_dag : Dag
new_dag = record { nf_map = []; flowlets = []; chains = []; sgroups = []; is_active = false }

unfoldable pub cycle_cost : String → ℕ
unfolding find_cost
cycle_cost func_type = elim (find_cost func_type nf_cycle_costs) [
  | some cost ↦ cost
  | none ↦ default_cycle_cost
]

-- The NF that addNF and addDummyNF put at the end of the map, under the name `label`.
abbrev pub fresh_nf : ℕ → String → String → Nf
fresh_nf id label func_type = record {
  id = id;
  func_type = label;
  cycles = cycle_cost func_type;
  prev_nfs = [];
  next_nfs = [];
}

unfoldable pub add_nf : Dag → String → ℕ × Dag
add_nf g func_type =
    let id = length g.nf_map in
    (id, record g { nf_map = g.nf_map ++ fresh_nf id func_type func_type ∷ [] })

unfoldable pub add_dummy_nf : Dag → String → ℕ × Dag
add_dummy_nf g func_type =
    let id = length g.nf_map in
    (id, record g { nf_map = g.nf_map ++ fresh_nf id "bypass" func_type ∷ [] })

abbrev pub link_next : ℕ → Nf → Nf
link_next down nf = record nf { next_nfs = nf.next_nfs ++ down ∷ [] }

abbrev pub link_prev : ℕ → Nf → Nf
link_prev up nf = record nf { prev_nfs = nf.prev_nfs ++ up ∷ [] }

-- `g.NFMap[id].field = ...`: a key that is not in the map gives the nil pointer.
unfoldable pub update_nf : List Nf → ℕ → (Nf → Nf) → Run (List Nf)
update_nf m id f = or_panic (get_elem? m id) >>= λ nf. returns (set m id (f nf))

abbrev pub out_of_range : ℤ → ℕ → Bool
out_of_range id n = ltb_ℤ id (pos 0) || ltb_ℤ (pos n) id

-- The two writes of connectNFs, after its checks. A negative id is no key of the map.
unfoldable pub link_nfs : Dag → ℤ → ℤ → Run (Option Error × Dag)
link_nfs g (negsuc up) down_id = panic
link_nfs g (pos up) (negsuc down) = panic
link_nfs g (pos up) (pos down) = do
  m ← update_nf g.nf_map up (link_next down)
  m' ← update_nf m down (link_prev up)
  returns (none, record g { nf_map = m' })

unfoldable pub connect_nfs : Dag → ℤ → ℤ → Run (Option Error × Dag)
connect_nfs g up_id down_id =
    let n = length g.nf_map in
    if out_of_range up_id n
    then returns (some invalid_up_id, g)
    else if out_of_range down_id n
    then returns (some invalid_down_id, g)
    else link_nfs g up_id down_id

unfoldable pub add_flow : Dag → Flowlet → Dag
add_flow g f = record g { flowlets = g.flowlets ++ f ∷ [] }

unfoldable pub match_flowlets : List Flowlet → Flow → Bool
match_flowlets [] x = false
match_flowlets (f ∷ fs) x =
    let rest = match_flowlets fs x in if matches_flow f x then true else rest

unfoldable pub match_dag : Dag → Flow → Bool
unfolding match_flowlets
match_dag g x = match_flowlets g.flowlets x

-- The first loop of Activate: the last NF with no predecessor and how many there are, over the map
-- in the order `ids` in which Go happens to range over it.
pub find_ingress : List Nf → List ℕ → Option ℕ → ℕ → Option ℕ × ℕ
find_ingress m [] ingress cnt = (ingress, cnt)
find_ingress m (id ∷ ids) ingress cnt = elim (get_elem? m id) [
  | none ↦ find_ingress m ids ingress cnt
  | some nf ↦ elim nf.prev_nfs [
    | [] ↦ find_ingress m ids (some id) (cnt + 1)
    | _ ∷ _ ↦ find_ingress m ids ingress cnt
  ]
]

-- The second loop: the first successor again and again, on fuel.
pub walk : ℕ → List Nf → ℕ → List ℕ → Run (List ℕ)
walk zero m curr chains = hangs
walk (suc fuel) m curr chains = elim (get_elem? m curr) [
  | none ↦ panic
  | some nf ↦ elim nf.next_nfs [
    | [] ↦ returns (chains ++ curr ∷ [])
    | next ∷ _ ↦ walk fuel m next (chains ++ curr ∷ [])
  ]
]

unfoldable pub activate : ℕ → List ℕ → Dag → Run (Option Error × Dag)
activate fuel ids g =
    let (ingress, cnt) = find_ingress g.nf_map ids none 0 in
    elim ingress [
      | none ↦ returns (some invalid_ingress, g)
      | some start ↦
          let run : Run (Option Error × Dag) = do
            chains ← walk fuel g.nf_map start []
            returns (none, record g { chains = chains; is_active = true })
          in if cnt == 1 then run else returns (some invalid_ingress, g)
    ]
