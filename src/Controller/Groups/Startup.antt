-- ===== src/Controller/Groups/Startup.antt =====
-- controller/background.go: createSGroup and metronCreateSGroup, which deploy the NFs of a DAG on a free
-- group.
pub mod Unset
use low_latency_faa_s.Prelude.{
  ℕ, ◌+◌, ◌-◌, String, Bool, true, false, List, [], ◌∷◌, ◌++◌, Option, none, some, ◌==◌,
  if◌then◌else◌, length, get_elem?,
}
use low_latency_faa_s.Utils.MinHeap.{equal}
use low_latency_faa_s.Go.{Run, returns, ◌>>=◌, or_panic}
use low_latency_faa_s.Controller.Dag.{Nf}
use low_latency_faa_s.Controller.State.{
  World, Env, put_worker, put_sgroup, put_dag, invalid_core_id,
}
use low_latency_faa_s.Controller.Traffic.{append_instance}
use low_latency_faa_s.Controller.Groups.{create_instance, destroy_sgroup}
use low_latency_faa_s.Controller.Groups.Ready.{preprocess_before_ready}

-- The group is among those of the worker; createSGroup also raises the target by one.
abbrev pub add_deployed : ℕ → ℕ → ℕ → World → World
add_deployed wk p more w =
    let a = w.workers wk in
    put_worker wk
      (record a { sgroups = a.sgroups ++ p ∷ []; sgroup_target = a.sgroup_target + more }) w

abbrev pub add_to_dag : ℕ → ℕ → World → World
add_to_dag p d w = put_dag d (record (w.dags d) { sgroups = (w.dags d).sgroups ++ p ∷ [] }) w

-- The group is the DAG's, and complete.
unfoldable pub complete : ℕ → ℕ → ℕ → ℕ → World → World
complete wk p d more w =
    let w₁ = add_to_dag p d (add_deployed wk p more w) in
    put_sgroup p (record (w₁.sgroups p) { dag = some d; is_complete = true }) w₁

module _ (env : Env) (others : ℕ → World → World) where
  -- The loop over the chain, from its `i`-th of `n` NFs on. On an error the group is destroyed, and
  -- `false` says that the caller returns.
  unfoldable pub deploy_chain : ℕ → ℕ → List Nf → ℕ → ℕ → World → Run (Bool × World)
  deploy_chain wk p [] i n w = returns (true, w)
  deploy_chain wk p (nf ∷ nfs) i n w =
      create_instance env wk (nf.func_type ∷ []) nf.cycles (w.sgroups p).pcie_idx false (i == 0)
        (i == n - 1) w
      >>= λ (r : Option ℕ × World). elim r.0 as (λ x. Run (Bool × World)) [
        | none ↦ returns (false, (destroy_sgroup env wk p r.1).1)
        | some ins ↦ deploy_chain wk p nfs (i + 1) n (append_instance p ins r.1)
      ]

  -- `dag.chains` are pointers to NFs of the DAG.
  unfoldable pub chain_of : List Nf → List ℕ → Run (List Nf)
  chain_of m [] = returns []
  chain_of m (id ∷ ids) = do
    nf ← or_panic (get_elem? m id)
    nfs ← chain_of m ids
    returns (nf ∷ nfs)

  -- The part after the loop.
  unfoldable pub settle_deployed : ℕ → ℕ → ℕ → ℕ → ℕ → Bool × World → Run World
  settle_deployed fuel wk p d more (false, w) = returns w
  settle_deployed fuel wk p d more (true, w) =
      preprocess_before_ready env others fuel p (complete wk p d more w)

  unfoldable pub create_sgroup : ℕ → ℕ → ℕ → ℕ → World → Run World
  create_sgroup fuel wk p d w = do
    nfs ← chain_of (w.dags d).nf_map (w.dags d).chains
    r ← deploy_chain wk p nfs 0 (length nfs) w
    settle_deployed fuel wk p d 1 r

  unfoldable pub types_of : List Nf → List String
  types_of [] = []
  types_of (nf ∷ nfs) = nf.func_type ∷ types_of nfs

  unfoldable pub cycles_of : List Nf → ℕ
  cycles_of [] = 0
  cycles_of (nf ∷ nfs) = nf.cycles + cycles_of nfs

  -- Metron puts the whole chain into one instance, on a core that is set before. `none` is nil.
  unfoldable pub metron_deploy : ℕ → ℕ → List Nf → World → Run (Bool × World)
  metron_deploy wk p nfs w =
      create_instance env wk (types_of nfs) (cycles_of nfs) (w.sgroups p).pcie_idx false true true w
      >>= λ (r : Option ℕ × World). returns (elim r.0 as (λ x. Bool × World) [
        | none ↦ (false, (destroy_sgroup env wk p r.1).1)
        | some ins ↦ (true, append_instance p ins r.1)
      ])

  unfoldable pub metron_create_sgroup : ℕ → ℕ → Option ℕ → Option ℕ → World → Run World
  metron_create_sgroup fuel wk none d w = returns w
  metron_create_sgroup fuel wk (some p) none w = returns w
  metron_create_sgroup fuel wk (some p) (some d) w =
      let run : Run World = (do
        nfs ← chain_of (w.dags d).nf_map (w.dags d).chains
        r ← metron_deploy wk p nfs w
        settle_deployed fuel wk p d 0 r) in
      if equal (w.sgroups p).core_id invalid_core_id then returns w else run
