-- ===== src/Controller/Groups/Pcie/Deployed.antt =====
-- controller/background.go: where createSGroup leaves the group, with its PCIe index.
use low_latency_faa_s.Prelude.{
  ℕ, ◌+◌, ◌<◌, ◌≡◌, refl, ap, ◌∙◌, String, Bool, true, List, [], ◌∷◌, ◌++◌, some, arith, length,
}
use low_latency_faa_s.Prelude.Int.{ℤ, pos}
use low_latency_faa_s.Prelude.Count.{count, count-append}
use low_latency_faa_s.Utils.MinHeap.Count.{
  count as ℤ_count, count-append as ℤ_count-append, equal_iff,
}
use low_latency_faa_s.Go.{Run, returns, ◌>>=◌}
use low_latency_faa_s.Controller.Dag.{Nf}
use low_latency_faa_s.Controller.State.{SGroup, World, Env}
use low_latency_faa_s.Controller.Groups.{pcie_at, add_free}
use low_latency_faa_s.Controller.Groups.Ports.{update-same}
use low_latency_faa_s.Controller.Groups.Startup.{chain_of, complete, settle_deployed, create_sgroup}
use low_latency_faa_s.Controller.Groups.Startup.Unset.{AreUnset, complete-waits}
use low_latency_faa_s.Controller.Groups.Rollback.{same_held}
use low_latency_faa_s.Controller.Groups.Ready.Calls.{part-update}
use low_latency_faa_s.Controller.Groups.Pcie.{indices, indices-same, count-indices, IsQuiet}
use low_latency_faa_s.Controller.Groups.Pcie.Stock.{groups_of, IsStocked, pcie_at_found}
use low_latency_faa_s.Controller.Groups.Pcie.Deploying.{
  Deploying, through, back, deploy_chain-Deploying,
}

-- Where the index of the group `p` moves from a holder to the groups of the worker.
moved-IsStocked :
    (wk p : ℕ) (held : List ℤ) (w w' : World)
    → (w'.workers wk).pcie_pool ≡ (w.workers wk).pcie_pool
    → (w'.workers wk).pcie ≡ (w.workers wk).pcie
    → w'.next_sgroup ≡ w.next_sgroup
    → ((q : ℕ) → (w'.sgroups q).pcie_idx ≡ (w.sgroups q).pcie_idx)
    → ((q : ℕ) → count q (groups_of wk w') ≡ count q (groups_of wk w) + count q (p ∷ []))
    → ((x : ℤ)
        → ℤ_count x (indices w.sgroups (groups_of wk w'))
          ≡ ℤ_count x (indices w.sgroups (groups_of wk w)) + ℤ_count x (indices w.sgroups (p ∷ [])))
    → p < w.next_sgroup
    → IsStocked wk ((w.sgroups p).pcie_idx ∷ held) w
    → IsStocked wk held w'
unfolding count ℤ_count
moved-IsStocked wk p held w w' pool pcie next idx gs is l v = record {
  shared =
      rw (pool, pcie, indices-same w.sgroups w'.sgroups (groups_of wk w') idx)
        (same_held (pos 0) (length (w.workers wk).pcie) _ _ _
          (λ x. omega (
            arith,
            is x,
            ℤ_count-append x (indices w.sgroups (groups_of wk w')) held,
            ℤ_count-append x (indices w.sgroups (groups_of wk w)) ((w.sgroups p).pcie_idx ∷ held),
          ))
          v.shared);
  old = rw next (λ q h. ground (arith, h, l, gs q, v.old q));
}

-- Where createSGroup leaves the group: among the free ones, or among those of the worker.
pub data Landed (wk p : ℕ) (w w' : World) : Type 0 where
  given_back :
      (w'.workers wk).free_sgroups ≡ (w.workers wk).free_sgroups ++ p ∷ []
      → (w'.workers wk).sgroups ≡ (w.workers wk).sgroups
      → Landed wk p w w'
  running :
      (w'.workers wk).free_sgroups ≡ (w.workers wk).free_sgroups
      → (w'.workers wk).sgroups ≡ (w.workers wk).sgroups ++ p ∷ []
      → (w'.sgroups p).is_complete ≡ true
      → Landed wk p w w'

Landed-count :
    (wk p : ℕ) (w w' : World)
    → Landed wk p w w'
    → (q : ℕ) → count q (groups_of wk w') ≡ count q (groups_of wk w) + count q (p ∷ [])
Landed-count wk p w w' (given_back e f) q =
    let fs = (w.workers wk).free_sgroups in
    let ms = (w.workers wk).sgroups in
    rw (e, f)
      (omega
        (arith, count-append q (fs ++ p ∷ []) ms, count-append q fs (p ∷ []), count-append q fs ms))
Landed-count wk p w w' (running e f c) q =
    let fs = (w.workers wk).free_sgroups in
    let ms = (w.workers wk).sgroups in
    rw (e, f)
      (omega
        (arith, count-append q fs (ms ++ p ∷ []), count-append q ms (p ∷ []), count-append q fs ms))

Landed-indices :
    (wk p : ℕ) (w w' : World) (g : ℕ → SGroup)
    → Landed wk p w w'
    → (x : ℤ)
    → ℤ_count x (indices g (groups_of wk w'))
      ≡ ℤ_count x (indices g (groups_of wk w)) + ℤ_count x (indices g (p ∷ []))
Landed-indices wk p w w' g (given_back e f) x =
    let fs = (w.workers wk).free_sgroups in
    let ms = (w.workers wk).sgroups in
    rw (e, f)
      (omega (
        arith,
        count-indices g x (fs ++ p ∷ []) ms,
        count-indices g x fs (p ∷ []),
        count-indices g x fs ms,
      ))
Landed-indices wk p w w' g (running e f c) x =
    let fs = (w.workers wk).free_sgroups in
    let ms = (w.workers wk).sgroups in
    rw (e, f)
      (omega (
        arith,
        count-indices g x fs (ms ++ p ∷ []),
        count-indices g x ms (p ∷ []),
        count-indices g x fs ms,
      ))

module _ (env : Env) (others : ℕ → World → World) (wk p : ℕ) (held : List ℤ) where
  -- The world that createSGroup leaves: the group is in one place, with its index.
  pub record IsLanded (w w' : World) : Type 0 where
    pub stocked : IsStocked wk held w'
    pub place : Landed wk p w w'

  back-IsLanded :
      (w u : World)
      → p < w.next_sgroup
      → IsStocked wk ((w.sgroups p).pcie_idx ∷ held) w
      → IsQuiet wk w u
      → IsLanded w (add_free env wk p u)
  back-IsLanded w u l v q =
      let w' = add_free env wk p u in
      let place : Landed wk p w w' =
        given_back (rw (update-same u.workers wk _) (ap (λ l. l ++ p ∷ []) q.frees))
          (rw (update-same u.workers wk _) q.members) in
      record {
        stocked =
            moved-IsStocked wk p held w w' (rw (update-same u.workers wk _) q.pool)
              (rw (update-same u.workers wk _) q.pcie) q.next q.idx (Landed-count wk p w w' place)
              (Landed-indices wk p w w' w.sgroups place) l v;
        place = place;
      }

  complete-IsLanded :
      (d : ℕ) (w u : World)
      → p < w.next_sgroup
      → IsStocked wk ((w.sgroups p).pcie_idx ∷ held) w
      → IsQuiet wk w u
      → IsLanded w (complete wk p d 1 u)
  unfolding complete
  complete-IsLanded d w u l v q =
      let w' = complete wk p d 1 u in
      let sg = record (u.sgroups p) { dag = some d; is_complete = true } in
      let place : Landed wk p w w' =
        running (rw (update-same u.workers wk _) q.frees)
          (rw (update-same u.workers wk _) (ap (λ l. l ++ p ∷ []) q.members))
          (rw (update-same u.sgroups p sg) refl) in
      record {
        stocked =
            moved-IsStocked wk p held w w' (rw (update-same u.workers wk _) q.pool)
              (rw (update-same u.workers wk _) q.pcie) q.next
              (λ r. part-update (λ s. s.pcie_idx) u.sgroups p sg refl r ∙ q.idx r)
              (Landed-count wk p w w' place) (Landed-indices wk p w w' w.sgroups place) l v;
        place = place;
      }

  settle_deployed-IsLanded :
      (fuel k d : ℕ) (w : World) (r : Run (Bool × World))
      → 0 < k
      → p < w.next_sgroup
      → IsStocked wk ((w.sgroups p).pcie_idx ∷ held) w
      → Deploying env others wk p k w r
      → (w' : World) × ((r >>= λ (r : Bool × World). settle_deployed env others fuel wk p d 1 r)
          ≡ returns w')
        × IsLanded w w'
  unfolding settle_deployed
  settle_deployed-IsLanded fuel k d w _ h l v (through {u = u} q a e) = (
    complete wk p d 1 u,
    complete-waits env others fuel wk p d 1 u a (omega (arith, h, e)),
    complete-IsLanded d w u l v q,
  )
  settle_deployed-IsLanded fuel k d w _ h l v (back {u = u} q) =
      (add_free env wk p u, refl, back-IsLanded w u l v q)

  held_device :
      (w : World)
      → IsStocked wk ((w.sgroups p).pcie_idx ∷ held) w
      → (d : String) × (pcie_at (w.workers wk) (w.sgroups p).pcie_idx ≡ returns d)
  unfolding ℤ_count
  held_device w v =
      let i = (w.sgroups p).pcie_idx in
      pcie_at_found (w.workers wk) i (
        ground (
          arith,
          v.shared.shared i,
          equal_iff i i,
          ℤ_count-append i (indices w.sgroups (groups_of wk w)) (i ∷ held),
        ))

  -- Where each PCIe index of a worker's devices is in the pool, or of one of its groups, or held by others or by a group
  -- with no instances that was taken off its lists, createSGroup on that group, with a chain that is not empty, comes
  -- back, whether or not the deployments succeed: the group is complete and the last one of the worker, or again the last
  -- of its free ones, and each index is in one of these places.
  pub create_sgroup-IsLanded :
      (fuel d : ℕ) (nfs : List Nf) (w : World)
      → chain_of env others (w.dags d).nf_map (w.dags d).chains ≡ returns nfs
      → 0 < length nfs
      → (w.sgroups p).instances ≡ []
      → p < w.next_sgroup
      → IsStocked wk ((w.sgroups p).pcie_idx ∷ held) w
      → (w' : World) × (create_sgroup env others fuel wk p d w ≡ returns w') × IsLanded w w'
  unfolding create_sgroup count
  create_sgroup-IsLanded fuel d nfs w c some_nf bare l v =
      let (dev, e) = held_device w v in
      let bare-AreUnset : AreUnset p w = record {
        old = rw bare (λ i h. absurd (omega (arith, h)));
        tids = rw bare (λ i h. absurd (omega (arith, h)));
      } in
      rw c (
        settle_deployed-IsLanded fuel (length (w.sgroups p).instances + length nfs) d w _
          (omega (arith, some_nf)) l v
          (deploy_chain-Deploying env others wk p nfs 0 (length nfs) dev w e bare-AreUnset))
