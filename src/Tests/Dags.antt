-- ===== src/Tests/Dags.antt =====
-- Concrete runs: controller/dag.go.
use low_latency_faa_s.Prelude.{
  ℕ, zero, suc, ◌<◌, ◌≡◌, refl, inr, true, List, [], ◌∷◌, none, some, arith,
}
use low_latency_faa_s.Prelude.Int.{pos}
use low_latency_faa_s.Prelude.Count.{count}
use low_latency_faa_s.Go.{invalid_ingress, returns, panic, hangs}
use low_latency_faa_s.Controller.Dag.{
  Nf, Dag, new_dag, fresh_nf, add_nf, link_next, link_prev, update_nf, link_nfs, connect_nfs,
  activate,
}
use low_latency_faa_s.Controller.Dag.Links.{
  edges, IsLinked, Built, start, adds, connects, connect_nfs_panics, Built-IsLinked,
}
use low_latency_faa_s.Controller.Dag.Activation.{
  is_source, IsRange, IsIngress, IsRanked, IsClosed, Chain, activate-Chain, activate_refuses,
  activate_hangs,
}

abbrev firewall : Nf
firewall = fresh_nf 0 "firewall" "firewall"

abbrev nat : Nf
nat = fresh_nf 1 "nat" "nat"

-- A firewall and a NAT, apart and linked.
abbrev apart : Dag
apart = record new_dag { nf_map = firewall ∷ nat ∷ [] }

abbrev linked : Dag
linked = record new_dag { nf_map = link_next 1 firewall ∷ link_prev 0 nat ∷ [] }

apart-Built : Built apart
unfolding add_nf
apart-Built = adds (adds start "firewall") "nat"

link_run : connect_nfs apart (pos 0) (pos 1) ≡ returns (none, linked)
unfolding connect_nfs link_nfs update_nf
link_run = refl

linked-Built : Built linked
linked-Built = connects apart-Built (pos 0) (pos 1) none link_run

connect_nfs_panics_example : connect_nfs apart (pos 0) (pos 2) ≡ panic
connect_nfs_panics_example = connect_nfs_panics apart (pos 0) (pos 2) refl refl (inr refl)

Built-IsLinked_example : IsLinked linked.nf_map
Built-IsLinked_example = Built-IsLinked linked-Built

linked-IsRange : IsRange linked.nf_map (1 ∷ 0 ∷ [])
unfolding count
linked-IsRange u = ground arith

linked-IsIngress : IsIngress linked.nf_map 0
unfolding is_source
linked-IsIngress = record { source = refl; only = λ u h. ground (arith, h) }

linked-IsRanked : IsRanked linked.nf_map (λ u. elim u [ zero ↦ 1 | suc _ ↦ 0 ])
unfolding edges count
linked-IsRanked u v h = ground (arith, h)

activate-Chain_example :
    (l : List ℕ) × (activate 2 (1 ∷ 0 ∷ []) linked
      ≡ returns (none, record linked { chains = l; is_active = true }))
    × Chain linked.nf_map 0 l
activate-Chain_example =
    activate-Chain linked (1 ∷ 0 ∷ []) 0 2 (λ u. elim u [ zero ↦ 1 | suc _ ↦ 0 ]) linked-Built
      linked-IsRange linked-IsIngress linked-IsRanked (omega arith)

apart-IsRange : IsRange apart.nf_map (1 ∷ 0 ∷ [])
unfolding count
apart-IsRange u = ground arith

two_sources : (is_source apart.nf_map 0 ≡ true) × (is_source apart.nf_map 1 ≡ true)
unfolding is_source
two_sources = (refl, refl)

activate_refuses_example : activate 5 (1 ∷ 0 ∷ []) apart ≡ returns (some invalid_ingress, apart)
activate_refuses_example =
    activate_refuses apart (1 ∷ 0 ∷ []) 5 apart-IsRange
      (inr (0, 1, omega arith, two_sources.0, two_sources.1))

-- The NAT leads back to itself.
abbrev looping : Dag
looping = record new_dag { nf_map = link_next 1 firewall ∷ link_next 1 (link_prev 0 nat) ∷ [] }

looping-IsRange : IsRange looping.nf_map (0 ∷ 1 ∷ [])
unfolding count
looping-IsRange u = ground arith

looping-IsIngress : IsIngress looping.nf_map 0
unfolding is_source
looping-IsIngress = record { source = refl; only = λ u h. ground (arith, h) }

abbrev Early : ℕ → Type 0
Early u = u < 2

looping-IsClosed : IsClosed looping.nf_map Early
looping-IsClosed zero h = (link_next 1 firewall, 1, [], refl, refl, omega arith)
looping-IsClosed (suc zero) h = (link_next 1 (link_prev 0 nat), 1, [], refl, refl, omega arith)
looping-IsClosed (suc (suc u)) h = absurd (omega (arith, h))

activate_hangs_example : activate 1000 (0 ∷ 1 ∷ []) looping ≡ hangs
activate_hangs_example =
    activate_hangs looping (0 ∷ 1 ∷ []) 0 1000 Early looping-IsRange looping-IsIngress
      looping-IsClosed (omega arith)
