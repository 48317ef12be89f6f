-- ===== src/Controller/Schedule/Interleaving/Aside.antt =====
-- controller/load_balance.go: what a flow leaves of the placement of groups.
use low_latency_faa_s.Prelude.{
  ℕ, ◌≡◌, refl, sym, subst, ◌∙◌, inl, inr, not, List, Option, none, some, arith, ltb, Bool-cases,
  Option-cases,
}
use low_latency_faa_s.Go.{no_resources, Run, returns}
use low_latency_faa_s.Controller.Flowlet.{Flow}
use low_latency_faa_s.Controller.State.{SGroup, World, put_worker, put_sgroup}
use low_latency_faa_s.Controller.Schedule.Round.{SameCores}
use low_latency_faa_s.Controller.Traffic.{activate_sgroup, set_active}
use low_latency_faa_s.Controller.LoadBalance.{
  Cluster, Answer, refusal, values, send_to, wake, serve_flow, update_flow, find_match,
  find_on_idle_worker, find_available_high_load_first,
}
use low_latency_faa_s.Controller.LoadBalance.Free.{Freed, none_free, freed, get_free_of-Freed}
use low_latency_faa_s.Controller.Groups.Ready.Calls.{part-update}

-- The groups of the worker.
abbrev pub members : ℕ → World → List ℕ
members b w = (w.workers b).sgroups

-- What a write to a group keeps that changes neither its IDs nor its core.
pub record IsKept (sg sg' : SGroup) : Type 0 where
  pub idx : sg'.pcie_idx ≡ sg.pcie_idx
  pub owner : sg'.worker ≡ sg.worker
  pub place : sg'.core_id ≡ sg.core_id

-- What a step away from the scheduler keeps.
pub record IsAside (w w' : World) : Type 0 where
  pub same : SameCores w w'
  pub listed : (b : ℕ) → members b w' ≡ members b w

pub IsAside-refl : (w : World) → IsAside w w
IsAside-refl w = record {
  same = record { cores = λ b. refl; ids = λ q. refl; owners = λ q. refl; places = λ q. refl };
  listed = λ b. refl;
}

-- A write to a group, and one to the free groups of a worker.
pub put_sgroup-IsAside :
    (p : ℕ) (sg : SGroup) (w : World) → IsKept (w.sgroups p) sg → IsAside w (put_sgroup p sg w)
put_sgroup-IsAside p sg w k = record {
  same = record {
    cores = λ b. refl;
    ids = part-update (λ s. s.pcie_idx) w.sgroups p sg k.idx;
    owners = part-update (λ s. s.worker) w.sgroups p sg k.owner;
    places = part-update (λ s. s.core_id) w.sgroups p sg k.place;
  };
  listed = λ b. refl;
}

free_sgroups-IsAside :
    (a : ℕ) (rest : List ℕ) (w : World)
    → IsAside w (put_worker a (record (w.workers a) { free_sgroups = rest }) w)
free_sgroups-IsAside a rest w = record {
  same = record {
    cores = part-update (λ s. s.cores) w.workers a _ refl;
    ids = λ q. refl;
    owners = λ q. refl;
    places = λ q. refl;
  };
  listed = part-update (λ s. s.sgroups) w.workers a _ refl;
}

wake-IsAside : (p : ℕ) (w : World) → IsAside w (wake p w)
unfolding set_active
wake-IsAside p w = elim (Bool-cases (w.sgroups p).is_active) [
  | inl active ↦ rw active (IsAside-refl w)
  | inr idle ↦ rw idle (
      put_sgroup-IsAside p (activate_sgroup (w.sgroups p)) w
        (record { idx = refl; owner = refl; place = refl }))
]

Freed-IsAside : (w w' : World) (wks : List ℕ) (r : Option ℕ) → Freed w wks r w' → IsAside w w'
Freed-IsAside w _ wks _ (none_free all) = IsAside-refl w
Freed-IsAside w _ wks _ (freed a p rest h e) = free_sgroups-IsAside a rest w

send_to-same :
    (p : ℕ) (started : Option (ℕ × ℕ)) (w : World) (a : Answer) (w' : World)
    → send_to p started w ≡ returns (a, w')
    → w' ≡ w
unfolding send_to
send_to-same p started w a w' h = ground (arith, h)

pub IsAside-trans : (u v w : World) → IsAside u v → IsAside v w → IsAside u w
IsAside-trans u v w a b = record {
  same = record {
    cores = λ c. b.same.cores c ∙ a.same.cores c;
    ids = λ q. b.same.ids q ∙ a.same.ids q;
    owners = λ q. b.same.owners q ∙ a.same.owners q;
    places = λ q. b.same.places q ∙ a.same.places q;
  };
  listed = λ c. b.listed c ∙ a.listed c;
}

-- An answer that leaves a world aside.
sent-IsAside :
    (p : ℕ) (started : Option (ℕ × ℕ)) (w u : World) (a : Answer) (w' : World)
    → IsAside w u
    → send_to p started u ≡ returns (a, w')
    → IsAside w w'
sent-IsAside p started w u a w' k h = subst (IsAside w) (sym (send_to-same p started u a w' h)) k

free-IsAside :
    (d : ℕ) (w u : World) (free : Option ℕ) (a : Answer) (w' : World)
    → IsAside w u
    → (elim free as (λ x. Run (Answer × World)) [
      | some p ↦ send_to p (some (p, d)) u
      | none ↦ returns (refusal no_resources, u)
    ])
      ≡ returns (a, w')
    → IsAside w w'
free-IsAside d w u none a w' k h = let e : w' ≡ u = ground (arith, h) in subst (IsAside w) (sym e) k
free-IsAside d w u (some p) a w' k h = sent-IsAside p (some (p, d)) w u a w' k h

serve_flow-IsAside :
    (c : Cluster) (x : Flow) (w : World) (a : Answer) (w' : World)
    → serve_flow c x w ≡ returns (a, w')
    → IsAside w w'
unfolding serve_flow
serve_flow-IsAside c x w a w' = elim (Option-cases (find_match w.dags x c.dags)) [
  | inl unknown ↦
      rw (unknown, serve_flow)
        (λ h. let e : w' ≡ w = ground (arith, h) in subst (IsAside w) (sym e) (IsAside-refl w))
  | inr (d, known) ↦ elim (Bool-cases (not (w.dags d).is_active)) [
    | inl off ↦
        rw (known, off, serve_flow)
          (λ h. let e : w' ≡ w = ground (arith, h) in subst (IsAside w) (sym e) (IsAside-refl w))
    | inr up ↦ elim (Option-cases (find_available_high_load_first w (w.dags d))) [
      | inl none_there ↦
          rw (known, up, none_there, serve_flow)
            (free-IsAside d w _ _ a w'
              (Freed-IsAside w _ (values c.workers) _ (get_free_of-Freed (values c.workers) w)))
      | inr (p, there) ↦
          rw (known, up, there, serve_flow)
            (sent-IsAside p none w (wake p w) a w' (wake-IsAside p w))
    ]
  ]
]

pub update_flow-IsAside :
    (c : Cluster) (x : Flow) (w : World) (a : Answer) (w' : World)
    → update_flow c x w ≡ returns (a, w')
    → IsAside w w'
unfolding update_flow
update_flow-IsAside c x w a w' = elim (Bool-cases (ltb x.dst_port 2000)) [
  | inl background ↦ elim (Option-cases (find_on_idle_worker c x.dst_port w)) [
    | inl none_there ↦ rw (background, none_there) (serve_flow-IsAside c x w a w')
    | inr (p, there) ↦
        rw (background, there) (sent-IsAside p none w (wake p w) a w' (wake-IsAside p w))
  ]
  | inr other ↦ rw other (serve_flow-IsAside c x w a w')
]
