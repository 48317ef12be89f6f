-- ===== src/Controller/Schedule/Interleaving/Reports.antt =====
-- controller/controller.go and controller/sgroup.go: what a report leaves of the placement of groups.
use low_latency_faa_s.Prelude.{
  ℕ, ◌≡◌, refl, sym, subst, ◌∙◌, inl, inr, String, Bool, List, [], ◌∷◌, Option, none, some, arith,
  Bool-cases, Option-cases,
}
use low_latency_faa_s.Prelude.Int.{ℤ}
use low_latency_faa_s.Go.{Error, no_worker, no_sgroup, Run, returns, panic, hangs, ◌>>=◌}
use low_latency_faa_s.Controller.State.{Instance, SGroup, World, put_sgroup}
use low_latency_faa_s.Controller.Traffic.{
  measure, with_max_rate, max_rate, update_activity, update_traffic_info, update_instance,
}
use low_latency_faa_s.Controller.Requests.{named, update_stats, instance_update_stats}
use low_latency_faa_s.Controller.Pool.{entry}
use low_latency_faa_s.Controller.Schedule.Interleaving.Aside.{
  IsKept, IsAside, IsAside-refl, IsAside-trans, put_sgroup-IsAside,
}

update_activity-IsKept : (b : Bool) (sg : SGroup) → IsKept sg (update_activity b sg)
unfolding update_activity
update_activity-IsKept b sg = record {
  idx = ground arith;
  owner = ground arith;
  place = ground arith;
}

measure-IsKept :
    (ins : ℕ → Instance) (is : List ℕ) (sg sg' : SGroup)
    → measure ins is sg ≡ returns sg'
    → IsKept sg sg'
unfolding measure with_max_rate max_rate
measure-IsKept ins [] sg sg' h = record {
  idx = ground (arith, h);
  owner = ground (arith, h);
  place = ground (arith, h);
}
measure-IsKept ins (i ∷ is) sg sg' h = record {
  idx = ground (arith, h);
  owner = ground (arith, h);
  place = ground (arith, h);
}

update_instance-IsAside :
    (i qlen kpps cycle : ℕ) (w : World) → IsAside w (update_instance i qlen kpps cycle w)
unfolding update_instance
update_instance-IsAside i qlen kpps cycle w = record {
  same = record { cores = λ b. refl; ids = λ q. refl; owners = λ q. refl; places = λ q. refl };
  listed = λ b. refl;
}

IsKept-trans : (a b c : SGroup) → IsKept a b → IsKept b c → IsKept a c
IsKept-trans a b c k l = record {
  idx = l.idx ∙ k.idx;
  owner = l.owner ∙ k.owner;
  place = l.place ∙ k.place;
}

update_traffic_info-IsAside :
    (p : ℕ) (w w' : World) → update_traffic_info p w ≡ returns w' → IsAside w w'
unfolding update_traffic_info
update_traffic_info-IsAside p w w' h =
    measured (measure w.instances (w.sgroups p).instances (w.sgroups p))
      (measure-IsKept w.instances (w.sgroups p).instances (w.sgroups p)) h
  where
    measured :
        (r : Run SGroup)
        → ((sg : SGroup) → r ≡ returns sg → IsKept (w.sgroups p) sg)
        → (r >>= λ (sg : SGroup).
            returns (put_sgroup p (update_activity w.support_queue_length sg) w))
          ≡ returns w'
        → IsAside w w'
    measured panic k h = absurd (ground (arith, h))
    measured hangs k h = absurd (ground (arith, h))
    measured (returns sg) k h =
        let u = put_sgroup p (update_activity w.support_queue_length sg) w in
        let e : w' ≡ u = ground (arith, h) in
        subst (IsAside w) (sym e) (
          put_sgroup-IsAside p (update_activity w.support_queue_length sg) w
            (IsKept-trans _ sg _ (k sg refl) (update_activity-IsKept w.support_queue_length sg)))

counted-IsAside :
    (w u : World) (r : Run World) (e : Option Error) (w' : World)
    → IsAside w u
    → ((v : World) → r ≡ returns v → IsAside u v)
    → ◌>>=◌ {B = Option Error × World} r (λ (w₂ : World). returns (none, w₂)) ≡ returns (e, w')
    → IsAside w w'
counted-IsAside w u panic e w' k l h = absurd (ground (arith, h))
counted-IsAside w u hangs e w' k l h = absurd (ground (arith, h))
counted-IsAside w u (returns v) e w' k l h =
    let f : w' ≡ v = ground (arith, h) in
    subst (IsAside w) (sym f) (IsAside-trans w u v k (l v refl))

update_stats-IsAside :
    (i p qlen kpps cycle : ℕ) (w : World) (e : Option Error) (w' : World)
    → update_stats i p qlen kpps cycle w ≡ returns (e, w')
    → IsAside w w'
unfolding update_stats
update_stats-IsAside i p qlen kpps cycle w e w' =
    let u = update_instance i qlen kpps cycle w in
    let k = update_instance-IsAside i qlen kpps cycle w in
    elim (Bool-cases (u.instances i).is_egress) [
      | inl last ↦
          rw (last, update_stats)
            (counted-IsAside w u (update_traffic_info p u) e w' k
              (λ v. update_traffic_info-IsAside p u v))
      | inr inner ↦
          rw (inner, update_stats)
            (λ h. let f : w' ≡ u = ground (arith, h) in subst (IsAside w) (sym f) k)
    ]

still-IsAside :
    (w : World) (o e : Option Error) (w' : World)
    → (let r : Run (Option Error × World) = returns (o, w) in r ≡ returns (e, w'))
    → IsAside w w'
still-IsAside w o e w' h =
    let f : w' ≡ w = ground (arith, h) in subst (IsAside w) (sym f) (IsAside-refl w)

pub instance_update_stats-IsAside :
    (workers : List (String × ℕ)) (node_name : String) (port : ℤ) (qlen kpps cycle : ℕ) (w : World)
    (e : Option Error) (w' : World)
    → instance_update_stats workers node_name port qlen kpps cycle w ≡ returns (e, w')
    → IsAside w w'
unfolding instance_update_stats
instance_update_stats-IsAside workers node_name port qlen kpps cycle w e w' =
    elim (Option-cases (named workers node_name)) [
      | inl unknown ↦ rw (unknown, instance_update_stats) (still-IsAside w (some no_worker) e w')
      | inr (b, known) ↦ elim (Option-cases (entry (w.workers b).ins_startup_pool port)) [
        | inl out ↦ rw (known, out, instance_update_stats) (still-IsAside w (some no_sgroup) e w')
        | inr (i, there) ↦ elim (Option-cases (w.instances i).sg) [
          | inl alone ↦
              rw (known, there, alone, instance_update_stats)
                (still-IsAside w (some no_sgroup) e w')
          | inr (p, home) ↦
              rw (known, there, home, instance_update_stats)
                (update_stats-IsAside i p qlen kpps cycle w e w')
        ]
      ]
    ]
