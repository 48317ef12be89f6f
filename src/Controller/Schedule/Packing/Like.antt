-- ===== src/Controller/Schedule/Packing/Like.antt =====
-- controller/schedule.go: the moves of scheduleOnce leave the loads and the states of groups alone.
use low_latency_faa_s.Prelude.{
  ℕ, ◌≡◌, refl, sym, ◌∙◌, inl, inr, not, List, [], ◌∷◌, Option, none, some, arith, Bool-cases,
}
use low_latency_faa_s.Prelude.Int.{ℤ}
use low_latency_faa_s.Utils.MinHeap.{equal}
use low_latency_faa_s.Go.{Error}
use low_latency_faa_s.Controller.State.{SGroup, World, Env, idle_core_id}
use low_latency_faa_s.Controller.Attach.{
  attach_sgroup, worker_attach, take_off, put_on, settle_attach, detach_sgroup, worker_detach,
  settle_detach,
}
use low_latency_faa_s.Controller.Traffic.{get_pkt_load}
use low_latency_faa_s.Controller.Schedule.{detach_after, park}
use low_latency_faa_s.Controller.Schedule.Packing.Loads.{
  Move, load_on, AreMeant, IsPacking, AreTaken,
}

-- The fields that the loop reads.
pub record IsLike (f g : ℕ → SGroup) : Type 0 where
  pub ready : (q : ℕ) → (f q).is_ready ≡ (g q).is_ready
  pub active : (q : ℕ) → (f q).is_active ≡ (g q).is_active
  pub rate : (q : ℕ) → (f q).pkt_rate_kpps ≡ (g q).pkt_rate_kpps
  pub most : (q : ℕ) → (f q).max_rate_kpps ≡ (g q).max_rate_kpps

IsLike-trans : (f g h : ℕ → SGroup) → IsLike f g → IsLike g h → IsLike f h
IsLike-trans f g h a b = record {
  ready = λ q. a.ready q ∙ b.ready q;
  active = λ q. a.active q ∙ b.active q;
  rate = λ q. a.rate q ∙ b.rate q;
  most = λ q. a.most q ∙ b.most q;
}

IsLike-refl : (f : ℕ → SGroup) → IsLike f f
IsLike-refl f = record { ready = λ q. refl; active = λ q. refl; rate = λ q. refl; most = λ q. refl }

pub attach_sgroup-IsLike :
    (env : Env) (p : ℕ) (id : ℤ) (w : World) → IsLike (attach_sgroup env p id w).1.sgroups w.sgroups
unfolding attach_sgroup worker_attach take_off put_on settle_attach
attach_sgroup-IsLike env p id w = record {
  ready = λ q. ground arith;
  active = λ q. ground arith;
  rate = λ q. ground arith;
  most = λ q. ground arith;
}

detach_sgroup-IsLike :
    (env : Env) (p : ℕ) (w : World) → IsLike (detach_sgroup env p w).1.sgroups w.sgroups
unfolding detach_sgroup worker_detach settle_detach
detach_sgroup-IsLike env p w = record {
  ready = λ q. ground arith;
  active = λ q. ground arith;
  rate = λ q. ground arith;
  most = λ q. ground arith;
}

detach_after-IsLike :
    (env : Env) (p : ℕ) (r : Option Error × World)
    → IsLike (detach_after env p r).sgroups r.1.sgroups
detach_after-IsLike env p (some e, w) = IsLike-refl w.sgroups
detach_after-IsLike env p (none, w) = detach_sgroup-IsLike env p w

pub park-IsLike : (env : Env) (p : ℕ) (w : World) → IsLike (park env p w).sgroups w.sgroups
unfolding park
park-IsLike env p w = elim (Bool-cases (not (w.sgroups p).is_sched)) [
  | inl out ↦ rw out (IsLike-refl w.sgroups)
  | inr sched ↦ elim (Bool-cases (equal (w.sgroups p).core_id idle_core_id)) [
    | inl there ↦ rw (sched, there) (detach_sgroup-IsLike env p w)
    | inr away ↦
        rw (sched, away)
          (IsLike-trans _ _ _ (detach_after-IsLike env p (attach_sgroup env p idle_core_id w))
            (attach_sgroup-IsLike env p idle_core_id w))
  ]
]

like_load : (f g : ℕ → SGroup) → IsLike f g → (q : ℕ) → get_pkt_load (f q) ≡ get_pkt_load (g q)
unfolding get_pkt_load
like_load f g v q = rw (v.rate q, v.most q) refl

like_load_on :
    (f g : ℕ → SGroup) (ms : List Move) (j : ℕ) → IsLike f g → load_on f ms j ≡ load_on g ms j
unfolding load_on
like_load_on f g [] j v = refl
like_load_on f g (m ∷ ms) j v = rw (like_load f g v m.group, like_load_on f g ms j v) refl

like_AreMeant : (f g : ℕ → SGroup) (ms : List Move) → IsLike f g → AreMeant f ms → AreMeant g ms
like_AreMeant f g [] v h = tt
like_AreMeant f g (m ∷ ms) v ((r, a), h) =
    ((sym (v.ready m.group) ∙ r, sym (v.active m.group) ∙ a), like_AreMeant f g ms v h)

pub like_IsPacking :
    (f g : ℕ → SGroup) (n c l : ℕ) (ms : List Move)
    → IsLike f g
    → IsPacking f n c l ms
    → IsPacking g n c l ms
like_IsPacking f g n c l ms v h = record {
  meant = like_AreMeant f g ms v h.meant;
  behind = h.behind;
  here = ground (arith, h.here, like_load_on f g ms c v);
  ahead = λ j k. ground (arith, h.ahead j k, like_load_on f g ms j v);
  within = h.within;
}

pub like_AreTaken :
    (f g : ℕ → SGroup) (n c : ℕ) (ps : List ℕ) (ms : List Move)
    → IsLike f g
    → AreTaken f n c ps ms
    → AreTaken g n c ps ms
like_AreTaken f g n c ps ms v (inl all) = inl (λ q k r. all q k (v.ready q ∙ r))
like_AreTaken f g n c ps ms v (inr full) = inr full
