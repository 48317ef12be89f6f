-- ===== src/Controller/Lifecycle/Factory/Turns.antt =====
-- controller/background.go: every turn of a thread keeps the PCIe indices shared, and none panics.
use low_latency_faa_s.Prelude.{
  ℕ, zero, suc, ◌≤◌, ◌<◌, ◌≡◌, refl, sym, subst, ap, ◌∙◌, inl, inr, true, false, List, [], ◌∷◌,
  ◌++◌, Option, some, arith, Bool-cases, List-cases, ◌==◌, ◌≢◌,
}
use low_latency_faa_s.Prelude.Int.{ℤ}
use low_latency_faa_s.Prelude.Count.{count}
use low_latency_faa_s.Utils.MinHeap.Count.{count as ℤ_count, equal_iff}
use low_latency_faa_s.Go.{Run, returns}
use low_latency_faa_s.Controller.State.{World, faas, metron, other, Env}
use low_latency_faa_s.Controller.Groups.{take_pcie, settle_new, settle_free}
use low_latency_faa_s.Controller.Groups.Pcie.Steady.{IsSteady, create_instance-IsSteady}
use low_latency_faa_s.Controller.Groups.Pcie.Stock.{
  IsStocked-held, indices_left, indices_left-take, take_pcie-IsStocked, held_device,
}
use low_latency_faa_s.Controller.Groups.Pcie.Made.{settle_free-IsSettled}
use low_latency_faa_s.Controller.Lifecycle.Factory.{
  FaasOp, free_sgroup, shutdown, Phase, drew, deployed_as, Init, sending, ended, Factory, Fleet,
  put_factory, receive, run_free_sgroup_factory, sched_of, init_turn, draw, deploy, settle, Turn,
  receives, inits, draws, deploys, settles, Reach, here, next,
}
use low_latency_faa_s.Controller.Lifecycle.Factory.Supplied.{
  requests, requests-snoc, to_send, demand, indices_of, IsSupplied, IsIdle, AreSupplied,
  create_sched-IsSteady, take_pcie-IsElsewhere, middle, IsSteady-refl, IsTurned, steady-IsTurned,
  turned-AreSupplied,
}

receive-demand :
    (op : FaasOp) (ops : List FaasOp) (f : Factory)
    → f.channel ≡ op ∷ ops
    → f.is_listening ≡ true
    → ((receive op ops f).threads ≡ f.threads) × (demand (receive op ops f) ≤ demand f)
unfolding receive requests
receive-demand free_sgroup ops f e l = (refl, rw (e, l) (omega arith))
receive-demand shutdown ops f e l = (refl, rw (e, l) (omega arith))

run_free_sgroup_factory-demand :
    (f f' : Factory)
    → run_free_sgroup_factory f ≡ some f'
    → (f.is_listening ≡ true) × (f'.threads ≡ f.threads) × (demand f' ≤ demand f)
unfolding run_free_sgroup_factory
run_free_sgroup_factory-demand f f' run = elim (Bool-cases f.is_listening) [
  | inr deaf ↦ absurd (ground (arith, run, deaf))
  | inl hears ↦ elim (List-cases f.channel) [
    | inl none_sent ↦ absurd (ground (arith, run, hears, none_sent))
    | inr (op, ops, sent) ↦
        let same : f' ≡ receive op ops f = ground (arith, run, hears, sent) in
        let (t, d) = receive-demand op ops f sent hears in rw same (hears, t, d)
  ]
]

module _ (env : Env) where
  sched_of-IsSteady : (wk : ℕ) (w : World) → IsSteady wk w (sched_of env w.mode wk w)
  sched_of-IsSteady wk w = elim w.mode as (λ m. IsSteady wk w (sched_of env m wk w)) [
    | faas ↦ create_sched-IsSteady env wk w
    | metron ↦ IsSteady-refl wk w
    | other ↦ IsSteady-refl wk w
  ]

  init_turn-IsTurned :
      (wk : ℕ) (i : Init) (f f' : Factory) (w w' : World)
      → f.init ≡ i
      → init_turn env wk i f w ≡ some (f', w')
      → IsSupplied wk f w
      → IsTurned wk f' w w'
  unfolding init_turn
  init_turn-IsTurned wk ended f f' w w' e run v = absurd (ground (arith, run))
  init_turn-IsTurned wk (sending zero) f f' w w' e run v =
      let same : f' ≡ record f { init = ended } = ground (arith, run) in
      let after : w' ≡ sched_of env w.mode wk w = ground (arith, run) in
      rw (same, after)
        (steady-IsTurned wk f _ w _ (sched_of-IsSteady wk w) (λ x. refl)
          (omega (arith, ap to_send e)) v)
  init_turn-IsTurned wk (sending (suc n)) f f' w w' e run v =
      let same : f' ≡ record f { channel = f.channel ++ free_sgroup ∷ []; init = sending n } =
        ground (arith, run) in
      let after : w' ≡ w = ground (arith, run) in
      rw (same, after)
        (steady-IsTurned wk f _ w _ (IsSteady-refl wk w) (λ x. refl)
          (ground (arith, ap to_send e, requests-snoc f.channel)) v)

  draw-IsTurned :
      (wk k : ℕ) (s : Fleet)
      → (s.factories wk).started ≡ suc k
      → IsSupplied wk (s.factories wk) s.world
      → let r = take_pcie wk s.world in
        IsTurned wk
          (record (s.factories wk) {
            started = k;
            threads = (r.0, drew) ∷ (s.factories wk).threads;
          })
          s.world
          r.1
  draw-IsTurned wk k s e v =
      let h : 0 < indices_left wk s.world = omega (arith, e, v.enough) in
      record {
        supplied = record {
          stocked = take_pcie-IsStocked wk _ s.world v.stocked h;
          enough = omega (arith, e, v.enough, indices_left-take wk _ s.world v.stocked h);
        };
        elsewhere = take_pcie-IsElsewhere wk s.world;
      }

  settle-IsTurned :
      (wk : ℕ) (front : List (ℤ × Phase)) (idx : ℤ) (i : Option ℕ) (back : List (ℤ × Phase))
      (s : Fleet)
      → (s.factories wk).threads ≡ front ++ (idx, deployed_as i) ∷ back
      → IsSupplied wk (s.factories wk) s.world
      → IsTurned wk
          (record (s.factories wk) { threads = front ++ back })
          s.world
          (settle_free env wk idx (settle_new env wk idx (i, s.world))).1
  settle-IsTurned wk front idx i back s e v =
      let out = settle_free-IsSettled env wk (indices_of (front ++ back)) idx i s.world (
        IsStocked-held wk _ _ s.world
          (λ x.
            sym (ap (λ ts. ℤ_count x (indices_of ts)) e ∙ middle front idx (deployed_as i) back x))
          v.stocked) in
      record {
        supplied = record { stocked = out.stocked; enough = omega (arith, v.enough, out.left) };
        elsewhere = out.elsewhere;
      }

  deploy-IsTurned :
      (wk : ℕ) (front : List (ℤ × Phase)) (idx : ℤ) (back : List (ℤ × Phase)) (s : Fleet)
      → (s.factories wk).threads ≡ front ++ (idx, drew) ∷ back
      → IsSupplied wk (s.factories wk) s.world
      → (f : Factory) × (w : World) × (deploy env wk front idx back s
          ≡ returns (put_factory wk f w s))
        × IsTurned wk f s.world w
  unfolding deploy ℤ_count
  deploy-IsTurned wk front idx back s e v =
      let f = s.factories wk in
      let spread = λ (a : Phase) (x : ℤ). middle front idx a back x in
      let among : 0 < ℤ_count idx (indices_of f.threads) =
        ground
          (arith, ap (λ ts. ℤ_count idx (indices_of ts)) e, spread drew idx, equal_iff idx idx) in
      let (d, found) = held_device wk (indices_of f.threads) idx s.world v.stocked among in
      let (r, run, st) =
        create_instance-IsSteady env wk ("prim" ∷ []) 0 idx true false false d s.world found in
      (
        record f { threads = front ++ (idx, deployed_as r.0) ∷ back },
        r.1,
        rw run refl,
        steady-IsTurned wk f _ s.world r.1 st
            (λ x.
              spread (deployed_as r.0) x
              ∙ sym (ap (λ ts. ℤ_count x (indices_of ts)) e ∙ spread drew x))
            (omega arith) v,
      )

no_thread :
    (front : List (ℤ × Phase)) (t : ℤ × Phase) (back : List (ℤ × Phase)) → front ++ t ∷ back ≢ []
no_thread [] t back e = ground (arith, e)
no_thread (a ∷ front) t back e = ground (arith, e)

module _ (env : Env) (all : List ℕ) where
  -- A worker with a thread is one of `all`.
  acts : (s : Fleet) (b : ℕ) → AreSupplied all s → ¬ (IsIdle (s.factories b)) → 0 < count b all
  acts s b v h = elim (Bool-cases (count b all == 0)) [
    | inl out ↦ absurd (h (v.idle b (ground (arith, out))))
    | inr among ↦ ground (arith, among)
  ]

  init_acts :
      (wk : ℕ) (f : Factory) (w : World) (o : Factory × World)
      → init_turn env wk f.init f w ≡ some o
      → ¬ (IsIdle f)
  unfolding init_turn
  init_acts wk f w o run h =
      let stopped : init_turn env wk ended f w ≡ some o =
        subst (λ i. init_turn env wk i f w ≡ some o) h.through run in
      ground (arith, stopped)

  thread_acts :
      (f : Factory) (front : List (ℤ × Phase)) (t : ℤ × Phase) (back : List (ℤ × Phase))
      → f.threads ≡ front ++ t ∷ back
      → ¬ (IsIdle f)
  thread_acts f front t back e h = no_thread front t back (sym e ∙ h.without)

  -- Every turn comes back.
  Turn-AreSupplied :
      (s : Fleet) (r : Run Fleet)
      → Turn env s r
      → AreSupplied all s
      → (u : Fleet) × (r ≡ returns u) × AreSupplied all u
  Turn-AreSupplied s _ (receives wk f run) v =
      let (hears, t, d) = run_free_sgroup_factory-demand (s.factories wk) f run in
      let h = acts s wk v (λ i. ground (arith, hears, i.deaf)) in
      (
        put_factory wk f s.world s,
        refl,
        turned-AreSupplied all wk f s.world s h
            (steady-IsTurned wk (s.factories wk) f s.world s.world (IsSteady-refl wk s.world)
              (λ x. ap (λ ts. ℤ_count x (indices_of ts)) t) d (v.supplied wk h))
            v,
      )
  Turn-AreSupplied s _ (inits wk f w run) v =
      let h = acts s wk v (init_acts wk (s.factories wk) s.world _ run) in
      (
        put_factory wk f w s,
        refl,
        turned-AreSupplied all wk f w s h
            (init_turn-IsTurned env wk _ (s.factories wk) f s.world w refl run (v.supplied wk h)) v,
      )
  Turn-AreSupplied s _ (draws wk k e) v =
      let h = acts s wk v (λ i. omega (arith, e, i.unstarted)) in
      (
        draw env wk k s,
        refl,
        turned-AreSupplied all wk _ _ s h (draw-IsTurned env wk k s e (v.supplied wk h)) v,
      )
  Turn-AreSupplied s _ (deploys wk front idx back e) v =
      let h = acts s wk v (thread_acts (s.factories wk) front _ back e) in
      let (f, w, run, t) = deploy-IsTurned env wk front idx back s e (v.supplied wk h) in
      (put_factory wk f w s, run, turned-AreSupplied all wk f w s h t v)
  Turn-AreSupplied s _ (settles wk front idx i back e) v =
      let h = acts s wk v (thread_acts (s.factories wk) front _ back e) in
      (
        settle env wk front idx i back s,
        refl,
        turned-AreSupplied all wk _ _ s h
            (settle-IsTurned env wk front idx i back s e (v.supplied wk h)) v,
      )

  Reach-AreSupplied_lem : (s v : Fleet) → Reach env s v → AreSupplied all s → AreSupplied all v
  Reach-AreSupplied_lem s _ here h = h
  Reach-AreSupplied_lem s _ (next {u = u} {v = v} {r = r} before turn run) h =
      let (x, same, k) = Turn-AreSupplied u r turn (Reach-AreSupplied_lem s u before h) in
      let e : v ≡ x = ground (arith, run, same) in subst (AreSupplied all) (sym e) k

  -- Where each PCIe index of the devices of the workers `all` is in the worker's pool, or with one of its groups, or with
  -- one running thread of createFreeSGroup, the messages that are sent or still to send, up to a shutdown, ask with the
  -- threads that have no index yet for no more indices than the pool has, and no other worker has threads: all this
  -- still holds after any turns, in any order, of RunFreeSGroupFactory, of the threads of createFreeSGroup and of those
  -- of NewFaaSController, whether or not the deployments succeed, and no turn that a thread can take then panics.
  pub Reach-AreSupplied :
      (s v : Fleet)
      → AreSupplied all s
      → Reach env s v
      → AreSupplied all v × ((r : Run Fleet) → Turn env v r → (u : Fleet) × (r ≡ returns u))
  Reach-AreSupplied s v h m =
      let k = Reach-AreSupplied_lem s v m h in
      (k, λ r turn. let (u, e, _) = Turn-AreSupplied v r turn k in (u, e))
