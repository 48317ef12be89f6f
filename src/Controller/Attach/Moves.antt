-- ===== src/Controller/Attach/Moves.antt =====
-- attachSGroup of Worker and SGroup (controller/worker.go, controller/sgroup.go), on every branch.
use mathlib.Core.Path.{subst}
use low_latency_faa_s.Prelude.{
  ℕ, ◌<◌, ◌≡◌, ◌≢◌, refl, sym, ◌↔◌, ◌⊎◌, inl, inr, true, false, List, Option, none, some, arith,
  ◌==◌, if◌then◌else◌, Bool-cases, Option-cases,
}
use low_latency_faa_s.Prelude.Int.{ℤ}
use low_latency_faa_s.Prelude.Count.{count}
use low_latency_faa_s.Utils.MinHeap.{equal}
use low_latency_faa_s.Utils.MinHeap.Count.{equal_iff}
use low_latency_faa_s.Go.{Error, core_not_found}
use low_latency_faa_s.Controller.State.{World, Env, Reply, invalid_core_id}
use low_latency_faa_s.Controller.Core.{find_core, remove_sgroup, add_sgroup}
use low_latency_faa_s.Controller.Core.Laws.{
  groups_on-remove, groups_on-add, find_core-none, add_sgroup-KeepsId, remove_sgroup-KeepsId,
  IsNamed,
}
use low_latency_faa_s.Controller.Attach.{
  on_core, request, reply_error, take_off, put_on, worker_attach,
}
use low_latency_faa_s.Controller.Attach.Placement.{on, IsPlaced}

-- The two worlds differ in the groups on the cores of the worker, and in the number of calls made.
pub record SameStore (wk : ℕ) (w w' : World) : Type 0 where
  pub groups : w'.sgroups ≡ w.sgroups
  pub members : (w'.workers wk).sgroups ≡ (w.workers wk).sgroups
  pub connected : (w'.workers wk).sched_connected ≡ (w.workers wk).sched_connected
  pub cores :
      (id : ℤ)
      → (find_core id (w'.workers wk).cores ≡ none) ↔ (find_core id (w.workers wk).cores ≡ none)

-- The group is on no core any more; the others are where they were.
pub record Lost (wk p : ℕ) (w w' : World) : Type 0 where
  pub same : SameStore wk w w'
  pub counts : (id : ℤ) (q : ℕ) → on w' wk id q ≡ (if p == q then 0 else on w wk id q)

-- The group is on the one core only; the others are where they were.
pub record Put (wk p : ℕ) (id : ℤ) (w w' : World) : Type 0 where
  pub same : SameStore wk w w'
  pub exists : find_core id (w.workers wk).cores ≢ none
  pub counts :
      (j : ℤ) (q : ℕ)
      → on w' wk j q ≡ (if p == q then (if equal id j then 1 else 0) else on w wk j q)

module _ (wk p : ℕ) (gs : List ℕ) (w : World) (v : IsPlaced w wk gs) (h : 0 < count p gs) where
  -- A group is on no core but the one whose id it has.
  elsewhere : (id : ℤ) → equal (w.sgroups p).core_id id ≡ false → on w wk id p ≡ 0
  elsewhere id apart = ground (arith, v.placed id p, equal_iff (w.sgroups p).core_id id)

  nowhere : equal (w.sgroups p).core_id invalid_core_id ≡ true → (id : ℤ) → on w wk id p ≡ 0
  unfolding count
  nowhere off id = ground (
    arith,
    v.placed id p,
    v.valid,
    equal_iff (w.sgroups p).core_id invalid_core_id,
    equal_iff id invalid_core_id,
  )

  pub take_off_cases :
      ((take_off wk p w ≡ none) × (find_core (w.sgroups p).core_id (w.workers wk).cores ≡ none))
      ⊎ ((w₁ : World) × (take_off wk p w ≡ some w₁) × Lost wk p w w₁ × (w₁.tick ≡ w.tick))
  unfolding take_off
  take_off_cases =
      let prev = (w.sgroups p).core_id in
      let cs = (w.workers wk).cores in
      elim (Bool-cases (equal prev invalid_core_id)) [
        | inl off ↦ inr (
          w,
          ground (arith, off),
          record {
            same = record {
              groups = refl;
              members = refl;
              connected = refl;
              cores = λ id. (λ e. e, λ e. e);
            };
            counts = λ id q. ground (arith, nowhere off id);
          },
          refl,
        )
        | inr has ↦ elim (Option-cases (find_core prev cs)) [
          | inl missing ↦ inl (ground (arith, has, missing), missing)
          | inr (c, found) ↦ inr (
            on_core wk prev (remove_sgroup w.sgroups p) w,
            ground (arith, has, found),
            record {
              same = record {
                groups = refl;
                members = ground arith;
                connected = ground arith;
                cores = λ id. ground (
                  arith,
                  find_core-none prev id (remove_sgroup w.sgroups p) cs
                      (remove_sgroup-KeepsId w.sgroups p),
                );
              };
              counts = λ id q. ground (
                arith,
                elsewhere id,
                groups_on-remove w.sgroups gs v.named p h cs prev id q refl (v.inside id)
                    (v.once id p),
              );
            },
            refl,
          )
        ]
      ]

-- The call of addSGroup, after the group was taken off its core.
put_on_cases :
    (wk p : ℕ) (gs : List ℕ) (w : World)
    → IsPlaced w wk gs
    → 0 < count p gs
    → (id : ℤ) (w₂ : World) → Lost wk p w w₂
    → ((put_on wk p id w₂ ≡ (some core_not_found, w₂)) × (find_core id (w.workers wk).cores ≡ none))
      ⊎ ((w₃ : World) × (put_on wk p id w₂ ≡ (none, w₃)) × Put wk p id w w₃ × (w₃.tick ≡ w₂.tick))
unfolding put_on
put_on_cases wk p gs w v h id w₂ l =
    let cs = (w₂.workers wk).cores in
    let named : IsNamed w₂.sgroups gs = subst (λ sgs. IsNamed sgs gs) (sym l.same.groups) v.named in
    elim (Option-cases (find_core id cs)) [
      | inl missing ↦ inl (ground (arith, missing), (l.same.cores id).0 missing)
      | inr (c, found) ↦ inr (
        on_core wk id (add_sgroup w₂.sgroups p) w₂,
        ground (arith, found),
        record {
          same = record {
            groups = l.same.groups;
            members = ground (arith, l.same.members);
            connected = ground (arith, l.same.connected);
            cores = λ j. ground (
              arith,
              l.same.cores j,
              find_core-none id j (add_sgroup w₂.sgroups p) cs (add_sgroup-KeepsId w₂.sgroups p),
            );
          };
          exists = λ e. ground (arith, found, (l.same.cores id).1 e);
          counts = λ j q. ground (
            arith,
            l.counts j q,
            l.counts j p,
            groups_on-add w₂.sgroups gs named p h cs id j q
                (λ r in_list. ground (arith, l.counts j r, v.inside j r))
                (ground (arith, l.counts j p)) c found,
          );
        },
        refl,
      )
    ]

-- How Worker.attachSGroup ends.
pub data Attached (wk p : ℕ) (id : ℤ) (w : World) : Option Error × World → Type 0 where
  unknown :
      {r : Option Error × World}
      → find_core (w.sgroups p).core_id (w.workers wk).cores ≡ none
      → r ≡ (some core_not_found, w)
      → Attached wk p id w r
  lost :
      {r : Option Error × World} (e : Error) (w' : World)
      → Lost wk p w w'
      → r ≡ (some e, w')
      → Attached wk p id w r
  moved :
      {r : Option Error × World} (w' : World)
      → Put wk p id w w'
      → r ≡ (none, w')
      → Attached wk p id w r

request-Lost :
    (replies : ℕ → Reply) (wk p : ℕ) (w w₁ : World)
    → Lost wk p w w₁
    → Lost wk p w (request replies wk w₁).1
request-Lost replies wk p w w₁ l = elim (Bool-cases (w₁.workers wk).sched_connected) [
  | inl up ↦
      rw (up, request)
        (record {
          same = record {
            groups = l.same.groups;
            members = l.same.members;
            connected = l.same.connected;
            cores = l.same.cores;
          };
          counts = l.counts;
        })
  | inr down ↦ rw (down, request) l
]

module _ (env : Env) (wk p : ℕ) (gs : List ℕ) (w : World) (v : IsPlaced w wk gs)
    (h : 0 < count p gs) (id : ℤ) where
  pub worker_attach-Attached : Attached wk p id w (worker_attach env wk p id w)
  unfolding worker_attach
  worker_attach-Attached = elim (take_off_cases wk p gs w v h) [
    | inl (off, missing) ↦ unknown missing (ground (arith, off))
    | inr (w₁, off, l, _) ↦
        let w₂ = (request env.attach_chain wk w₁).1 in
        let l₂ = request-Lost env.attach_chain wk p w w₁ l in
        elim (Option-cases (reply_error (request env.attach_chain wk w₁).0)) [
          | inr (e, bad) ↦ lost e w₂ l₂ (rw (off, worker_attach) (rw bad))
          | inl good ↦ elim (put_on_cases wk p gs w v h id w₂ l₂) [
            | inl (run, _) ↦ lost core_not_found w₂ l₂ (rw (off, worker_attach) (rw good run))
            | inr (w₃, run, put, _) ↦ moved w₃ put (rw (off, worker_attach) (rw good run))
          ]
        ]
  ]
