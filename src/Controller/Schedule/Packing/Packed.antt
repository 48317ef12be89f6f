-- ===== src/Controller/Schedule/Packing/Packed.antt =====
-- controller/schedule.go: which groups scheduleOnce puts on which cores.
use low_latency_faa_s.Prelude.{
  ℕ, ◌+◌, ◌≤◌, ◌<◌, ◌≡◌, refl, ap, inl, inr, Bool, not, true, false, List, [], ◌∷◌, none, some, ltb,
  arith, ◌==◌, length, Bool-cases, ◌⊎◌,
}
use low_latency_faa_s.Prelude.Int.{pos}
use low_latency_faa_s.Prelude.Count.{count}
use low_latency_faa_s.Controller.State.{SGroup, World, Env, put_worker}
use low_latency_faa_s.Controller.Attach.{attach_sgroup}
use low_latency_faa_s.Controller.Traffic.{get_pkt_load}
use low_latency_faa_s.Controller.Schedule.{park}
use low_latency_faa_s.Controller.Schedule.Packing.{slower, pack, schedule_once}
use low_latency_faa_s.Controller.Schedule.Packing.Loads.{
  Move, groups_of, perform, placed_on, load_on, AreMeant, IsPacking, AreTaken, parked_first,
  fits_first, moves_first, taken_first, skipped_first,
}
use low_latency_faa_s.Controller.Schedule.Packing.Like.{
  park-IsLike, attach_sgroup-IsLike, like_IsPacking, like_AreTaken,
}

-- The moves of a run of the loop.
record IsPacked (env : Env) (n c l : ℕ) (ps : List ℕ) (w w' : World) : Type 0 where
  moves : List Move
  run : w' ≡ perform env moves w
  packing : IsPacking w.sgroups n c l moves
  taken : AreTaken w.sgroups n c ps moves

none_moved : (sgs : ℕ → SGroup) (n c l : ℕ) → IsPacking sgs n c l []
unfolding placed_on load_on
none_moved sgs n c l = record {
  meant = tt;
  behind = λ j k. refl;
  here = inl refl;
  ahead = λ j k. inl (omega arith);
  within = λ j k m. refl;
}

module _ (env : Env) (n : ℕ) where
  parked_IsPacked :
      (c l p : ℕ) (ps : List ℕ) (w w' : World)
      → (w.sgroups p).is_ready ≡ true
      → (w.sgroups p).is_active ≡ false
      → IsPacked env n c l ps (park env p w) w'
      → IsPacked env n c l (p ∷ ps) w w'
  unfolding perform
  parked_IsPacked c l p ps w w' up idle r =
      let like = park-IsLike env p w in
      record {
        moves = record { group = p; core = none } ∷ r.moves;
        run = r.run;
        packing =
            parked_first w.sgroups n c l p r.moves up idle
              (like_IsPacking _ _ n c l r.moves like r.packing);
        taken =
            taken_first w.sgroups n c c p none ps r.moves inr
              (like_AreTaken _ _ n c ps r.moves like r.taken);
      }

  fits_IsPacked :
      (c l p : ℕ) (ps : List ℕ) (w w' : World)
      → (w.sgroups p).is_ready ≡ true
      → (w.sgroups p).is_active ≡ true
      → l + get_pkt_load (w.sgroups p) < 80
      → IsPacked env n c (l + get_pkt_load (w.sgroups p)) ps (attach_sgroup env p (pos c) w).1 w'
      → IsPacked env n c l (p ∷ ps) w w'
  unfolding perform
  fits_IsPacked c l p ps w w' up on h r =
      let like = attach_sgroup-IsLike env p (pos c) w in
      record {
        moves = record { group = p; core = some c } ∷ r.moves;
        run = r.run;
        packing =
            fits_first w.sgroups n c l p r.moves up on h
              (like_IsPacking _ _ n c (l + get_pkt_load (w.sgroups p)) r.moves like r.packing);
        taken =
            taken_first w.sgroups n c c p (some c) ps r.moves inr
              (like_AreTaken _ _ n c ps r.moves like r.taken);
      }

  moves_IsPacked :
      (c l p : ℕ) (ps : List ℕ) (w w' : World)
      → (w.sgroups p).is_ready ≡ true
      → (w.sgroups p).is_active ≡ true
      → c < n
      → IsPacked env n
          (c + 1)
          (get_pkt_load (w.sgroups p))
          ps
          (attach_sgroup env p (pos (c + 1)) w).1
          w'
      → IsPacked env n c l (p ∷ ps) w w'
  unfolding perform placed_on
  moves_IsPacked c l p ps w w' up on h r =
      let like = attach_sgroup-IsLike env p (pos (c + 1)) w in
      record {
        moves = record { group = p; core = some (c + 1) } ∷ r.moves;
        run = r.run;
        packing =
            moves_first w.sgroups n c l p r.moves up on h
              (like_IsPacking _ _ n (c + 1) (get_pkt_load (w.sgroups p)) r.moves like r.packing);
        taken =
            taken_first w.sgroups n c (c + 1) p (some (c + 1)) ps r.moves
              (λ k. inl (ground (arith, h, k)))
              (like_AreTaken _ _ n (c + 1) ps r.moves like r.taken);
      }

  pack-IsPacked :
      (c l : ℕ) (ps : List ℕ) (w : World) → IsPacked env n c l ps w (pack env n c l ps w)
  unfolding pack perform count
  pack-IsPacked c l [] w = record {
    moves = [];
    run = refl;
    packing = none_moved w.sgroups n c l;
    taken = inl (λ p k r. absurd (omega (arith, k)));
  }
  pack-IsPacked c l (p ∷ ps) w =
      let sg = w.sgroups p in
      elim (Bool-cases (not sg.is_ready)) [
        | inl unready ↦
            let r = pack-IsPacked c l ps w in
            rw unready (record {
              moves = r.moves;
              run = r.run;
              packing = r.packing;
              taken = skipped_first w.sgroups n c p ps r.moves (ground (arith, unready)) r.taken;
            })
        | inr ready ↦ elim (Bool-cases (not sg.is_active)) [
          | inl idle ↦
              rw (ready, idle)
                (parked_IsPacked c l p ps w _ (ground (arith, ready)) (ground (arith, idle))
                  (pack-IsPacked c l ps (park env p w)))
          | inr active ↦ elim (Bool-cases (ltb (l + get_pkt_load sg) 80)) [
            | inl fits ↦
                rw (ready, active, fits)
                  (fits_IsPacked c l p ps w _ (ground (arith, ready)) (ground (arith, active))
                    (ground (arith, fits)) (pack-IsPacked c (l + get_pkt_load sg) ps _))
            | inr full ↦ elim (Bool-cases (ltb c n)) [
              | inl left ↦
                  rw (ready, active, full, left)
                    (moves_IsPacked c l p ps w _ (ground (arith, ready)) (ground (arith, active))
                      (ground (arith, left)) (pack-IsPacked (c + 1) (get_pkt_load sg) ps _))
              | inr out ↦
                  rw (ready, active, full, out)
                    (record {
                      moves = [];
                      run = refl;
                      packing = none_moved w.sgroups n c l;
                      taken = inr (inr (ground (arith, out)));
                    })
            ]
          ]
        ]
      ]

-- A round on `n` cores, over the sorted groups `ps` from the world `w` on.
pub record IsScheduled (env : Env) (n : ℕ) (ps : List ℕ) (w w' : World) : Type 0 where
  pub moves : List Move
  pub run : w' ≡ perform env moves w
  pub meant : AreMeant w.sgroups moves
  pub loads : (j : ℕ) → (placed_on moves j ≤ 1) ⊎ (load_on w.sgroups moves j < 80)
  pub cores : (j : ℕ) → 0 < placed_on moves j → (0 < j) × (j ≤ n)
  pub taken :
      ((p : ℕ) → 0 < count p ps → (w.sgroups p).is_ready ≡ true → 0 < count p (groups_of moves))
      ⊎ ((0 < placed_on moves n) ⊎ (n ≡ 0))

packed-IsScheduled :
    (env : Env) (n : ℕ) (ps : List ℕ) (w w' : World)
    → IsPacked env n 0 80 ps w w'
    → IsScheduled env n ps w w'
packed-IsScheduled env n ps w w' r =
    let first : placed_on r.moves 0 ≡ 0 = ground (arith, r.packing.here) in
    record {
      moves = r.moves;
      run = r.run;
      meant = r.packing.meant;
      loads = λ j. elim (Bool-cases (j == 0)) [
        | inl zeroth ↦
            let e : 0 ≡ j = ground (arith, zeroth) in
            inl (omega (arith, first, ap (placed_on r.moves) e))
        | inr later ↦ r.packing.ahead j (ground (arith, later))
      ];
      cores = λ j h. (
        elim (Bool-cases (j == 0)) [
          | inl zeroth ↦
              let e : 0 ≡ j = ground (arith, zeroth) in
              absurd (omega (arith, h, first, ap (placed_on r.moves) e))
          | inr later ↦ ground (arith, later)
        ],
        elim (Bool-cases (ltb n j)) [
          | inl over ↦
              absurd (omega (arith, h, r.packing.within j (omega arith) (ground (arith, over))))
          | inr under ↦ ground (arith, under)
        ],
      );
      taken = elim r.taken [
        | inl all ↦ inl all
        | inr (inl put) ↦ inr (inl put)
        | inr (inr out) ↦ inr (inr (omega (arith, out)))
      ];
    }

-- A round of scheduleOnce is a list of moves of groups, one after the other, whatever the sort gives and whatever
-- CooperativeSched answers: only groups that are ready are moved, to a core if they are active and off the scheduler
-- if not; the cores are those from 1 to the number of the worker's cores; each core gets one group at most, or groups
-- whose packet loads, as they were at the start, sum to less than 80; and every ready group of the sorted list is
-- moved, unless the last of these cores gets a group or the worker has no cores.
pub schedule_once-IsScheduled :
    (env : Env) (sort : (ℕ → ℕ → Bool) → List ℕ → List ℕ) (wk : ℕ) (w : World)
    → let a = w.workers wk in
      let sorted = sort (slower w.sgroups) a.sgroups in
      IsScheduled env
        (length a.cores)
        sorted
        (put_worker wk (record a { sgroups = sorted }) w)
        (schedule_once env sort wk w)
unfolding schedule_once
schedule_once-IsScheduled env sort wk w =
    packed-IsScheduled env _ _ _ _ (pack-IsPacked env _ 0 80 _ _)
