-- ===== src/Controller/Groups/Pcie/Made.antt =====
-- controller/background.go and controller/worker.go: what the end of createFreeSGroup leaves, by whether it makes a
-- group.
use low_latency_faa_s.Prelude.{
  ℕ, ◌+◌, ◌≤◌, ◌<◌, ◌≡◌, refl, ap, ◌∙◌, false, List, [], ◌∷◌, ◌++◌, Option, none, some, arith, ◌==◌,
  length,
}
use low_latency_faa_s.Prelude.Int.{ℤ, pos}
use low_latency_faa_s.Prelude.Count.{count, count-append, count-snoc, count-first, count-later}
use low_latency_faa_s.Utils.MinHeap.Count.{count as ℤ_count, count-append as ℤ_count-append, tally}
use low_latency_faa_s.Utils.IndexPool.History.{give, Step-IsShared}
use low_latency_faa_s.Controller.State.{SGroup, World, Env, put_sgroup, update}
use low_latency_faa_s.Controller.Groups.{free_pcie, add_free, fresh_sgroup, settle_new, settle_free}
use low_latency_faa_s.Controller.Groups.Ports.{update-same}
use low_latency_faa_s.Controller.Groups.Rollback.{same_held}
use low_latency_faa_s.Controller.Groups.Pcie.{indices, count-indices}
use low_latency_faa_s.Controller.Groups.Pcie.Steady.{IsSteady}
use low_latency_faa_s.Controller.Groups.Pcie.Stock.{
  groups_of, IsStocked, indices_left, indices-fresh, size-free, held_first,
}

-- What the work of the worker `wk` on its own pools and groups leaves: the other workers, and the indices of the
-- groups that were there.
pub record IsElsewhere (wk : ℕ) (w w' : World) : Type 0 where
  pub workers : (b : ℕ) → (wk == b) ≡ false → w'.workers b ≡ w.workers b
  pub idx : (p : ℕ) → p < w.next_sgroup → (w'.sgroups p).pcie_idx ≡ (w.sgroups p).pcie_idx
  pub next : w.next_sgroup ≤ w'.next_sgroup

pub IsElsewhere-refl : (wk : ℕ) (w : World) → IsElsewhere wk w w
IsElsewhere-refl wk w = record { workers = λ b h. refl; idx = λ p h. refl; next = omega arith }

pub IsElsewhere-trans :
    (wk : ℕ) (u v w : World) → IsElsewhere wk u v → IsElsewhere wk v w → IsElsewhere wk u w
IsElsewhere-trans wk u v w a b = record {
  workers = λ c h. b.workers c h ∙ a.workers c h;
  idx = λ p h. b.idx p (omega (arith, h, a.next)) ∙ a.idx p h;
  next = omega (arith, a.next, b.next);
}

pub steady-IsElsewhere : (wk : ℕ) (w w' : World) → IsSteady wk w w' → IsElsewhere wk w w'
steady-IsElsewhere wk w w' s = record {
  workers = s.others;
  idx = λ p h. ap (λ f. (f p).pcie_idx) s.sgroups;
  next = omega (arith, s.next);
}

-- A thread has ended that held an index.
pub record IsSettled (wk : ℕ) (held : List ℤ) (w w' : World) : Type 0 where
  pub stocked : IsStocked wk held w'
  pub left : indices_left wk w ≤ indices_left wk w'
  pub elsewhere : IsElsewhere wk w w'

pub free_pcie-IsSettled :
    (wk : ℕ) (held : List ℤ) (idx : ℤ) (w : World)
    → IsStocked wk (idx ∷ held) w
    → IsSettled wk held w (free_pcie wk idx w)
unfolding free_pcie
free_pcie-IsSettled wk held idx w v = record {
  stocked = record {
    shared = rw (update-same w.workers wk _) (
        Step-IsShared (pos 0) (length (w.workers wk).pcie)
          (give (indices w.sgroups (groups_of wk w)) idx held refl) v.shared);
    old = rw (update-same w.workers wk _) v.old;
  };
  left = rw (update-same w.workers wk _) (size-free (w.workers wk).pcie_pool idx v.shared.valid);
  elsewhere = record { workers = λ b h. rw h refl; idx = λ p h. refl; next = omega arith };
}

-- The groups of the worker and a new one at the address `p`, which goes to the end of the free ones.
count-made :
    (f : ℕ → SGroup) (p : ℕ) (sg : SGroup) (fs ms : List ℕ) (held : List ℤ)
    → ((q : ℕ) → 0 < count q (fs ++ ms) → q < p)
    → (x : ℤ)
    → ℤ_count x (indices (update f p sg) ((fs ++ p ∷ []) ++ ms) ++ held)
      ≡ ℤ_count x (sg.pcie_idx ∷ (indices f (fs ++ ms) ++ held))
unfolding ℤ_count
count-made f p sg fs ms held h x =
    let g = update f p sg in
    let fs_same : indices g fs ≡ indices f fs =
      indices-fresh f p sg fs (λ q l. h q (omega (arith, l, count-append q fs ms))) in
    let ms_same : indices g ms ≡ indices f ms =
      indices-fresh f p sg ms (λ q l. h q (omega (arith, l, count-append q fs ms))) in
    let new : (g p).pcie_idx ≡ sg.pcie_idx = ap (λ s. s.pcie_idx) (update-same f p sg) in
    omega (
      arith,
      ℤ_count-append x (indices g ((fs ++ p ∷ []) ++ ms)) held,
      ℤ_count-append x (indices f (fs ++ ms)) held,
      count-indices g x (fs ++ p ∷ []) ms,
      count-indices g x fs (p ∷ []),
      count-indices f x fs ms,
      ap (ℤ_count x) fs_same,
      ap (ℤ_count x) ms_same,
      ap (λ i. tally i x) new,
    )

old-made :
    (p : ℕ) (fs ms : List ℕ)
    → ((q : ℕ) → 0 < count q (fs ++ ms) → q < p)
    → (q : ℕ) → 0 < count q ((fs ++ p ∷ []) ++ ms)
    → q < p + 1
old-made p fs ms h q l =
    ground
      (arith, l, h q, count-append q (fs ++ p ∷ []) ms, count-append q fs ms, count-snoc q p fs)

pub add_free-IsSettled :
    (env : Env) (wk : ℕ) (held : List ℤ) (idx : ℤ) (i : ℕ) (w : World)
    → IsStocked wk (idx ∷ held) w
    → let p = w.next_sgroup in
      IsSettled wk held w (
        add_free env wk p
          (put_sgroup p (fresh_sgroup env wk idx i) (record w { next_sgroup = p + 1 })))
add_free-IsSettled env wk held idx i w v =
    let p = w.next_sgroup in
    record {
      stocked = record {
        shared = rw (update-same w.workers wk _) (
            same_held (pos 0) (length (w.workers wk).pcie) _ _ _
              (count-made w.sgroups p (fresh_sgroup env wk idx i) (w.workers wk).free_sgroups
                (w.workers wk).sgroups held v.old)
              (held_first wk idx held w v));
        old =
            rw (update-same w.workers wk _)
              (old-made p (w.workers wk).free_sgroups (w.workers wk).sgroups v.old);
      };
      left = rw (update-same w.workers wk _) (omega arith);
      elsewhere = record {
        workers = λ b h. rw h refl;
        idx = λ q h. let older : (w.next_sgroup == q) ≡ false = ground (arith, h) in rw older refl;
        next = omega arith;
      };
    }

pub settle_free-IsSettled :
    (env : Env) (wk : ℕ) (held : List ℤ) (idx : ℤ) (i : Option ℕ) (w : World)
    → IsStocked wk (idx ∷ held) w
    → IsSettled wk held w (settle_free env wk idx (settle_new env wk idx (i, w))).1
unfolding settle_free settle_new
settle_free-IsSettled env wk held idx none w v = free_pcie-IsSettled wk held idx w v
settle_free-IsSettled env wk held idx (some i) w v = add_free-IsSettled env wk held idx i w v

indices-old :
    (w w' : World) (wk : ℕ) (ps : List ℕ)
    → IsElsewhere wk w w'
    → ((p : ℕ) → 0 < count p ps → p < w.next_sgroup)
    → indices w'.sgroups ps ≡ indices w.sgroups ps
indices-old w w' wk [] e h = refl
indices-old w w' wk (p ∷ ps) e h =
    rw
      (
        e.idx p (h p (count-first p ps)),
        indices-old w w' wk ps e (λ q l. h q (count-later p q ps l)),
      )
      refl

pub elsewhere-IsStocked :
    (wk b : ℕ) (held : List ℤ) (w w' : World)
    → IsElsewhere wk w w'
    → (wk == b) ≡ false
    → IsStocked b held w
    → IsStocked b held w'
elsewhere-IsStocked wk b held w w' e h v = record {
  shared = rw (e.workers b h, indices-old w w' wk (groups_of b w) e v.old) v.shared;
  old = rw (e.workers b h) (λ p l. omega (arith, v.old p l, e.next));
}
