-- ===== src/Controller/Schedule/Packing/Loads.antt =====
-- controller/schedule.go: the loads that scheduleOnce packs on the cores of a worker.
use low_latency_faa_s.Prelude.{
  ℕ, ◌+◌, ◌≤◌, ◌<◌, ◌≡◌, refl, ap, inl, inr, Bool, true, false, List, [], ◌∷◌, Option, none, some,
  map, arith, ◌==◌, if◌then◌else◌, Bool-cases, ◌⊎◌,
}
use low_latency_faa_s.Prelude.Int.{pos}
use low_latency_faa_s.Prelude.Count.{count}
use low_latency_faa_s.Controller.State.{SGroup, World, Env}
use low_latency_faa_s.Controller.Attach.{attach_sgroup}
use low_latency_faa_s.Controller.Traffic.{get_pkt_load}
use low_latency_faa_s.Controller.Schedule.{park}

-- What is to be done with a group: attach it to a core, or, with none, take it off the scheduler.
pub record Move : Type 0 where
  pub group : ℕ
  pub core : Option ℕ

-- The moves of a list, one after the other; errors are dropped.
unfoldable pub perform : Env → List Move → World → World
perform env [] w = w
perform env (m ∷ ms) w = elim m.core [
  | none ↦ perform env ms (park env m.group w)
  | some id ↦ perform env ms (attach_sgroup env m.group (pos id) w).1
]

abbrev pub on_it : Move → ℕ → Bool
on_it m j = elim m.core [ none ↦ false | some id ↦ id == j ]

-- How many groups the moves put on the core `j`, and the sum of their loads.
unfoldable pub placed_on : List Move → ℕ → ℕ
placed_on [] j = 0
placed_on (m ∷ ms) j = (if on_it m j then 1 else 0) + placed_on ms j

unfoldable pub load_on : (ℕ → SGroup) → List Move → ℕ → ℕ
load_on sgs [] j = 0
load_on sgs (m ∷ ms) j = (if on_it m j then get_pkt_load (sgs m.group) else 0) + load_on sgs ms j

abbrev pub groups_of : List Move → List ℕ
groups_of ms = map (λ (m : Move). m.group) ms

-- A group that is put on a core is ready and active; one that is taken off is ready and not active.
abbrev pub IsMeant : (ℕ → SGroup) → Move → Type 0
IsMeant sgs m =
    ((sgs m.group).is_ready ≡ true)
    × ((sgs m.group).is_active ≡ elim m.core [ none ↦ false | some _ ↦ true ])

abbrev pub AreMeant : (ℕ → SGroup) → List Move → Type 0
AreMeant sgs [] = Unit {0}
AreMeant sgs (m ∷ ms) = IsMeant sgs m × AreMeant sgs ms

-- The moves of the loop from the core `c` with the load `l` on: up to the core `n`, a core gets more groups only as
-- long as its load is below 80, and a core after `c` with a greater load has one group.
pub record IsPacking (sgs : ℕ → SGroup) (n c l : ℕ) (ms : List Move) : Type 0 where
  pub meant : AreMeant sgs ms
  pub behind : (j : ℕ) → j < c → placed_on ms j ≡ 0
  pub here : (placed_on ms c ≡ 0) ⊎ (l + load_on sgs ms c < 80)
  pub ahead : (j : ℕ) → c < j → (placed_on ms j ≤ 1) ⊎ (load_on sgs ms j < 80)
  pub within : (j : ℕ) → c ≤ n → n < j → placed_on ms j ≡ 0

-- Each of the groups that is ready is moved, or the moves put a group on the core `n`, or `n` is not after `c`.
abbrev pub AreTaken : (ℕ → SGroup) → ℕ → ℕ → List ℕ → List Move → Type 0
AreTaken sgs n c ps ms =
    ((p : ℕ) → 0 < count p ps → (sgs p).is_ready ≡ true → 0 < count p (groups_of ms))
    ⊎ ((0 < placed_on ms n) ⊎ (n ≤ c))

pub parked_first :
    (sgs : ℕ → SGroup) (n c l p : ℕ) (ms : List Move)
    → (sgs p).is_ready ≡ true
    → (sgs p).is_active ≡ false
    → IsPacking sgs n c l ms
    → IsPacking sgs n c l (record { group = p; core = none } ∷ ms)
unfolding placed_on load_on
parked_first sgs n c l p ms r a v = record {
  meant = ((r, a), v.meant);
  behind = λ j k. ground (arith, v.behind j k);
  here = ground (arith, v.here);
  ahead = λ j k. ground (arith, v.ahead j k);
  within = λ j k m. ground (arith, v.within j k m);
}

-- Where no group is put, there is no load.
empty_load : (sgs : ℕ → SGroup) (ms : List Move) (j : ℕ) → placed_on ms j ≡ 0 → load_on sgs ms j ≡ 0
unfolding placed_on load_on
empty_load sgs [] j h = refl
empty_load sgs (m ∷ ms) j h = elim (Bool-cases (on_it m j)) [
  | inl there ↦ absurd (ground (arith, h, there))
  | inr away ↦ ground (arith, away, empty_load sgs ms j (ground (arith, h, away)))
]

pub fits_first :
    (sgs : ℕ → SGroup) (n c l p : ℕ) (ms : List Move)
    → (sgs p).is_ready ≡ true
    → (sgs p).is_active ≡ true
    → l + get_pkt_load (sgs p) < 80
    → IsPacking sgs n c (l + get_pkt_load (sgs p)) ms
    → IsPacking sgs n c l (record { group = p; core = some c } ∷ ms)
unfolding placed_on load_on
fits_first sgs n c l p ms r a h v = record {
  meant = ((r, a), v.meant);
  behind = λ j k. ground (arith, v.behind j k, k);
  here = ground (arith, v.here, h, empty_load sgs ms c);
  ahead = λ j k. ground (arith, v.ahead j k, k);
  within = λ j k m. ground (arith, v.within j k m, k, m);
}

pub moves_first :
    (sgs : ℕ → SGroup) (n c l p : ℕ) (ms : List Move)
    → (sgs p).is_ready ≡ true
    → (sgs p).is_active ≡ true
    → c < n
    → IsPacking sgs n (c + 1) (get_pkt_load (sgs p)) ms
    → IsPacking sgs n c l (record { group = p; core = some (c + 1) } ∷ ms)
unfolding placed_on load_on
moves_first sgs n c l p ms r a h v = record {
  meant = ((r, a), v.meant);
  behind = λ j k. ground (arith, v.behind j, k);
  here = inl (ground (arith, v.behind c));
  ahead = λ j k. elim (Bool-cases (c + 1 == j)) [
    | inl same ↦
        let e : c + 1 ≡ j = ground (arith, same) in
        ground (arith, same, v.here, ap (placed_on ms) e, ap (load_on sgs ms) e)
    | inr away ↦ ground (arith, away, k, v.ahead j)
  ];
  within = λ j k m. ground (arith, v.within j, h, m);
}

pub taken_first :
    (sgs : ℕ → SGroup) (n c d p : ℕ) (o : Option ℕ) (ps : List ℕ) (ms : List Move)
    → (n ≤ d → (0 < placed_on (record { group = p; core = o } ∷ ms) n) ⊎ (n ≤ c))
    → AreTaken sgs n d ps ms
    → AreTaken sgs n c (p ∷ ps) (record { group = p; core = o } ∷ ms)
unfolding placed_on count
taken_first sgs n c d p o ps ms h (inl all) = inl (λ q k r. elim (Bool-cases (p == q)) [
  | inl same ↦ ground (arith, same)
  | inr away ↦ ground (arith, away, all q (ground (arith, away, k)) r)
])
taken_first sgs n c d p o ps ms h (inr (inl put)) = inr (inl (omega (arith, put)))
taken_first sgs n c d p o ps ms h (inr (inr out)) = inr (h out)

pub skipped_first :
    (sgs : ℕ → SGroup) (n c p : ℕ) (ps : List ℕ) (ms : List Move)
    → (sgs p).is_ready ≡ false
    → AreTaken sgs n c ps ms
    → AreTaken sgs n c (p ∷ ps) ms
unfolding count
skipped_first sgs n c p ps ms u (inl all) = inl (λ q k r. elim (Bool-cases (p == q)) [
  | inl same ↦
      let e : p ≡ q = ground (arith, same) in
      absurd (ground (arith, u, r, ap (λ x. (sgs x).is_ready) e))
  | inr away ↦ all q (ground (arith, away, k)) r
])
skipped_first sgs n c p ps ms u (inr full) = inr full
