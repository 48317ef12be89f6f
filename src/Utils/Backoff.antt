-- ===== src/Utils/Backoff.antt =====
-- utils/backoff.go: the exponential backoff. A Duration is a number of nanoseconds.
-- The float64 type, its operations and math.Pow are parameters, as is the number that
-- rand.Float64 draws. The attempt counter is a uint64 and wraps.
use low_latency_faa_s.Prelude.{
  ℕ, true, ◌+◌, ◌-◌, ◌%◌, ◌^◌, ◌<◌, ◌≡◌, Bool, arith, if◌then◌else◌, ◌⊎◌, List, [], ◌∷◌, length,
  refl, suc, ap, ◌∙◌,
}
use low_latency_faa_s.Prelude.Int.{ℤ, pos, ◌≤ℤ◌, ltb_ℤ}

pub record Floats : Type 1 where
  pub Float : Type 0
  pub of_int : ℤ → Float
  pub add : Float → Float → Float
  pub sub : Float → Float → Float
  pub mul : Float → Float → Float
  pub pow : Float → Float → Float
  pub lt : Float → Float → Bool
  pub le : Float → Float → Bool
  -- The conversion time.Duration(f), which truncates.
  pub to_int : Float → ℤ
  pub max_int64 : Float

pub record Backoff (F : Type 0) : Type 0 where
  pub attempt : ℕ
  pub factor : F
  pub jitter : Bool
  pub min : ℤ
  pub max : ℤ

abbrev pub or_default : ℤ → ℤ → ℤ
or_default d standard = if ltb_ℤ (pos 0) d then d else standard

-- The bounds that ForAttempt works with: 100 ms and 10 s where none is set.
abbrev pub min_of : {F : Type 0} → Backoff F → ℤ
min_of b = or_default b.min (pos 100_000_000)

abbrev pub max_of : {F : Type 0} → Backoff F → ℤ
max_of b = or_default b.max (pos 10_000_000_000)

abbrev pub u64 : ℕ
u64 = 2 ^ 64

module _ (fl : Floats) where
  open fl use {Float, of_int, add, sub, mul, pow, lt, le, to_int, max_int64}

  -- The duration in floats, before it is put within the bounds; `draw` is rand.Float64().
  pub raw_duration : Backoff Float → Float → Float → Float
  raw_duration b draw attempt =
      let factor = if le b.factor (of_int (pos 0)) then of_int (pos 2) else b.factor in
      let minf = of_int (min_of b) in
      let durf = mul minf (pow factor attempt) in
      if b.jitter then add (mul draw (sub durf minf)) minf else durf

  pub for_attempt : Backoff Float → Float → Float → ℤ
  unfolding raw_duration
  for_attempt b draw attempt =
      let min = min_of b in
      let max = max_of b in
      let durf = raw_duration b draw attempt in
      let dur = to_int durf in
      if ltb_ℤ min max
      then (if lt max_int64 durf
          then max
          else if ltb_ℤ dur min
          then min
          else if ltb_ℤ max dur
          then max
          else dur)
      else max

  -- The counter is incremented atomically; the attempt is the old count.
  pub duration : Backoff Float → Float → ℤ × Backoff Float
  unfolding for_attempt
  duration b draw =
      let n = (b.attempt + 1) % u64 in
      (for_attempt b draw (of_int (pos ((n + u64 - 1) % u64))), record b { attempt = n })

  pub reset : Backoff Float → Backoff Float
  reset b = record b { attempt = 0 }

  pub attempt_of : Backoff Float → Float
  attempt_of b = of_int (pos b.attempt)

  pub copy : Backoff Float → Backoff Float
  copy b = record b { attempt = 0 }

  -- A row of calls of Duration, one for each draw.
  pub durations : List Float → Backoff Float → List ℤ × Backoff Float
  durations [] b = ([], b)
  durations (draw ∷ draws) b =
      let (d, b') = duration b draw in let (ds, b'') = durations draws b' in (d ∷ ds, b'')

  -- The durations of the attempts k, k + 1, ..., in turn.
  pub planned : ℕ → List Float → Backoff Float → List ℤ
  planned k [] b = []
  planned k (draw ∷ draws) b = for_attempt b draw (of_int (pos k)) ∷ planned (k + 1) draws b

  -- Every duration is at most the upper bound, and at least the lower one unless the bounds are
  -- crossed. This holds whatever the float operations answer, overflow included.
  pub for_attempt_bounds :
      (b : Backoff Float) (draw attempt : Float)
      → (for_attempt b draw attempt ≤ℤ max_of b)
        × ((ltb_ℤ (max_of b) (min_of b) ≡ true) ⊎ (min_of b ≤ℤ for_attempt b draw attempt))
  unfolding for_attempt
  for_attempt_bounds b draw attempt = ground arith

  planned-counter :
      (k m : ℕ) (draws : List Float) (b : Backoff Float)
      → planned k draws (record b { attempt = m }) ≡ planned k draws b
  unfolding planned for_attempt
  planned-counter k m [] b = refl
  planned-counter k m (draw ∷ draws) b =
      ap (◌∷◌ (for_attempt b draw (of_int (pos k)))) (planned-counter (k + 1) m draws b)

  duration_lem :
      (b : Backoff Float) (draw : Float)
      → b.attempt + 1 < u64
      → duration b draw
        ≡ (for_attempt b draw (of_int (pos b.attempt)), record b { attempt = b.attempt + 1 })
  unfolding duration
  duration_lem b draw h =
      let kept : (b.attempt + 1) % u64 ≡ b.attempt + 1 = omega arith in
      let back : (b.attempt + 1 + u64 - 1) % u64 ≡ b.attempt = omega arith in rw (kept, back)

  durations_from :
      (draws : List Float) (b : Backoff Float)
      → b.attempt + length draws < u64
      → ((durations draws b).0 ≡ planned b.attempt draws b)
        × ((durations draws b).1 ≡ record b { attempt = b.attempt + length draws })
  unfolding durations planned
  durations_from [] b h =
      let same : b.attempt ≡ b.attempt + 0 = omega arith in
      (refl, ap (λ n. record b { attempt = n }) same)
  durations_from (draw ∷ draws) b h =
      let b' = record b { attempt = b.attempt + 1 } in
      let (plan, last) = durations_from draws b' (omega arith) in
      let total : b.attempt + 1 + length draws ≡ b.attempt + suc (length draws) = omega arith in
      rw (duration_lem b draw (omega arith), durations)
        (
          ap (◌∷◌ (for_attempt b draw (of_int (pos b.attempt))))
              (plan ∙ planned-counter (b.attempt + 1) (b.attempt + 1) draws b),
          last ∙ ap (λ n. record b { attempt = n }) total,
        )

  -- After Reset, the n-th call of Duration gives the duration of attempt n, counted from 0, as long
  -- as the 64-bit counter does not wrap, and only the counter changes.
  pub durations-reset :
      (draws : List Float) (b : Backoff Float)
      → length draws < u64
      → ((durations draws (reset b)).0 ≡ planned 0 draws b)
        × ((durations draws (reset b)).1 ≡ record b { attempt = length draws })
  unfolding reset
  durations-reset draws b h =
      let (plan, last) = durations_from draws (record b { attempt = 0 }) (omega arith) in
      let total : 0 + length draws ≡ length draws = omega arith in
      (plan ∙ planned-counter 0 0 draws b, last ∙ ap (λ n. record b { attempt = n }) total)
