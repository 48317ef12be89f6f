-- ===== src/Controller/Logger/Stop.antt =====
-- controller/sys_measure.go: how StopFaaSLogger stops RunFaaSLogger, by the field `state`. A turn of a
-- thread is what it does up to its next release of the lock; the two threads take turns in any order.
use low_latency_faa_s.Prelude.{
  ℕ, suc, ◌+◌, ◌≤◌, ◌<◌, ◌≡◌, refl, ap, ◌∙◌, List, [], ◌∷◌, ◌++◌, arith, ◌==◌, if◌then◌else◌,
}

-- RunFaaSLogger: before its first lock, within a round, after the sleep, and after the loop.
pub data Runner : Type 0 where
  not_started measuring checking ended : Runner

-- StopFaaSLogger: before its first lock, in the loop, and after it.
pub data Stopper : Type 0 where
  not_called waiting returned : Stopper

pub record Handshake : Type 0 where
  pub state : ℕ
  pub runner : Runner
  pub stopper : Stopper

abbrev pub new_handshake : Handshake
new_handshake = record { state = 0; runner = not_started; stopper = not_called }

unfoldable pub run_turn : Handshake → Handshake
run_turn s = elim s.runner [
  | not_started ↦ record s { state = 0; runner = measuring }
  | measuring ↦ record s { runner = checking }
  | checking ↦
      if s.state == 1
      then record s { state = 2; runner = ended }
      else record s { runner = measuring }
  | ended ↦ s
]

unfoldable pub stop_turn : Handshake → Handshake
stop_turn s = elim s.stopper [
  | not_called ↦ record s { state = 1; stopper = waiting }
  | waiting ↦ if s.state == 2 then record s { stopper = returned } else s
  | returned ↦ s
]

-- Whose turn it is.
pub data Thread : Type 0 where
  logger stop : Thread

abbrev pub turn_of : Thread → Handshake → Handshake
turn_of logger s = run_turn s
turn_of stop s = stop_turn s

unfoldable pub run_turns : List Thread → Handshake → Handshake
run_turns [] s = s
run_turns (t ∷ ts) s = run_turns ts (turn_of t s)

unfoldable pub turns_of_logger : List Thread → ℕ
turns_of_logger [] = 0
turns_of_logger (logger ∷ ts) = suc (turns_of_logger ts)
turns_of_logger (stop ∷ ts) = turns_of_logger ts

run_turns-append :
    (xs ys : List Thread) (s : Handshake) → run_turns (xs ++ ys) s ≡ run_turns ys (run_turns xs s)
unfolding run_turns
run_turns-append [] ys s = refl
run_turns-append (x ∷ xs) ys s = run_turns-append xs ys (turn_of x s)

unfoldable pub turns_of_stop : List Thread → ℕ
turns_of_stop [] = 0
turns_of_stop (stop ∷ ts) = suc (turns_of_stop ts)
turns_of_stop (logger ∷ ts) = turns_of_stop ts

abbrev at_state : ℕ → Runner → Stopper → Handshake
at_state n r t = record { state = n; runner = r; stopper = t }

-- The states after the stop has been asked for, with the number of turns that the logger still needs.
data IsAsked : ℕ → Handshake → Type 0 where
  far : IsAsked 2 (at_state 1 measuring waiting)
  near : IsAsked 1 (at_state 1 checking waiting)
  over : IsAsked 0 (at_state 2 ended waiting)
  done : IsAsked 0 (at_state 2 ended returned)

-- The states after the logger has started.
data IsStarted : Handshake → Type 0 where
  calm_measuring : IsStarted (at_state 0 measuring not_called)
  calm_checking : IsStarted (at_state 0 checking not_called)
  asked : {n : ℕ} {s : Handshake} → IsAsked n s → IsStarted s

-- A turn of the logger brings the end nearer, and one of the stop does not take it away.
data Nearer (n : ℕ) (s : Handshake) : Type 0 where
  nearer : {m : ℕ} → m ≤ n → IsAsked m s → Nearer n s

logger-Nearer : (n : ℕ) (s : Handshake) → IsAsked n s → (k : ℕ) → n ≤ suc k → Nearer k (run_turn s)
unfolding run_turn
logger-Nearer n s far k h = nearer (omega (arith, h)) near
logger-Nearer n s near k h = nearer (omega arith) over
logger-Nearer n s over k h = nearer (omega arith) over
logger-Nearer n s done k h = nearer (omega arith) done

stop-Nearer : (n : ℕ) (s : Handshake) → IsAsked n s → (k : ℕ) → n ≤ k → Nearer k (stop_turn s)
unfolding stop_turn
stop-Nearer n s far k h = nearer h far
stop-Nearer n s near k h = nearer h near
stop-Nearer n s over k h = nearer h done
stop-Nearer n s done k h = nearer h done

turns-Nearer :
    (ts : List Thread) (n k : ℕ) (s : Handshake)
    → IsAsked n s
    → n ≤ k + turns_of_logger ts
    → Nearer k (run_turns ts s)
unfolding run_turns turns_of_logger
turns-Nearer [] n k s a h = nearer (omega (arith, h)) a
turns-Nearer (logger ∷ ts) n k s a h =
    elim (logger-Nearer n s a (k + turns_of_logger ts) (omega (arith, h))) [
      | nearer {m = m} l b ↦ turns-Nearer ts m k (run_turn s) b l
    ]
turns-Nearer (stop ∷ ts) n k s a h = elim (stop-Nearer n s a (k + turns_of_logger ts) h) [
  | nearer {m = m} l b ↦ turns-Nearer ts m k (stop_turn s) b l
]

-- Once the logger has ended, the next turn of the stop returns.
done-stays : (ts : List Thread) → (run_turns ts (at_state 2 ended returned)).stopper ≡ returned
unfolding run_turns run_turn stop_turn
done-stays [] = refl
done-stays (logger ∷ ts) = done-stays ts
done-stays (stop ∷ ts) = done-stays ts

over-returns :
    (ts : List Thread)
    → 0 < turns_of_stop ts
    → (run_turns ts (at_state 2 ended waiting)).stopper ≡ returned
unfolding run_turns run_turn stop_turn turns_of_stop
over-returns [] h = absurd (omega arith)
over-returns (logger ∷ ts) h = over-returns ts h
over-returns (stop ∷ ts) h = done-stays ts

asked-returns :
    (ts : List Thread) (n : ℕ) (s : Handshake)
    → IsAsked n s
    → n ≤ 0
    → 0 < turns_of_stop ts
    → (run_turns ts s).stopper ≡ returned
asked-returns ts n s far l h = absurd (omega arith)
asked-returns ts n s near l h = absurd (omega arith)
asked-returns ts n s over l h = over-returns ts h
asked-returns ts n s done l h = done-stays ts

turn-IsStarted : (t : Thread) (s : Handshake) → IsStarted s → IsStarted (turn_of t s)
unfolding run_turn stop_turn
turn-IsStarted logger s calm_measuring = calm_checking
turn-IsStarted logger s calm_checking = calm_measuring
turn-IsStarted stop s calm_measuring = asked far
turn-IsStarted stop s calm_checking = asked near
turn-IsStarted logger s (asked far) = asked near
turn-IsStarted logger s (asked near) = asked over
turn-IsStarted logger s (asked over) = asked over
turn-IsStarted logger s (asked done) = asked done
turn-IsStarted stop s (asked far) = asked far
turn-IsStarted stop s (asked near) = asked near
turn-IsStarted stop s (asked over) = asked done
turn-IsStarted stop s (asked done) = asked done

turns-IsStarted : (ts : List Thread) (s : Handshake) → IsStarted s → IsStarted (run_turns ts s)
unfolding run_turns
turns-IsStarted [] s v = v
turns-IsStarted (t ∷ ts) s v = turns-IsStarted ts (turn_of t s) (turn-IsStarted t s v)

stop-Asked : (s : Handshake) → IsStarted s → Nearer 2 (stop_turn s)
unfolding stop_turn
stop-Asked s calm_measuring = nearer (omega arith) far
stop-Asked s calm_checking = nearer (omega arith) near
stop-Asked s (asked far) = nearer (omega arith) far
stop-Asked s (asked near) = nearer (omega arith) near
stop-Asked s (asked over) = nearer (omega arith) done
stop-Asked s (asked done) = nearer (omega arith) done

-- Where the logger takes the first turn, and after a turn of the stop it takes two more: the stop has
-- returned after its next turn, whatever other turns the two threads take between.
pub stop_returns :
    (before between after : List Thread)
    → 2 ≤ turns_of_logger between
    → 0 < turns_of_stop after
    → (run_turns (before ++ stop ∷ (between ++ after)) (run_turn new_handshake)).stopper ≡ returned
unfolding run_turns run_turn
stop_returns before between after h k =
    let s = run_turns before (run_turn new_handshake) in
    elim (stop-Asked s (turns-IsStarted before (run_turn new_handshake) calm_measuring)) [
      | nearer {m = m} l a ↦ elim (turns-Nearer between m 0 (stop_turn s) a (omega (arith, h, l))) [
        | nearer {m = m'} l' b ↦
            ap (λ s. s.stopper)
              (run_turns-append before (stop ∷ (between ++ after)) (run_turn new_handshake))
            ∙ ap (λ s. s.stopper) (run_turns-append between after (stop_turn s))
            ∙ asked-returns after m' _ b l' k
      ]
    ]

-- The states where the request is lost.
data IsLost : Handshake → Type 0 where
  early : IsLost (at_state 1 not_started waiting)
  lost_measuring : IsLost (at_state 0 measuring waiting)
  lost_checking : IsLost (at_state 0 checking waiting)

lost-waits : (ts : List Thread) (s : Handshake) → IsLost s → (run_turns ts s).stopper ≡ waiting
unfolding run_turns run_turn stop_turn
lost-waits [] s early = refl
lost-waits [] s lost_measuring = refl
lost-waits [] s lost_checking = refl
lost-waits (logger ∷ ts) s early = lost-waits ts _ lost_measuring
lost-waits (logger ∷ ts) s lost_measuring = lost-waits ts _ lost_checking
lost-waits (logger ∷ ts) s lost_checking = lost-waits ts _ lost_measuring
lost-waits (stop ∷ ts) s early = lost-waits ts _ early
lost-waits (stop ∷ ts) s lost_measuring = lost-waits ts _ lost_measuring
lost-waits (stop ∷ ts) s lost_checking = lost-waits ts _ lost_checking

-- Where the stop takes the first turn, it never returns, whatever turns the two threads take.
pub stop_hangs : (ts : List Thread) → (run_turns (stop ∷ ts) new_handshake).stopper ≡ waiting
unfolding run_turns stop_turn
stop_hangs ts = lost-waits ts _ early
