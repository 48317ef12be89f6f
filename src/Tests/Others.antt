-- ===== src/Tests/Others.antt =====
-- Concrete runs: controller/sys_measure.go, controller/pool.go, controller/controller.go, cli/executor.go and
-- kubectl/query.go.
use text.Mathlib.TextEquality.{eq_iff}
use text.Mathlib.Text.{◌==◌ as str_eq}
use low_latency_faa_s.Prelude.{
  ℕ, ◌^◌, ◌<◌, ◌≡◌, refl, subst, inl, inr, String, true, false, List, [], ◌∷◌, ◌++◌, none, some,
  arith, if◌then◌else◌, Bool-cases,
}
use low_latency_faa_s.Prelude.Int.{ℤ, pos}
use low_latency_faa_s.Prelude.Count.{count}
use low_latency_faa_s.Utils.MinHeap.Count.{count as ℤ_count, equal_iff}
use low_latency_faa_s.Controller.Logger.Stop.{
  logger, stop, returned, waiting, new_handshake, run_turn, run_turns, turns_of_logger,
  turns_of_stop, stop_returns, stop_hangs,
}
use low_latency_faa_s.Kubectl.Deploy.{itoa, itoa_loop, digit}
use low_latency_faa_s.Kubectl.Query.{Pod, get_pod_status_by_name}
use low_latency_faa_s.Kubectl.Query.Status.{Status, get_pod_status_by_name-Status}
use low_latency_faa_s.Cli.Parse.{Command, attach, parse}
use low_latency_faa_s.Cli.Parse.Roundtrip.{render, numbers, words_of_32_bits, parse-render}
use low_latency_faa_s.Utils.MinHeap.{equal}
use low_latency_faa_s.Controller.Dag.{add_nf}
use low_latency_faa_s.Controller.Logger.{Snapshot, Logger, log_round}
use low_latency_faa_s.Controller.Logger.Laws.{IsLogging, Round, log_round-Round}
use low_latency_faa_s.Controller.Pool.{SGroupPool}
use low_latency_faa_s.Controller.Requests.{named, add_to_user}
use low_latency_faa_s.Controller.Requests.Users.{IsSeparate, Added, add_to_user-Added}
use low_latency_faa_s.Tests.Workers.{store}

abbrev busy : ℕ → Snapshot
busy n = record { ts = n; core_cnt = 2; pkt_rate = 500 }

abbrev idle : ℕ → Snapshot
idle n = record { ts = n; core_cnt = 0; pkt_rate = 0 }

-- A log with four idle snapshots at its end.
abbrev almost : Logger
almost = record {
  snapshot_store = busy 0 ∷ busy 1 ∷ idle 2 ∷ idle 3 ∷ idle 4 ∷ idle 5 ∷ [];
  log_on = true;
  log_index = 0;
  log_start_time = 0;
  test_duration = 0;
  avg_core_usage = (0, 1);
  max_core_usage = 0;
  idle_counter = 4;
}

almost-IsLogging : IsLogging almost
almost-IsLogging = record { busy = λ e. refl; counted = λ e. refl; below = λ e. omega arith }

log_round-Round_example : Round true (idle 6) almost (log_round true 6 (idle 6) almost)
log_round-Round_example = log_round-Round true 6 (idle 6) almost almost-IsLogging

abbrev pool : SGroupPool
pool = record { pool = 0 ∷ 1 ∷ [] }

abbrev users : List (String × ℕ)
users = ("ada", 0) ∷ []

users-IsSeparate : IsSeparate users
unfolding named
users-IsSeparate = record {
  below = λ u d h. ground (arith, h);
  apart = λ u v d h k. ground (arith, h, k, eq_iff "ada" u, eq_iff "ada" v, eq_iff u v);
}

add_to_user-Added_example :
    Added
      (λ g. add_nf g "nat")
      users
      (add_to_user (λ g. add_nf g "nat") users "bob" store).1
      "bob"
      store
      (add_to_user (λ g. add_nf g "nat") users "bob" store).2
      (add_to_user (λ g. add_nf g "nat") users "bob" store).0
add_to_user-Added_example =
    add_to_user-Added (λ g. add_nf g "nat") users "bob" store users-IsSeparate

-- The logger is in a round when it is told to stop, and ends after the next.
stop_returns_example :
    (run_turns
      ((logger ∷ []) ++ stop ∷ ((logger ∷ logger ∷ []) ++ (stop ∷ [])))
      (run_turn new_handshake)).stopper
    ≡ returned
unfolding turns_of_logger turns_of_stop
stop_returns_example =
    stop_returns (logger ∷ []) (logger ∷ logger ∷ []) (stop ∷ []) (omega arith) (omega arith)

stop_hangs_example :
    (run_turns (stop ∷ logger ∷ logger ∷ logger ∷ stop ∷ []) new_handshake).stopper ≡ waiting
stop_hangs_example = stop_hangs (logger ∷ logger ∷ logger ∷ stop ∷ [])

-- The two numbers that stand in the line.
abbrev read : String → ℤ
read w = if str_eq w "7" then pos 7 else if str_eq w "2" then pos 2 else pos 0

abbrev line : Command
line = attach "node1" (pos 7) (pos 2)

each_known : (n : ℤ) → 0 < ℤ_count n (numbers line) → read (itoa n) ≡ n
unfolding numbers ℤ_count itoa itoa_loop digit
each_known n h = elim (Bool-cases (equal (pos 7) n)) [
  | inl first ↦
      let e : pos 7 ≡ n = ground (arith, first, equal_iff (pos 7) n) in
      subst (λ m. read (itoa m) ≡ m) e refl
  | inr other ↦
      let e : pos 2 ≡ n = ground (arith, h, other, equal_iff (pos 2) n) in
      subst (λ m. read (itoa m) ≡ m) e refl
]

no_words : (n : ℕ) → 0 < count n (words_of_32_bits line) → n < 2 ^ 32
unfolding words_of_32_bits count
no_words n h = absurd (omega (arith, h))

parse-render_example : parse read (render line) ≡ line
parse-render_example = parse-render read line each_known no_words

-- One pod runs, and the container of the one after it waits.
abbrev pods : List Pod
pods =
    record {
      name = "nat-1";
      labelled = true;
      app = "nat";
      deleting = false;
      containers = record { running = true; waiting = none; terminated = false } ∷ [];
    }
    ∷ record {
      name = "nat-2";
      labelled = true;
      app = "nat";
      deleting = false;
      containers =
          record { running = false; waiting = some "ImagePullBackOff"; terminated = false } ∷ [];
    }
    ∷ []

get_pod_status_by_name-Status_example : Status pods (get_pod_status_by_name pods)
get_pod_status_by_name-Status_example = get_pod_status_by_name-Status pods
