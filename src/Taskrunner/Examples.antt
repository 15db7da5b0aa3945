-- ===== src/Taskrunner/Examples.antt =====
-- Histories of a scope and of a runner, and the theorems at these.
use orynelo.Prelude.{
  ℕ, ◌<◌, ◌≡◌, refl, ◌⊎◌, [], ◌∷◌, ◌++◌, none, some, true, false, arith, contains, number_equality,
  take,
}
use orynelo.Taskrunner.Scope.{
  Scope, loading, started, read_operation, mutation_operation, ask_runner, test_scope,
  call_observer, submit, begin, start_with_policy, finish, close, new_scope, deliver, is_supported,
  increment_id,
}
use orynelo.Taskrunner.Steps.{Reach, fresh, later, starts, ends, closes, asks, tests, observes}
use orynelo.Taskrunner.Freshness.{contexts_released, start_with_policy-fresh}
use orynelo.Taskrunner.Operations.{finish-Commits, Commits, Step-Advances, Advances}
use orynelo.Taskrunner.Queue.{
  Runner, waiting, exited, read_limit, schedule_mutation, schedule_read, in_progress,
  accepts_mutation, accepts_read, signals, wakes, takes, gets_slot,
}
use orynelo.Taskrunner.Queue.Invariant.{mutations_in_order, no_lost_wakeup}
use orynelo.Taskrunner.Queue as Queue

-- A read is started and then a mutation; the callback of the first is still waiting.
restarted : (s : Scope ℕ) × Reach 0 true 2 s
unfolding new_scope deliver start_with_policy is_supported begin increment_id submit
restarted = (
  _,
  later (later fresh (starts true read_operation false)) (starts true mutation_operation true),
)

first_is_accepted : contains restarted.0.accepted 1 ≡ true
unfolding restarted
first_is_accepted = refl

second_is_accepted : contains restarted.0.accepted 2 ≡ true
unfolding restarted
second_is_accepted = refl

third_is_started : (start_with_policy 0 true read_operation false restarted.0).1 ≡ started 3
unfolding restarted start_with_policy is_supported begin increment_id submit
third_is_started = refl

restarted_is_closed : (close restarted.0).closed ≡ true
unfolding restarted close
restarted_is_closed = refl

the_first_is_cancelled : restarted.0.ended ≡ 1 ∷ []
unfolding restarted
the_first_is_cancelled = refl

-- The callback of the mutation passes its test, then the scope is closed, and only then the observer
-- is called.
called_late : (s : Scope ℕ) × Reach 0 true 6 s
unfolding restarted ask_runner test_scope call_observer close
called_late = (
  _,
  later
      (later
        (later
          (later restarted.1
            (asks (take 2 restarted.0.pending) restarted.0.snapshot restarted.0.revision [] refl))
          (tests (take 2 restarted.0.pending) restarted.0.snapshot restarted.0.revision [] refl))
        closes)
      (observes [] restarted.0.snapshot [] refl),
)

called_when_closed :
    (called_late.0.closed ≡ true) × (called_late.0.observed ≡ restarted.0.snapshot ∷ [])
unfolding called_late restarted
called_when_closed = (refl, refl)

contexts_released_example :
    (contains restarted.0.ended 1 ≡ true)
    ⊎ ((1 ≡ restarted.0.next_id)
        × (restarted.0.snapshot.state ≡ loading)
        × (restarted.0.cancel ≡ some 1))
contexts_released_example = contexts_released 0 (omega arith) restarted.1 1 first_is_accepted

start_with_policy-fresh_example : 1 < 3
start_with_policy-fresh_example =
    start_with_policy-fresh 0 (omega arith) restarted.1 true read_operation false 3 third_is_started
      1 first_is_accepted

finish-Commits_example : Commits 2 none 7 none restarted.0 (finish 2 none 7 none restarted.0)
finish-Commits_example = finish-Commits 2 none 7 none restarted.0

Step-Advances_example : Advances restarted.0.snapshot (finish 2 none 7 none restarted.0).snapshot
Step-Advances_example =
    Step-Advances 0 (omega arith) restarted.1 (ends 2 none 7 none second_is_accepted)

-- The worker of a runner is in its first mutation, a read has a slot, and a second mutation waits.
busy_runner : (r : Runner) × Queue.Reach (read_limit 0) r
unfolding read_limit schedule_mutation schedule_read
busy_runner = (
  _,
  Queue.later
      (Queue.later
        (Queue.later
          (Queue.later
            (Queue.later
              (Queue.later (Queue.later Queue.fresh (accepts_mutation 1)) (signals 0 refl))
              (wakes refl refl))
            (takes 1 [] refl refl))
          (accepts_read 2))
        (gets_slot [] 2 [] refl (omega arith)))
      (accepts_mutation 3),
)

mutations_in_order_example :
    let r = busy_runner.0 in r.finished ++ (in_progress r.worker ++ r.mutation_queue) ≡ r.accepted
mutations_in_order_example = mutations_in_order busy_runner.1

no_lost_wakeup_example :
    let r = busy_runner.0 in
    (r.worker ≡ waiting
      → (r.mutation_ready ≡ true) ⊎ (0 < r.owed) ⊎ ((r.mutation_queue ≡ []) × (r.closed ≡ false)))
    × (r.worker ≡ exited → (r.closed ≡ true) × (r.finished ≡ r.accepted))
no_lost_wakeup_example = no_lost_wakeup busy_runner.1
