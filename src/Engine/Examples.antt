-- ===== src/Engine/Examples.antt =====
-- Runs of the engine on a plan of two stages, and the theorems at these inputs.
use orynelo.Prelude.{
  ℕ, eqb, if◌then◌else◌, String, ◌≤◌, ◌<◌, ◌≡◌, refl, ◌⊎◌, inr, List, [], ◌∷◌, none, some, true,
  arith, length, get_elem?, All, Any, min, ◌-◌,
}
use orynelo.Model.{failed, pending, CheckResult, complete, max_duration, is_terminal}
use orynelo.Model.Complete.{complete-interval, IsOwned}
use orynelo.Engine.Defs.{
  Check, Config, Attempt, auxiliary_budget_exhausted, deadline_exceeded, returned, run_check,
  Stopped, check_timeout_code, settle, after_run, named, new, clamp_concurrency,
}
use orynelo.Engine.Run.{Plan, World, run, run_from, run_stage, plan_size}
use orynelo.Engine.RunCheck.{run_check-is_terminal}
use orynelo.Engine.Timeouts.{run_check-overrun, IsBudgetRecord}
use orynelo.Engine.Order.{
  run-ids, run-IsFinished, ids, IsFinished, IsHonestPlan, run_from-stopped, IsStoppedBy,
}
use orynelo.Engine.Events.{run-completions, starts, completions, number}
use orynelo.Engine.Stage.{
  Workers, here, later, hand_out, finish, start, StageReach, stage_schedules, stage_progress,
  worker_count, IsDone, Step, work,
}

abbrev config : Config (Unit {0})
config = record {
  check_timeout = 5;
  max_concurrency = 2;
  event_index_offset = 0;
  skip_check = none;
  duration_string = λ n. "5s";
}

abbrev target : Check
target = record { id = "target"; name = "Target validation" }

abbrev dns : Check
dns = record { id = "dns"; name = "DNS" }

abbrev tcp : Check
tcp = record { id = "tcp"; name = "TCP" }

abbrev plan : Plan
plan = (target ∷ []) ∷ [] ∷ (dns ∷ tcp ∷ []) ∷ []

-- A check that leaves its identity to the engine and never decides on a status.
abbrev vague : CheckResult
vague = record {
  id = "";
  name = "";
  status = pending;
  role = "";
  network_refs = [];
  started_at = 0;
  finished_at = 0;
  duration = 0;
  summary = "";
  evidence = [];
  recommendations = [];
  error_code = "";
}

abbrev attempt : Attempt (Unit {0})
attempt = record {
  started = 10;
  entry = none;
  state = tt;
  outcome = returned vague;
  finished = 12;
  exit = none;
  check_err = none;
}

abbrev world : World (Unit {0})
world = record {
  stage_entry = λ i. none;
  stopped_at = λ i. 20;
  event_at = λ i. 21;
  attempt = λ i. attempt;
}

abbrev stopped : Stopped
stopped = record { err = deadline_exceeded; cause = auxiliary_budget_exhausted }

abbrev stopped_world : World (Unit {0})
stopped_world = record world { stage_entry = λ i. some stopped }

a_vague_check_fails : (run_check config dns attempt).status ≡ failed
unfolding run_check complete settle after_run named
a_vague_check_fails = refl

complete-interval_example :
    let c = complete (record vague { id = "dns"; started_at = 9 }) 3 4 in
    (c.started_at ≤ c.finished_at)
    × (c.duration ≡ min (c.finished_at - c.started_at) max_duration)
    × IsOwned c.evidence
complete-interval_example =
    complete-interval (record vague { id = "dns"; started_at = 9 }) 3 4 (λ e. cc)

run_check-is_terminal_example : is_terminal (run_check config dns attempt).status ≡ true
run_check-is_terminal_example = run_check-is_terminal config dns attempt (λ s c r h. cc)

run_check-overrun_example :
    let out = run_check config dns (record attempt { check_err = some deadline_exceeded }) in
    (out.status ≡ failed)
    × (out.error_code ≡ check_timeout_code)
    × Any (IsBudgetRecord config.duration_string out.id 5 2) out.evidence
run_check-overrun_example =
    run_check-overrun config dns (record attempt { check_err = some deadline_exceeded }) vague refl
      refl refl refl refl

-- The checks name themselves, as those of the program do, by their numbers in the plan.
abbrev plan_name : ℕ → String
plan_name i = if eqb i 0 then "target" else if eqb i 1 then "dns" else "tcp"

abbrev named_world : World (Unit {0})
named_world = record world {
  attempt = λ i. record attempt { outcome = returned (record vague { id = plan_name i }) };
}

honest : IsHonestPlan config named_world 0 plan
honest = (((inr refl, λ r h. cc), tt), (((inr refl, λ r h. cc), ((inr refl, λ r h. cc), tt)), tt))

run-ids_example : ids (run config named_world plan).0 ≡ "target" ∷ "dns" ∷ "tcp" ∷ []
run-ids_example = run-ids config named_world plan honest

run-IsFinished_example : All IsFinished (run config world plan).0
run-IsFinished_example = run-IsFinished config world (λ s c r h. cc) plan

run-completions_example :
    let (results, events) = run config world plan in
    (length results ≡ plan_size plan) × (completions events ≡ number 0 results)
run-completions_example = run-completions config world plan

run_from-stopped_example :
    let (results, events) = run_from config stopped_world 0 plan in
    (starts events ≡ [])
    × (ids results ≡ "target" ∷ "dns" ∷ "tcp" ∷ [])
    × All (IsStoppedBy auxiliary_budget_exhausted) results
run_from-stopped_example = run_from-stopped config stopped_world stopped 0 plan (λ i h. refl)

abbrev pair : List Check
pair = dns ∷ tcp ∷ []

-- Both indices are handed out, and the second check finishes first.
overtaken : (s : Workers) × StageReach config world 0 pair s
unfolding run_stage new clamp_concurrency worker_count start
overtaken = (
  _,
  later
      (later (later here (hand_out (omega arith) (omega arith)))
        (hand_out (omega arith) (omega arith)))
      (finish [] 1 (0 ∷ []) refl),
)

first_is_still_running : overtaken.0.busy ≡ 0 ∷ []
unfolding overtaken
first_is_still_running = refl

stage_schedules_example :
    (length overtaken.0.busy ≤ 32)
    × (IsDone
          (run_stage config world 0 pair)
          (worker_count (new config).max_concurrency 2)
          overtaken.0
        → (i : ℕ) → i < 2
        → overtaken.0.results i ≡ get_elem? (run_stage config world 0 pair) i)
stage_schedules_example = stage_schedules config world 0 pair overtaken.1

stage_progress_example :
    let workers = worker_count (new config).max_concurrency 2 in
    let outcomes = run_stage config world 0 pair in
    (IsDone outcomes workers overtaken.0 ⊎ ((t : Workers) × Step outcomes workers overtaken.0 t))
    × ((t : Workers)
        → Step outcomes workers overtaken.0 t
        → work outcomes workers t < work outcomes workers overtaken.0)
stage_progress_example = stage_progress config world 0 pair (omega arith) overtaken.1
