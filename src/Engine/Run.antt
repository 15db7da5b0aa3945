-- ===== src/Engine/Run.antt =====
-- `Engine.Run`: stages in order. Within a stage every check is run, and the results take their
-- places in the order of the plan (the schedules of a stage are in Engine/Stage).
use orynelo.Prelude.{ℕ, suc, ◌+◌, String, List, [], ◌∷◌, ◌++◌, Option, none, some, length}
use orynelo.Model.{running, CheckResult, CheckEvent, check_started, check_completed}
use orynelo.Engine.Defs.{Check, Config, Attempt, Stopped, run_check, stopped_result}

abbrev pub Plan : Type 0
Plan = List (List Check)

-- `planSize`
unfoldable pub plan_size : Plan → ℕ
plan_size [] = 0
plan_size (stage ∷ rest) = length stage + plan_size rest

-- What the engine observes at each position of the plan: the context where the stage that begins
-- there is entered, the clock for a check that is not started and for its events, and the attempt.
pub record World (S : Type 0) : Type 0 where
  pub stage_entry : ℕ → Option Stopped
  pub stopped_at : ℕ → ℕ
  pub event_at : ℕ → ℕ
  pub attempt : ℕ → Attempt S

unfoldable pub started_event : Check → ℕ → ℕ → CheckEvent
started_event check at index = record {
  type = check_started;
  check_id = check.id;
  check_name = check.name;
  status = running;
  at = at;
  index = index;
  result = none;
  dropped_events = 0;
}

unfoldable pub completed_event : String → String → CheckResult → ℕ → ℕ → CheckEvent
completed_event id name r at index = record {
  type = check_completed;
  check_id = id;
  check_name = name;
  status = r.status;
  at = at;
  index = index;
  result = some r;
  dropped_events = 0;
}

module _ {S : Type 0} (config : Config S) (world : World S) where
  -- A stage that the context stopped: no check is run.
  unfoldable pub stop_stage : Stopped → ℕ → List Check → List CheckResult × List CheckEvent
  stop_stage stop offset [] = ([], [])
  stop_stage stop offset (check ∷ rest) =
      let r = stopped_result check (world.stopped_at offset) stop.cause in
      let (results, events) = stop_stage stop (suc offset) rest in
      (
        r ∷ results,
        completed_event check.id check.name r (world.event_at offset)
              (config.event_index_offset + offset)
            ∷ events,
      )

  -- `runStage`
  unfoldable pub run_stage : ℕ → List Check → List CheckResult
  run_stage offset [] = []
  run_stage offset (check ∷ rest) =
      run_check config check (world.attempt offset) ∷ run_stage (suc offset) rest

  unfoldable pub started_events : ℕ → List Check → List CheckEvent
  started_events offset [] = []
  started_events offset (check ∷ rest) =
      started_event check (world.event_at offset) (config.event_index_offset + offset)
      ∷ started_events (suc offset) rest

  unfoldable pub completed_events : ℕ → List CheckResult → List CheckEvent
  completed_events offset [] = []
  completed_events offset (r ∷ rest) =
      completed_event r.id r.name r r.finished_at (config.event_index_offset + offset)
      ∷ completed_events (suc offset) rest

  unfoldable pub enter_stage : Option Stopped → ℕ → List Check → List CheckResult × List CheckEvent
  enter_stage (some stop) offset stage = stop_stage stop offset stage
  enter_stage none offset stage =
      let results = run_stage offset stage in
      (results, started_events offset stage ++ completed_events offset results)

  unfoldable pub run_from : ℕ → Plan → List CheckResult × List CheckEvent
  run_from offset [] = ([], [])
  run_from offset ([] ∷ plan) = run_from offset plan
  run_from offset ((check ∷ stage) ∷ plan) =
      let (results, events) = enter_stage (world.stage_entry offset) offset (check ∷ stage) in
      let (later, later_events) = run_from (offset + length (check ∷ stage)) plan in
      (results ++ later, events ++ later_events)

  unfoldable pub run : Plan → List CheckResult × List CheckEvent
  run plan = run_from 0 plan
