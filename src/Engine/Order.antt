-- ===== src/Engine/Order.antt =====
-- The results of `Engine.Run`: their order, and their statuses.
use mathlib.Core.List.{map-append}
use orynelo.Prelude.{
  ℕ, suc, ◌+◌, ◌≤◌, ◌≢◌, [], arith, ◌≡◌, refl, ap, ◌∙◌, String, List, ◌∷◌, map, Option, none, some,
  true, length, All, All-append, join,
}
use orynelo.Model.{CheckResult, is_terminal, skipped, failed, cancelled}
use orynelo.Engine.Events.{starts, starts-append}
use orynelo.Engine.Defs.{
  Check, Stopped, Config, Cause, auxiliary_budget_exhausted, of_err, custom, canceled,
  deadline_exceeded, stopped_result,
}
use orynelo.Engine.Run.{
  Plan, World, stop_stage, run_stage, enter_stage, run_from, run, completed_event,
}
use orynelo.Engine.RunCheck.{
  IsHonest, SkipsTerminal, run_check-id, run_check-is_terminal, stopped-is_terminal,
}

abbrev pub ids : List CheckResult → List String
ids = map (λ r. r.id)

abbrev pub check_ids : List Check → List String
check_ids = map (λ c. c.id)

abbrev pub IsFinished : CheckResult → Type 0
IsFinished r = is_terminal r.status ≡ true

module _ {S : Type 0} (config : Config S) (world : World S) where
  stop_stage-ids :
      (stop : Stopped) (n : ℕ) (cs : List Check)
      → ids (stop_stage config world stop n cs).0 ≡ check_ids cs
  unfolding stop_stage stopped_result
  stop_stage-ids stop n [] = refl
  stop_stage-ids stop n (c ∷ cs) = ap (◌∷◌ c.id) (stop_stage-ids stop (suc n) cs)

  stop_stage-IsFinished :
      (stop : Stopped) (n : ℕ) (cs : List Check)
      → All IsFinished (stop_stage config world stop n cs).0
  unfolding stop_stage stopped_result
  stop_stage-IsFinished stop n [] = tt
  stop_stage-IsFinished stop n (c ∷ cs) =
      (stopped-is_terminal stop.cause, stop_stage-IsFinished stop (suc n) cs)

  run_stage-IsFinished :
      SkipsTerminal config
      → (n : ℕ) (cs : List Check) → All IsFinished (run_stage config world n cs)
  unfolding run_stage
  run_stage-IsFinished h n [] = tt
  run_stage-IsFinished h n (c ∷ cs) =
      (run_check-is_terminal config c (world.attempt n) h, run_stage-IsFinished h (suc n) cs)

  enter_stage-IsFinished :
      SkipsTerminal config
      → (entry : Option Stopped) (n : ℕ) (cs : List Check)
      → All IsFinished (enter_stage config world entry n cs).0
  unfolding enter_stage
  enter_stage-IsFinished h (some stop) n cs = stop_stage-IsFinished stop n cs
  enter_stage-IsFinished h none n cs = run_stage-IsFinished h n cs

  run_from-IsFinished :
      SkipsTerminal config → (n : ℕ) (plan : Plan) → All IsFinished (run_from config world n plan).0
  unfolding run_from
  run_from-IsFinished h n [] = tt
  run_from-IsFinished h n ([] ∷ plan) = run_from-IsFinished h n plan
  run_from-IsFinished h n ((c ∷ cs) ∷ plan) =
      All-append IsFinished _ _ (enter_stage-IsFinished h (world.stage_entry n) n (c ∷ cs))
        (run_from-IsFinished h (n + length (c ∷ cs)) plan)

  -- Every result of a run is a finished one, if `SkipCheck` answers with finished results.
  pub run-IsFinished :
      SkipsTerminal config → (plan : Plan) → All IsFinished (run config world plan).0
  unfolding run
  run-IsFinished h plan = run_from-IsFinished h 0 plan

module _ {S : Type 0} (config : Config S) (world : World S) where
  -- At each position of the plan neither the check that stands there nor the hook answers under
  -- another check's name.
  abbrev IsHonestStage : ℕ → List Check → Type 0
  IsHonestStage n [] = Unit
  IsHonestStage n (c ∷ cs) = IsHonest config c (world.attempt n) × IsHonestStage (suc n) cs

  abbrev pub IsHonestPlan : ℕ → Plan → Type 0
  IsHonestPlan n [] = Unit
  IsHonestPlan n ([] ∷ plan) = IsHonestPlan n plan
  IsHonestPlan n ((c ∷ cs) ∷ plan) =
      IsHonestStage n (c ∷ cs) × IsHonestPlan (n + length (c ∷ cs)) plan

  run_stage-ids :
      (n : ℕ) (cs : List Check)
      → IsHonestStage n cs
      → ids (run_stage config world n cs) ≡ check_ids cs
  unfolding run_stage
  run_stage-ids n [] h = refl
  run_stage-ids n (c ∷ cs) h =
      cc (run_check-id config c (world.attempt n) h.0, run_stage-ids (suc n) cs h.1)

  enter_stage-ids :
      (entry : Option Stopped) (n : ℕ) (cs : List Check)
      → IsHonestStage n cs
      → ids (enter_stage config world entry n cs).0 ≡ check_ids cs
  unfolding enter_stage
  enter_stage-ids (some stop) n cs h = stop_stage-ids config world stop n cs
  enter_stage-ids none n cs h = run_stage-ids n cs h

  run_from-ids :
      (n : ℕ) (plan : Plan)
      → IsHonestPlan n plan
      → ids (run_from config world n plan).0 ≡ check_ids (join plan)
  unfolding run_from
  run_from-ids n [] h = refl
  run_from-ids n ([] ∷ plan) h = run_from-ids n plan h
  run_from-ids n ((c ∷ cs) ∷ plan) h =
      map-append (λ (r : CheckResult). r.id)
        (enter_stage config world (world.stage_entry n) n (c ∷ cs)).0
        (run_from config world (n + length (c ∷ cs)) plan).0
      ∙ (cc (
        enter_stage-ids (world.stage_entry n) n (c ∷ cs) h.0,
        run_from-ids (n + length (c ∷ cs)) plan h.1,
        map-append (λ (k : Check). k.id) (c ∷ cs) (join plan),
      ))

  -- The results of a run, wherever the context is done and whatever the checks do, are those of the
  -- checks of the plan, one for each, in the order of the plan, if at no position
  -- of the plan the check that stands there, or the hook, answers under another check's name.
  pub run-ids :
      (plan : Plan) → IsHonestPlan 0 plan → ids (run config world plan).0 ≡ check_ids (join plan)
  unfolding run
  run-ids plan h = run_from-ids 0 plan h

-- The status and the error code of a check that is not started, by the cause of the context.
pub record IsStoppedBy (cause : Cause) (r : CheckResult) : Type 0 where
  pub by_budget :
      cause ≡ auxiliary_budget_exhausted
      → (r.status ≡ skipped) × (r.error_code ≡ "AUXILIARY_BUDGET_RESERVED")
  pub by_deadline :
      cause ≡ of_err deadline_exceeded → (r.status ≡ failed) × (r.error_code ≡ "OPERATION_TIMEOUT")
  pub by_cancellation :
      cause ≢ auxiliary_budget_exhausted
      → cause ≢ of_err deadline_exceeded
      → (r.status ≡ cancelled) × (r.error_code ≡ "OPERATION_CANCELLED")
  pub at_once : (r.duration ≡ 0) × (r.started_at ≡ r.finished_at)

stopped_result-IsStoppedBy :
    (check : Check) (now : ℕ) (cause : Cause) → IsStoppedBy cause (stopped_result check now cause)
unfolding stopped_result
stopped_result-IsStoppedBy check now auxiliary_budget_exhausted = record {
  by_budget = λ h. (refl, refl);
  by_deadline = λ h. cc;
  by_cancellation = λ h k. absurd (h refl);
  at_once = (refl, refl);
}
stopped_result-IsStoppedBy check now (of_err deadline_exceeded) = record {
  by_budget = λ h. cc;
  by_deadline = λ h. (refl, refl);
  by_cancellation = λ h k. absurd (k refl);
  at_once = (refl, refl);
}
stopped_result-IsStoppedBy check now (of_err canceled) = record {
  by_budget = λ h. cc;
  by_deadline = λ h. cc;
  by_cancellation = λ h k. (refl, refl);
  at_once = (refl, refl);
}
stopped_result-IsStoppedBy check now (custom text) = record {
  by_budget = λ h. cc;
  by_deadline = λ h. cc;
  by_cancellation = λ h k. (refl, refl);
  at_once = (refl, refl);
}

module _ {S : Type 0} (config : Config S) (world : World S) where
  stop_stage-starts :
      (stop : Stopped) (n : ℕ) (cs : List Check) → starts (stop_stage config world stop n cs).1 ≡ []
  unfolding stop_stage completed_event
  stop_stage-starts stop n [] = refl
  stop_stage-starts stop n (c ∷ cs) = stop_stage-starts stop (suc n) cs

  stop_stage-IsStoppedBy :
      (stop : Stopped) (n : ℕ) (cs : List Check)
      → All (IsStoppedBy stop.cause) (stop_stage config world stop n cs).0
  unfolding stop_stage
  stop_stage-IsStoppedBy stop n [] = tt
  stop_stage-IsStoppedBy stop n (c ∷ cs) = (
    stopped_result-IsStoppedBy c (world.stopped_at n) stop.cause,
    stop_stage-IsStoppedBy stop (suc n) cs,
  )

  -- If the context is done at every stage boundary from a position on, then no check from there on
  -- is announced as started, yet each of them, in the order of the plan, has a result, which took no
  -- time: it is skipped where the auxiliary budget is spent, failed with the operation's timeout
  -- where the deadline passed, and cancelled otherwise.
  pub run_from-stopped :
      (stop : Stopped) (n : ℕ) (plan : Plan)
      → ((i : ℕ) → n ≤ i → world.stage_entry i ≡ some stop)
      → let (results, events) = run_from config world n plan in
        (starts events ≡ [])
        × (ids results ≡ check_ids (join plan))
        × All (IsStoppedBy stop.cause) results
  unfolding run_from enter_stage
  run_from-stopped stop n [] h = (refl, refl, tt)
  run_from-stopped stop n ([] ∷ plan) h = run_from-stopped stop n plan h
  run_from-stopped stop n ((c ∷ cs) ∷ plan) h =
      let m = n + length (c ∷ cs) in
      let rest = run_from-stopped stop m plan (λ i le. h i (omega arith)) in
      rw (h n (omega arith), enter_stage)
        (
          starts-append (stop_stage config world stop n (c ∷ cs)).1 (run_from config world m plan).1
              ∙ (rw (stop_stage-starts stop n (c ∷ cs)) rest.0),
          map-append (λ (r : CheckResult). r.id) (stop_stage config world stop n (c ∷ cs)).0
                (run_from config world m plan).0
              ∙ (cc (
                stop_stage-ids config world stop n (c ∷ cs),
                rest.1,
                map-append (λ (k : Check). k.id) (c ∷ cs) (join plan),
              )),
          All-append (IsStoppedBy stop.cause) (stop_stage config world stop n (c ∷ cs)).0
              (run_from config world m plan).0 (stop_stage-IsStoppedBy stop n (c ∷ cs)) rest.2,
        )
