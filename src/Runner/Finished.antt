-- ===== src/Runner/Finished.antt =====
-- The statuses of the results of a diagnosis.
use orynelo.Prelude.{ℕ, List, [], ◌∷◌, map, Bool, true, ◌&&◌, not, if_cases, All, All-append}
use orynelo.Model.{CheckResult, CheckEvent}
use orynelo.Engine.{Plan, run, plan_size}
use orynelo.Engine.RunCheck.{SkipsTerminal}
use orynelo.Engine.Order.{IsFinished, run-IsFinished}
use orynelo.Runner.Plans.{split_plan_at_check, split_mandatory_preflight}
use orynelo.Runner.Policy.{
  is_direct, mark_result, mark_http_preflight_auxiliary, mark_proxy_preflight_auxiliary,
}
use orynelo.Runner.Diagnose.{
  Setup, Worlds, preflight_config, actual_config, preflight_results, run_engines, run_plan,
  run_by_plan,
}
use orynelo.Runner.Engines.{preflight_config-SkipsTerminal}

actual_config-SkipsTerminal :
    (setup : Setup) (offset : ℕ) → SkipsTerminal (actual_config setup offset)
actual_config-SkipsTerminal setup offset proxy check r h = cc

marked-IsFinished :
    (selected : Bool) (rs : List CheckResult)
    → All IsFinished rs
    → All IsFinished (map (mark_result selected) rs)
unfolding mark_result
marked-IsFinished selected [] h = tt
marked-IsFinished selected (r ∷ rs) (h, hs) =
    (if_cases IsFinished (is_direct r.id) (λ _. h) (λ _. h), marked-IsFinished selected rs hs)

preflight_results-IsFinished :
    (setup : Setup) (rs : List CheckResult)
    → All IsFinished rs
    → All IsFinished (preflight_results setup rs)
unfolding preflight_results mark_http_preflight_auxiliary mark_proxy_preflight_auxiliary
preflight_results-IsFinished setup rs h =
    if_cases (All IsFinished) (setup.is_http && not setup.address_matrix)
      (λ _. marked-IsFinished setup.selected_before rs h)
      λ _.
        if_cases (All IsFinished) setup.address_matrix
          (λ _.
            if_cases (All IsFinished) setup.selected_after (λ _. marked-IsFinished true rs h)
              (λ _. h))
          (λ _. h)

module _ (setup : Setup) (worlds : Worlds) where
  run_engines-IsFinished :
      (preflight actual : Plan) → All IsFinished (run_engines setup worlds preflight actual).0
  unfolding run_engines
  run_engines-IsFinished preflight actual =
      let split = split_mandatory_preflight preflight in
      let size = plan_size split.0 in
      All-append IsFinished (run (preflight_config setup 0) worlds.mandatory split.0).0 _
        (run-IsFinished (preflight_config setup 0) worlds.mandatory
          (preflight_config-SkipsTerminal setup 0) split.0)
        (All-append IsFinished
          (preflight_results setup (run (preflight_config setup size) worlds.preflight split.1).0) _
          (preflight_results-IsFinished setup _ (
            run-IsFinished (preflight_config setup size) worlds.preflight
              (preflight_config-SkipsTerminal setup size) split.1))
          (run-IsFinished (actual_config setup (plan_size preflight)) worlds.actual
            (actual_config-SkipsTerminal setup (plan_size preflight)) actual))

  run_by_plan-IsFinished : (plan : Plan) → All IsFinished (run_by_plan setup worlds plan).0
  unfolding run_by_plan
  run_by_plan-IsFinished plan =
      engines (split_plan_at_check "http" plan).0 (split_plan_at_check "http" plan).1
    where
      engines :
          (preflight actual : Plan)
          → All IsFinished
              (elim actual as (λ _. List CheckResult × List CheckEvent) [
                | [] ↦ run (preflight_config setup 0) worlds.mandatory plan
                | stage ∷ rest ↦ run_engines setup worlds preflight (stage ∷ rest)
              ]).0
      engines preflight [] =
          run-IsFinished (preflight_config setup 0) worlds.mandatory
            (preflight_config-SkipsTerminal setup 0) plan
      engines preflight (stage ∷ rest) = run_engines-IsFinished preflight (stage ∷ rest)

  -- Every result that a diagnosis reports is a finished one, whatever the checks do and whatever
  -- happens to the contexts of its engines: the runner's own hook answers with skips only, and a
  -- mark changes no status.
  pub run_plan-IsFinished : (plan : Plan) → All IsFinished (run_plan setup worlds plan).0
  unfolding run_plan
  run_plan-IsFinished plan = run_by_plan-IsFinished plan
