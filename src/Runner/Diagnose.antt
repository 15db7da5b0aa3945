-- ===== src/Runner/Diagnose.antt =====
-- The engines that `Diagnose` runs, with the sinks between them and the caller.
use orynelo.Prelude.{
  ℕ, suc, Text, Option, String, List, [], ◌∷◌, ◌++◌, map, Bool, ◌&&◌, ◌||◌, not, none, some,
  if◌then◌else◌,
}
use orynelo.Model.{CheckResult, CheckEvent}
use orynelo.Engine.{Config, Plan, World, run, plan_size}
use orynelo.Network.{Observed, correlated_network_result}
use orynelo.Runner.Plans.{split_plan_at_check, split_mandatory_preflight}
use orynelo.Runner.Policy.{
  ProxyState, skip_invalid_proxy_direct_check, mark_http_preflight_auxiliary,
  mark_proxy_preflight_auxiliary, auxiliary_preflight_event,
}

-- What `Diagnose` reads of the options, and of the state where it decides on the marks: whether a
-- proxy is selected before the preflight and after it.
pub record Setup : Type 0 where
  pub check_timeout : ℕ
  pub max_concurrency : ℕ
  pub duration_string : ℕ → String
  pub ip_string : Text → String
  pub is_http : Bool
  pub address_matrix : Bool
  pub selected_before : Bool
  pub selected_after : Bool

-- The engine of the mandatory checks and of the preflight, and that of the actual checks.
abbrev pub preflight_config : Setup → ℕ → Config ProxyState
preflight_config setup offset = record {
  check_timeout = setup.check_timeout;
  max_concurrency = setup.max_concurrency;
  event_index_offset = offset;
  skip_check = some skip_invalid_proxy_direct_check;
  duration_string = setup.duration_string;
}

abbrev pub actual_config : Setup → ℕ → Config ProxyState
actual_config setup offset = record (preflight_config setup offset) { skip_check = none }

-- The contexts, clocks and checks that the three engines observe, and what the checks have recorded in
-- the state when each event of the diagnosis is emitted.
pub record Worlds : Type 0 where
  pub recorded : ℕ → Observed
  pub mandatory : World ProxyState
  pub preflight : World ProxyState
  pub actual : World ProxyState

-- The events of the preflight as the caller gets them.
unfoldable pub preflight_events : Setup → List CheckEvent → List CheckEvent
preflight_events setup events =
    if setup.is_http && (not setup.address_matrix || setup.selected_before)
    then map (auxiliary_preflight_event setup.selected_before) events
    else events

-- The results of the preflight as the diagnosis keeps them.
unfoldable pub preflight_results : Setup → List CheckResult → List CheckResult
preflight_results setup results =
    if setup.is_http && not setup.address_matrix
    then mark_http_preflight_auxiliary setup.selected_before results
    else if setup.address_matrix
    then mark_proxy_preflight_auxiliary setup.selected_after results
    else results

-- The three engines: the mandatory checks, the rest of the preflight, and the actual checks.
unfoldable pub run_engines : Setup → Worlds → Plan → Plan → List CheckResult × List CheckEvent
unfolding skip_invalid_proxy_direct_check split_mandatory_preflight preflight_events
    preflight_results run plan_size
run_engines setup worlds preflight actual =
    let (mandatory, auxiliary) = split_mandatory_preflight preflight in
    let (first, first_events) = run (preflight_config setup 0) worlds.mandatory mandatory in
    let (second, second_events) =
      run (preflight_config setup (plan_size mandatory)) worlds.preflight auxiliary in
    let (third, third_events) =
      run (actual_config setup (plan_size preflight)) worlds.actual actual in
    (
      first ++ (preflight_results setup second ++ third),
      first_events ++ (preflight_events setup second_events ++ third_events),
    )

-- The results of a diagnosis, before they are correlated with network paths, and the events as the
-- engines emit them. A plan without a check "http" is for one engine.
unfoldable pub run_by_plan : Setup → Worlds → Plan → List CheckResult × List CheckEvent
unfolding split_plan_at_check run run_engines
run_by_plan setup worlds plan =
    let (preflight, actual) = split_plan_at_check "http" plan in
    elim actual [
      | [] ↦ run (preflight_config setup 0) worlds.mandatory plan
      | stage ∷ rest ↦ run_engines setup worlds preflight (stage ∷ rest)
    ]

abbrev the_only : CheckResult → List CheckResult → CheckResult
the_only default (r ∷ []) = r
the_only default _ = default

abbrev pub correlated_alone : (Text → String) → Observed → CheckResult → CheckResult
correlated_alone ip_string observed r =
    the_only r (correlated_network_result ip_string observed (r ∷ [])).1

abbrev pub correlated_if_any : (Text → String) → Observed → Option CheckResult → Option CheckResult
correlated_if_any ip_string observed none = none
correlated_if_any ip_string observed (some r) = some (correlated_alone ip_string observed r)

-- `correlatedEventSink`: the result of an event is correlated with what is recorded at that time.
unfoldable pub correlated_event : (Text → String) → Observed → CheckEvent → CheckEvent
unfolding correlated_network_result
correlated_event ip_string observed e = record e {
  result = correlated_if_any ip_string observed e.result;
}

abbrev pub correlated_events :
    (Text → String) → (ℕ → Observed) → ℕ → List CheckEvent → List CheckEvent
correlated_events ip_string recorded n [] = []
correlated_events ip_string recorded n (e ∷ es) =
    correlated_event ip_string (recorded n) e ∷ correlated_events ip_string recorded (suc n) es

-- The results of a diagnosis, before they are correlated with network paths, and the events of its
-- engines as they come to the caller's sink.
unfoldable pub run_plan : Setup → Worlds → Plan → List CheckResult × List CheckEvent
unfolding run_by_plan correlated_event
run_plan setup worlds plan =
    let (results, events) = run_by_plan setup worlds plan in
    (results, correlated_events setup.ip_string worlds.recorded 0 events)
