-- ===== src/Engine/Defs.antt =====
-- One check: `New`, `runCheck`, `stoppedResult` and `ensureCheckTimeoutEvidence`.
use Prim.Native.String.{◌++◌ as str_append}
use orynelo.Prelude.{
  ℕ, String, List, [], ◌∷◌, ◌++◌, Option, none, some, ltb, ◌==◌, if◌then◌else◌, name_equality,
  number_equality, ◌||◌, not,
}
use orynelo.Model.{
  Status, failed, skipped, cancelled, is_valid, is_pending, is_running, Evidence, CheckResult,
  complete, or_empty, since,
}

-- `model.Check`: `Run` is the environment's, so an attempt (below) says what it gave.
pub record Check : Type 0 where
  pub id : String
  pub name : String

-- `ctx.Err()`, and `context.Cause(ctx)`, which is the error itself unless a cause was given.
pub data CtxErr : Type 0 where
  canceled deadline_exceeded : CtxErr

pub data Cause : Type 0 where
  auxiliary_budget_exhausted : Cause
  of_err : CtxErr → Cause
  custom : String → Cause

-- A context that is done.
pub record Stopped : Type 0 where
  pub err : CtxErr
  pub cause : Cause

-- `check.Run` returns a result or panics.
pub data Outcome : Type 0 where
  returned : CheckResult → Outcome
  panicked : Outcome

-- `DurationString` is the standard library's `time.Duration.String`.
pub record Config (S : Type 0) : Type 0 where
  pub check_timeout : ℕ
  pub max_concurrency : ℕ
  pub event_index_offset : ℕ
  pub skip_check : Option (S → Check → Option CheckResult)
  pub duration_string : ℕ → String

-- What the engine reads while it executes one check: the clock twice, the context before and after,
-- the check's own context after, the state that `SkipCheck` sees, and what `check.Run` does.
pub record Attempt (S : Type 0) : Type 0 where
  pub started : ℕ
  pub entry : Option Stopped
  pub state : S
  pub outcome : Outcome
  pub finished : ℕ
  pub exit : Option Stopped
  pub check_err : Option CtxErr

-- `New`: a limit on concurrency below 1 becomes 4, and one above 32 becomes 32.
unfoldable pub clamp_concurrency : ℕ → ℕ
clamp_concurrency n = let m = if ltb n 1 then 4 else n in if ltb 32 m then 32 else m

abbrev pub check_timeout_code : String
check_timeout_code = "CHECK_TIMEOUT"

abbrev pub internal_panic_code : String
internal_panic_code = "CHECK_INTERNAL_PANIC"

abbrev pub auxiliary_budget_code : String
auxiliary_budget_code = "AUXILIARY_BUDGET_RESERVED"

-- `m[key] = value`
unfoldable pub put : String → String → List (String × String) → List (String × String)
put key value [] = (key, value) ∷ []
put key value ((k, v) ∷ m) = if k == key then (key, value) ∷ m else (k, v) ∷ put key value m

unfoldable pub budget_evidence : String → Evidence
budget_evidence check_id = record {
  id = str_append check_id ".auxiliary_budget";
  check_id = check_id;
  network_ref = none;
  code = auxiliary_budget_code;
  message = "The reserved actual-route budget was preserved.";
  details = [];
}

-- `stoppedResult`
abbrev pub stopped_status : Cause → Status
stopped_status auxiliary_budget_exhausted = skipped
stopped_status (of_err deadline_exceeded) = failed
stopped_status _ = cancelled

abbrev pub stopped_summary : Cause → String
stopped_summary auxiliary_budget_exhausted =
    "The auxiliary comparison was not started so the actual HTTP route retained its reserved budget."
stopped_summary (of_err deadline_exceeded) =
    "The diagnosis timeout elapsed before the check started."
stopped_summary _ = "The check was cancelled before it started."

abbrev pub stopped_code : Cause → String
stopped_code auxiliary_budget_exhausted = auxiliary_budget_code
stopped_code (of_err deadline_exceeded) = "OPERATION_TIMEOUT"
stopped_code _ = "OPERATION_CANCELLED"

abbrev pub stopped_evidence : String → Cause → List Evidence
stopped_evidence id auxiliary_budget_exhausted = budget_evidence id ∷ []
stopped_evidence id _ = []

unfoldable pub stopped_result : Check → ℕ → Cause → CheckResult
stopped_result check now cause = record {
  id = check.id;
  name = check.name;
  status = stopped_status cause;
  role = "";
  network_refs = [];
  started_at = now;
  finished_at = now;
  duration = 0;
  summary = stopped_summary cause;
  evidence = stopped_evidence check.id cause;
  recommendations = [];
  error_code = stopped_code cause;
}

-- `ensureCheckTimeoutEvidence`
unfoldable pub timeout_details :
    (ℕ → String) → String → String → ℕ → ℕ → List (String × String) → List (String × String)
unfolding put
timeout_details text check_id check_name budget elapsed m =
    put "elapsed" (text elapsed)
      (put "configuredBudget" (text budget) (put "checkName" check_name (put "stage" check_id m)))

abbrev pub timeout_message : String
timeout_message = "The diagnostic check exceeded its configured timeout."

unfoldable pub amend_timeout_evidence : (ℕ → String) → String → String → ℕ → ℕ → Evidence → Evidence
unfolding or_empty
amend_timeout_evidence text check_id check_name budget elapsed e = record e {
  id = or_empty e.id (str_append check_id ".timeout");
  check_id = or_empty e.check_id check_id;
  message = or_empty e.message timeout_message;
  details = timeout_details text check_id check_name budget elapsed e.details;
}

unfoldable pub new_timeout_evidence : (ℕ → String) → String → String → ℕ → ℕ → Evidence
new_timeout_evidence text check_id check_name budget elapsed = record {
  id = str_append check_id ".timeout";
  check_id = check_id;
  network_ref = none;
  code = check_timeout_code;
  message = timeout_message;
  details = timeout_details text check_id check_name budget elapsed [];
}

unfoldable pub ensure_check_timeout_evidence :
    (ℕ → String) → String → String → ℕ → ℕ → List Evidence → List Evidence
ensure_check_timeout_evidence text check_id check_name budget elapsed [] =
    new_timeout_evidence text check_id check_name budget elapsed ∷ []
ensure_check_timeout_evidence text check_id check_name budget elapsed (e ∷ es) =
    if e.code == check_timeout_code
    then amend_timeout_evidence text check_id check_name budget elapsed e ∷ es
    else e ∷ ensure_check_timeout_evidence text check_id check_name budget elapsed es

-- The steps of `runCheck`.
unfoldable pub named : Check → CheckResult → CheckResult
unfolding or_empty
named check r = record r { id = or_empty r.id check.id; name = or_empty r.name check.name }

unfoldable pub panic_result : Check → CheckResult
panic_result check = record {
  id = check.id;
  name = check.name;
  status = failed;
  role = "";
  network_refs = [];
  started_at = 0;
  finished_at = 0;
  duration = 0;
  summary = "The check stopped because of an internal error.";
  evidence =
      record {
        id = str_append check.id ".panic";
        check_id = check.id;
        network_ref = none;
        code = internal_panic_code;
        message = "The diagnostic check encountered an internal error.";
        details = [];
      }
      ∷ [];
  recommendations = [];
  error_code = internal_panic_code;
}

-- The context was done when the check returned.
unfoldable pub interrupted : Check → CtxErr → Cause → CheckResult → CheckResult
interrupted check err auxiliary_budget_exhausted r = record r {
  status = skipped;
  error_code = auxiliary_budget_code;
  summary = "The auxiliary comparison stopped to preserve time for the actual HTTP route.";
  evidence = r.evidence ++ record (budget_evidence check.id) { check_id = "" } ∷ [];
}
interrupted check deadline_exceeded cause r = record r {
  status = failed;
  error_code = "OPERATION_TIMEOUT";
  summary = "The diagnosis timeout elapsed.";
}
interrupted check canceled cause r = record r {
  status = cancelled;
  error_code = "OPERATION_CANCELLED";
  summary = "The check was cancelled.";
}

unfoldable pub exceeded : (ℕ → String) → ℕ → ℕ → CheckResult → CheckResult
exceeded text budget elapsed r = record r {
  status = failed;
  error_code = check_timeout_code;
  summary = "The check exceeded its configured timeout.";
  evidence = ensure_check_timeout_evidence text r.id r.name budget elapsed r.evidence;
}

unfoldable pub after_run :
    (ℕ → String) → ℕ → ℕ → Check → Option Stopped → Option CtxErr → CheckResult → CheckResult
unfolding interrupted exceeded
after_run text budget elapsed check (some stop) e r = interrupted check stop.err stop.cause r
after_run text budget elapsed check none (some deadline_exceeded) r = exceeded text budget elapsed r
after_run text budget elapsed check none _ r = r

-- A result that is no outcome becomes a failure.
unfoldable pub settle : CheckResult → CheckResult
unfolding is_valid or_empty
settle r =
    if not (is_valid r.status) || (is_pending r.status || is_running r.status)
    then record r { status = failed; error_code = or_empty r.error_code "CHECK_INVALID_RESULT" }
    else r

module _ {S : Type 0} where
  unfoldable pub new : Config S → Config S
  unfolding clamp_concurrency
  new config = record config { max_concurrency = clamp_concurrency config.max_concurrency }

  -- The elapsed time is `finished.Sub(started)`.
  unfoldable pub execute : Config S → Check → Attempt S → Outcome → CheckResult
  unfolding panic_result
  execute config check a panicked = complete (panic_result check) a.started a.finished
  execute config check a (returned r) =
      let elapsed = since a.finished a.started in
      let seen =
        after_run config.duration_string config.check_timeout elapsed check a.exit a.check_err
          (named check r) in
      complete (settle seen) a.started a.finished

  abbrev pub skip_answer : Option (S → Check → Option CheckResult) → S → Check → Option CheckResult
  skip_answer none state check = none
  skip_answer (some f) state check = f state check

  unfoldable pub skip_or_execute : Config S → Check → Attempt S → Option CheckResult → CheckResult
  unfolding execute
  skip_or_execute config check a (some r) = complete (named check r) a.started a.finished
  skip_or_execute config check a none = execute config check a a.outcome

  unfoldable pub enter : Config S → Check → Attempt S → Option Stopped → CheckResult
  unfolding skip_or_execute
  enter config check a (some stop) = stopped_result check a.started stop.cause
  enter config check a none =
      skip_or_execute config check a (skip_answer config.skip_check a.state check)

  unfoldable pub run_check : Config S → Check → Attempt S → CheckResult
  unfolding enter
  run_check config check a = enter config check a a.entry
