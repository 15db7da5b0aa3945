-- ===== src/Summary/Layers.antt =====
-- The candidates of the layers that `buildCandidates` itself adds, in its order.
use Prim.Native.String.{◌++◌ as str_append}
use orynelo.Prelude.{
  ℕ, String, List, [], ◌∷◌, map, Option, none, some, Bool, ◌&&◌, ◌==◌, name_equality,
  number_equality, if◌then◌else◌, ltb, keep, trim_text,
}
use orynelo.Model.{failed, cancelled, status_equality, CheckResult}
use orynelo.Summary.Facts.{DiagnosticFacts, first_relevant_check_timeout, is_relevant}
use orynelo.Summary.Searches.{
  error_check_timeout, error_operation_timeout, by_id, first_with_error_code, first_with_status,
  evidence_detail, proxy_invalid_results,
}
use orynelo.Summary.Candidate.{Candidate, Texts, interrupted, candidate, blocker}

-- A candidate for the result of a search.
abbrev pub for_some : (CheckResult → Candidate) → Option CheckResult → List Candidate
for_some f none = []
for_some f (some r) = f r ∷ []

abbrev operation_timeout_texts : Texts
operation_timeout_texts = record {
  title = "Diagnosis timed out";
  description = "The global diagnosis timeout elapsed before every stage completed.";
  recommendation =
      "Increase the global timeout or investigate the stage that consumed the available time.";
}

unfoldable pub operation_timeout_candidates : DiagnosticFacts → List Candidate
unfolding first_with_error_code blocker
operation_timeout_candidates facts =
    for_some (λ r. blocker 1000 operation_timeout_texts (r ∷ []))
      (first_with_error_code facts.results error_operation_timeout)

-- `time.Duration.String` is `duration_string`.
module _ (duration_string : ℕ → String) where
  unfoldable pub timeout_budget : CheckResult → String
  unfolding evidence_detail
  timeout_budget r =
      let budget = evidence_detail r error_check_timeout "configuredBudget" in
      if budget == "" && ltb 0 r.duration then duration_string r.duration else budget

  abbrev stage_name : CheckResult → String
  stage_name r = if trim_text r.name == "" then r.id else trim_text r.name

  unfoldable pub timeout_texts : CheckResult → Texts
  unfolding timeout_budget trim_text
  timeout_texts r = record {
    title = "Diagnostic check timed out";
    description =
        if timeout_budget r == ""
        then str_append "The "
            (str_append (stage_name r) " stage exceeded its configured per-check budget.")
        else str_append "The " (
            str_append (stage_name r) (
              str_append " stage exceeded its configured per-check budget of "
                (str_append (timeout_budget r) ".")));
    recommendation =
        "Increase the per-check timeout or investigate why this stage exhausted its budget.";
  }

  unfoldable pub check_timeout_candidates : DiagnosticFacts → List Candidate
  unfolding first_relevant_check_timeout timeout_texts blocker
  check_timeout_candidates facts =
      for_some (λ r. blocker 950 (timeout_texts r) (r ∷ [])) (first_relevant_check_timeout facts)

abbrev target_texts : Texts
target_texts = record {
  title = "Invalid target";
  description = "The target could not be validated, so no network conclusion can be made.";
  recommendation = "Correct the target syntax and include a valid host and port.";
}

-- A search whose result must have failed, and be relevant where that is asked.
abbrev pub if_some : (CheckResult → Bool) → Option CheckResult → Option CheckResult
if_some p none = none
if_some p (some r) = if p r then some r else none

unfoldable pub target_candidates : DiagnosticFacts → List Candidate
unfolding by_id blocker
target_candidates facts =
    for_some (λ r. blocker 900 target_texts (r ∷ []))
      (if_some (λ r. r.status == failed) (by_id facts.results "target"))

abbrev proxy_invalid_texts : Texts
proxy_invalid_texts = record {
  title = "Proxy configuration is invalid";
  description =
      "The configured proxy was rejected, so Orynelo did not silently fall back to a direct request.";
  recommendation = "Correct or remove the invalid proxy setting, then run the diagnosis again.";
}

abbrev pub proxy_invalid_of : List CheckResult → List Candidate
proxy_invalid_of [] = []
proxy_invalid_of (r ∷ rs) = blocker 875 proxy_invalid_texts (r ∷ rs) ∷ []

unfoldable pub proxy_invalid_candidates : DiagnosticFacts → List Candidate
unfolding proxy_invalid_results blocker
proxy_invalid_candidates facts = proxy_invalid_of (proxy_invalid_results facts.results)

abbrev dns_texts : Texts
dns_texts = record {
  title = "DNS resolution failed";
  description =
      "DNS produced no usable address for the requested IP mode. TCP reachability was therefore not tested.";
  recommendation = "Verify the hostname, resolver configuration, and expected A or AAAA records.";
}

unfoldable pub dns_candidates : DiagnosticFacts → List Candidate
unfolding by_id is_relevant blocker
dns_candidates facts =
    for_some (λ r. blocker 700 dns_texts (r ∷ []))
      (if_some (λ r. r.status == failed && is_relevant facts r) (by_id facts.results "dns"))

abbrev failure_texts : Texts
failure_texts = record {
  title = "Diagnosis detected a failure";
  description =
      "A diagnostic check failed; inspect its concrete evidence before assigning a root cause.";
  recommendation = "Review the failed check evidence and address the observed condition.";
}

abbrev pub failure_candidate : CheckResult → Candidate
failure_candidate r = blocker 100 failure_texts (r ∷ [])

unfoldable pub failure_candidates : DiagnosticFacts → List Candidate
unfolding is_relevant blocker
failure_candidates facts =
    map failure_candidate (keep (λ r. r.status == failed && is_relevant facts r) facts.results)

abbrev pub cancelled_texts : Texts
cancelled_texts = record {
  title = "Diagnosis cancelled";
  description =
      "The operation was cancelled before all diagnostic stages completed. Completed evidence remains available.";
  recommendation = "Run the diagnosis again when the full result is needed.";
}

unfoldable pub cancelled_candidates : DiagnosticFacts → List Candidate
unfolding first_with_status candidate
cancelled_candidates facts =
    for_some (λ r. candidate interrupted 500 cancelled cancelled_texts (r ∷ []))
      (first_with_status facts.results cancelled)
