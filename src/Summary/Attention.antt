-- ===== src/Summary/Attention.antt =====
-- The candidates that ask for attention only, and the one for a diagnosis that is complete.
use Prim.Native.String.{◌++◌ as str_append}
use orynelo.Prelude.{
  List, [], ◌∷◌, map, Option, none, some, Bool, true, false, not, ◌&&◌, ◌==◌, name_equality,
  number_equality, if◌then◌else◌, keep,
}
use orynelo.Model.{passed, warning, skipped, not_applicable, status_equality, CheckResult}
use orynelo.Summary.Facts.{DiagnosticFacts, is_auxiliary_preflight}
use orynelo.Summary.Searches.{
  last_with_status, has_evidence_code, transport_passed, all_with_status,
  only_skipped_or_not_applicable,
}
use orynelo.Summary.Candidate.{Candidate, Texts, informational, degraded, candidate}
use orynelo.Summary.Layers.{for_some}

abbrev proxy_disabled_texts : Texts
proxy_disabled_texts = record {
  title = "Direct connection works with proxy disabled";
  description =
      str_append
        "A proxy would normally be selected, but this run disabled proxy use and the direct transport succeeded. "
        "This run alone does not prove that the proxy is faulty.";
  recommendation = "Compare a proxy-enabled run and verify proxy reachability and policy.";
}

abbrev proxy_selected_texts : Texts
proxy_selected_texts = record {
  title = "Proxy selected";
  description = "Environment rules selected a proxy, but no actual HTTP result was recorded.";
  recommendation =
      "Confirm that using this proxy is intended and review why the HTTP check did not run.";
}

abbrev is_none : Option CheckResult → Bool
is_none none = true
is_none (some r) = false

abbrev pub proxy_is_disabled : DiagnosticFacts → CheckResult → Bool
proxy_is_disabled facts r = has_evidence_code r "PROXY_DISABLED" && transport_passed facts.results

abbrev pub proxy_is_unused : DiagnosticFacts → Bool
proxy_is_unused facts = facts.proxy_selected && is_none facts.http

abbrev pub proxy_candidates_of : DiagnosticFacts → Option CheckResult → List Candidate
proxy_candidates_of facts none = []
proxy_candidates_of facts (some r) =
    if proxy_is_disabled facts r
    then candidate degraded 650 warning proxy_disabled_texts (r ∷ []) ∷ []
    else if proxy_is_unused facts
    then candidate degraded 400 warning proxy_selected_texts (r ∷ []) ∷ []
    else []

-- `addProxyCandidates`
unfoldable pub proxy_candidates : DiagnosticFacts → List Candidate
unfolding has_evidence_code transport_passed candidate
proxy_candidates facts = proxy_candidates_of facts facts.proxy

abbrev warning_texts : Texts
warning_texts = record {
  title = "Diagnosis completed with warnings";
  description =
      "The target may be reachable, but a check recorded a condition that deserves attention.";
  recommendation = "Review the recorded warning evidence and address the observed condition.";
}

abbrev pub warning_candidate : CheckResult → Candidate
warning_candidate r = candidate degraded 50 warning warning_texts (r ∷ [])

abbrev pub needs_attention : DiagnosticFacts → CheckResult → Bool
needs_attention facts r = r.status == warning && not (is_auxiliary_preflight facts r)

-- `addGenericWarningCandidates`
unfoldable pub generic_warning_candidates : DiagnosticFacts → List Candidate
unfolding is_auxiliary_preflight candidate
generic_warning_candidates facts =
    map warning_candidate (keep (needs_attention facts) facts.results)

abbrev pub not_applicable_texts : Texts
not_applicable_texts = record {
  title = "No applicable diagnostic checks";
  description =
      "Every supplied check is explicitly not applicable to this target or diagnostic mode.";
  recommendation = "Select a different diagnostic mode if these checks were expected to apply.";
}

abbrev pub skipped_texts : Texts
skipped_texts = record {
  title = "Applicable diagnostic checks were skipped";
  description =
      "At least one applicable check did not run because a prerequisite or auxiliary budget was unavailable.";
  recommendation =
      "Review the prerequisite and budget evidence before running the diagnosis again.";
}

abbrev pub completed_texts : Texts
completed_texts = record {
  title = "Diagnosis completed";
  description = "All applicable diagnostic checks completed without a failed critical check.";
  recommendation = "";
}

unfoldable pub completion_candidates : DiagnosticFacts → List Candidate
unfolding all_with_status only_skipped_or_not_applicable last_with_status candidate
completion_candidates facts =
    if all_with_status facts.results not_applicable
    then candidate informational 25 not_applicable not_applicable_texts facts.results ∷ []
    else if only_skipped_or_not_applicable facts.results
    then candidate informational 20 skipped skipped_texts facts.results ∷ []
    else for_some (λ r. candidate informational 10 passed completed_texts (r ∷ []))
        (last_with_status facts.results passed)
