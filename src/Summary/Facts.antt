-- ===== src/Summary/Facts.antt =====
-- `diagnosticFacts` of internal/diagnostics/summary/summary.go, what a conclusion is drawn from, with
-- its predicates.
use orynelo.Prelude.{
  String, List, [], ◌∷◌, Option, none, some, Bool, true, false, not, ◌&&◌, ◌||◌, ◌==◌,
  name_equality, if◌then◌else◌, find, any, keep, equal_fold,
}
use orynelo.Prelude.Int.{pos, ltb_ℤ}
use orynelo.Model.{failed, status_equality, Evidence, CheckResult}
use orynelo.Summary.Searches.{
  auxiliary_direct_comparison, by_id, check_layer, detail, error_check_timeout,
  evidence_detail_by_id, has_evidence_code, is_preflight, went_through,
}

-- `familyOutcomes`
pub record FamilyOutcomes : Type 0 where
  pub v4_success : Bool
  pub v4_failure : Bool
  pub v6_success : Bool
  pub v6_failure : Bool

abbrev add_attempt : Bool → String → FamilyOutcomes → FamilyOutcomes
add_attempt success family out =
    if family == "ipv4"
    then record out {
      v4_success = out.v4_success || success;
      v4_failure = out.v4_failure || not success;
    }
    else if family == "ipv6"
    then record out {
      v6_success = out.v6_success || success;
      v6_failure = out.v6_failure || not success;
    }
    else out

abbrev families_from : FamilyOutcomes → List Evidence → FamilyOutcomes
families_from out [] = out
families_from out (e ∷ es) =
    families_from
      (if e.code == "TCP_ATTEMPT"
        then add_attempt (equal_fold (detail e.details "success") "true")
            (detail e.details "family") out
        else out)
      es

unfoldable pub tcp_families : CheckResult → FamilyOutcomes
unfolding detail equal_fold
tcp_families result =
    families_from
      (record { v4_success = false; v4_failure = false; v6_success = false; v6_failure = false })
      result.evidence

-- `diagnosticFacts`
pub record DiagnosticFacts : Type 0 where
  pub results : List CheckResult
  pub proxy : Option CheckResult
  pub http : Option CheckResult
  pub proxy_selected : Bool
  pub http_route : String
  pub http_reached : Bool
  pub preflight_failures : List CheckResult

abbrev proxy_says : Option CheckResult → Bool
proxy_says none = false
proxy_says (some proxy) = has_evidence_code proxy "PROXY_SELECTED"

abbrev route_of : Option CheckResult → String
route_of none = ""
route_of (some http) = evidence_detail_by_id http "http.response" "route"

abbrev pub is_reached : Option CheckResult → Bool
is_reached none = false
is_reached (some http) = went_through http

abbrev pub is_failed_preflight : CheckResult → Bool
is_failed_preflight r = is_preflight r && r.status == failed

-- The route that the HTTP check took overrules the selection before it.
abbrev route_selects : String → Bool → Bool
route_selects route selected =
    if route == "proxy" || route == "mixed"
    then true
    else if route == "direct" || route == "blocked_by_proxy_policy"
    then false
    else selected

unfoldable pub collect_facts : List CheckResult → DiagnosticFacts
unfolding by_id has_evidence_code evidence_detail_by_id is_preflight
collect_facts results =
    let proxy = by_id results "environment" in
    let http = by_id results "http" in
    record {
      results = results;
      proxy = proxy;
      http = http;
      proxy_selected = route_selects (route_of http) (proxy_says proxy);
      http_route = route_of http;
      http_reached = is_reached http;
      preflight_failures = if is_reached http then keep is_failed_preflight results else [];
    }

abbrev is_present : Option CheckResult → Bool
is_present none = false
is_present (some r) = true

unfoldable pub is_preflight_discrepancy : DiagnosticFacts → CheckResult → Bool
unfolding is_preflight
is_preflight_discrepancy facts r = facts.http_reached && r.status == failed && is_preflight r

unfoldable pub is_auxiliary_preflight : DiagnosticFacts → CheckResult → Bool
unfolding is_preflight
is_auxiliary_preflight facts r =
    is_present facts.http
    && (r.role == auxiliary_direct_comparison || facts.proxy_selected && is_preflight r)

unfoldable pub check_timeout_superseded : DiagnosticFacts → CheckResult → Bool
unfolding check_layer is_auxiliary_preflight
check_timeout_superseded facts r =
    r.error_code == error_check_timeout
    && not (ltb_ℤ (check_layer r.id) (pos 0))
    && any
        (λ c.
          c.status == failed
          && not (is_auxiliary_preflight facts c)
          && ltb_ℤ (check_layer r.id) (check_layer c.id))
        facts.results

-- Neither a discrepancy, nor auxiliary, nor superseded.
unfoldable pub is_relevant : DiagnosticFacts → CheckResult → Bool
unfolding is_preflight_discrepancy is_auxiliary_preflight check_timeout_superseded
is_relevant facts r =
    not (is_preflight_discrepancy facts r)
    && not (is_auxiliary_preflight facts r)
    && not (check_timeout_superseded facts r)

unfoldable pub first_relevant_check_timeout : DiagnosticFacts → Option CheckResult
unfolding is_relevant
first_relevant_check_timeout facts =
    find (λ r. r.error_code == error_check_timeout && is_relevant facts r) facts.results
