-- ===== src/Summary/Searches.antt =====
-- The searches in results and their evidence (internal/diagnostics/summary/summary.go).
use orynelo.Prelude.{
  String, List, [], ◌∷◌, Option, none, some, Bool, true, false, ◌||◌, ◌==◌, name_equality,
  if◌then◌else◌, find, find_last, any, every, keep,
}
use orynelo.Prelude.Int.{ℤ, pos, negsuc}
use orynelo.Model.{
  Status, passed, warning, skipped, not_applicable, status_equality, Evidence, CheckResult,
}

abbrev pub error_check_timeout : String
error_check_timeout = "CHECK_TIMEOUT"

abbrev pub error_operation_timeout : String
error_operation_timeout = "OPERATION_TIMEOUT"

abbrev pub error_proxy_config_invalid : String
error_proxy_config_invalid = "PROXY_CONFIG_INVALID"

-- model.CheckRoleAuxiliaryDirectComparison
abbrev pub auxiliary_direct_comparison : String
auxiliary_direct_comparison = "auxiliary_direct_comparison"

-- `m[key]`, which is empty for a missing key
unfoldable pub detail : List (String × String) → String → String
detail [] key = ""
detail ((k, v) ∷ m) key = if k == key then v else detail m key

unfoldable pub by_id : List CheckResult → String → Option CheckResult
by_id results id = find (λ r. r.id == id) results

unfoldable pub first_with_status : List CheckResult → Status → Option CheckResult
first_with_status results status = find (λ r. r.status == status) results

unfoldable pub last_with_status : List CheckResult → Status → Option CheckResult
last_with_status results status = find_last (λ r. r.status == status) results

unfoldable pub first_with_error_code : List CheckResult → String → Option CheckResult
first_with_error_code results code = find (λ r. r.error_code == code) results

unfoldable pub has_evidence_code : CheckResult → String → Bool
has_evidence_code result code = any (λ e. e.code == code) result.evidence

abbrev detail_of : Option Evidence → String → String
detail_of none key = ""
detail_of (some e) key = detail e.details key

unfoldable pub evidence_detail : CheckResult → String → String → String
unfolding detail
evidence_detail result code key = detail_of (find (λ e. e.code == code) result.evidence) key

unfoldable pub evidence_detail_by_id : CheckResult → String → String → String
unfolding detail
evidence_detail_by_id result id key = detail_of (find (λ e. e.id == id) result.evidence) key

unfoldable pub all_with_status : List CheckResult → Status → Bool
all_with_status [] status = false
all_with_status (r ∷ rs) status = every (λ x. x.status == status) (r ∷ rs)

-- The loop of `onlySkippedOrNotApplicable`, with its flag.
abbrev only_skipped_from : Bool → List CheckResult → Bool
only_skipped_from has_skipped [] = has_skipped
only_skipped_from has_skipped (r ∷ rs) =
    let after_skipped = only_skipped_from true rs in
    let after_other = only_skipped_from has_skipped rs in
    if r.status == skipped
    then after_skipped
    else if r.status == not_applicable
    then after_other
    else false

unfoldable pub only_skipped_or_not_applicable : List CheckResult → Bool
only_skipped_or_not_applicable results = only_skipped_from false results

unfoldable pub is_preflight : CheckResult → Bool
is_preflight r =
    r.role == auxiliary_direct_comparison
    || r.id == "dns"
    || r.id == "route"
    || r.id == "tcp"
    || r.id == "tls"

unfoldable pub proxy_invalid_results : List CheckResult → List CheckResult
unfolding has_evidence_code
proxy_invalid_results results =
    keep
      (λ r.
        r.error_code == error_proxy_config_invalid
        || has_evidence_code r error_proxy_config_invalid)
      results

abbrev pub went_through : CheckResult → Bool
went_through r = r.status == passed || r.status == warning

abbrev second_transport : Option CheckResult → Bool
second_transport none = false
second_transport (some tcp) = went_through tcp

abbrev first_transport : Option CheckResult → Option CheckResult → Bool
first_transport (some http) tcp = went_through http
first_transport none tcp = second_transport tcp

unfoldable pub transport_passed : List CheckResult → Bool
unfolding by_id
transport_passed results = first_transport (by_id results "http") (by_id results "tcp")

unfoldable pub check_layer : String → ℤ
check_layer check_id =
    if check_id == "target"
    then pos 0
    else if check_id == "environment"
    then pos 1
    else if check_id == "dns"
    then pos 2
    else if check_id == "route"
    then pos 3
    else if check_id == "tcp"
    then pos 4
    else if check_id == "tls"
    then pos 5
    else if check_id == "http"
    then pos 6
    else negsuc 0
