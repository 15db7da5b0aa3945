-- ===== src/Runner/Policy.antt =====
-- `skipInvalidProxyDirectCheck` and `markHTTPPreflightAuxiliary`.
use Prim.Native.String.{◌++◌ as str_append}
use orynelo.Prelude.{
  String, List, [], ◌∷◌, ◌++◌, map, Bool, true, ◌&&◌, ◌||◌, not, ◌==◌, name_equality, Option, none,
  some, if◌then◌else◌,
}
use orynelo.Model.{CheckResult, Evidence, NetworkRef, skipped, CheckEvent}
use orynelo.Engine.{Check}

-- `ProxySelectionValidity`; the empty text, which says that no selection was made, is `undecided`.
pub data ProxySelectionValidity : Type 0 where
  undecided not_configured valid invalid not_applicable : ProxySelectionValidity

-- What the policy reads of the state.
pub record ProxyState : Type 0 where
  pub selected : Bool
  pub validity : ProxySelectionValidity
  pub address_matrix : Bool

-- The checks of the direct route to the origin.
abbrev pub is_direct : String → Bool
is_direct id = id == "dns" || id == "route" || id == "tcp" || id == "tls"

abbrev pub origin : NetworkRef
origin = record { path_id = "path-direct"; hop_id = "hop-origin"; attempt_id = "" }

abbrev pub skip_with : Check → String → String → List NetworkRef → Evidence → CheckResult
skip_with check summary error_code refs e = record {
  id = check.id;
  name = check.name;
  status = skipped;
  role = "";
  network_refs = refs;
  started_at = 0;
  finished_at = 0;
  duration = 0;
  summary = summary;
  evidence = e ∷ [];
  recommendations = [];
  error_code = error_code;
}

abbrev pub policy_evidence : Check → String → String → Evidence
policy_evidence check code message = record {
  id = str_append check.id ".proxy_policy";
  check_id = check.id;
  network_ref = none;
  code = code;
  message = message;
  details = [];
}

unfoldable pub not_selected : Check → CheckResult
not_selected check =
    skip_with check "The direct-origin comparison was not selected in client-effective proxy mode."
      "" (origin ∷ [])
      (record {
        id = str_append check.id ".client_effective_proxy";
        check_id = "";
        network_ref = some origin;
        code = "DIRECT_PROBE_NOT_SELECTED";
        message =
            "Only the actual proxy route was exercised; enable address-matrix mode for a direct-origin comparison.";
        details = [];
      })

unfoldable pub unresolved : Check → CheckResult
unresolved check =
    skip_with check "The direct-origin check was skipped because proxy selection did not complete."
      "PROXY_SELECTION_UNAVAILABLE" []
      (policy_evidence check "PROXY_SELECTION_UNAVAILABLE"
        "No direct-origin network operation was started while proxy policy was unresolved.")

unfoldable pub misconfigured : Check → CheckResult
misconfigured check =
    skip_with check "The direct-origin check was skipped because proxy configuration is invalid."
      "PROXY_CONFIG_INVALID" []
      (policy_evidence check "PROXY_CONFIG_INVALID"
        "No direct-origin network operation was started while the configured proxy was invalid.")

-- `skipInvalidProxyDirectCheck`
unfoldable pub skip_invalid_proxy_direct_check : ProxyState → Check → Option CheckResult
unfolding not_selected unresolved misconfigured
skip_invalid_proxy_direct_check proxy check =
    if proxy.selected && not proxy.address_matrix && is_direct check.id
    then some (not_selected check)
    else elim proxy.validity [
      | not_configured ↦ none
      | valid ↦ none
      | not_applicable ↦ none
      | undecided ↦ if is_direct check.id then some (unresolved check) else none
      | invalid ↦ if is_direct check.id then some (misconfigured check) else none
    ]

abbrev pub auxiliary_role : String
auxiliary_role = "auxiliary_direct_comparison"

abbrev pub auxiliary_message : Bool → String
auxiliary_message proxy_selected =
    if proxy_selected
    then "This direct-origin probe is an auxiliary comparison, not the selected proxy route."
    else "This short-lived direct preflight is separate from the connection selected by the actual HTTP transport."

abbrev pub auxiliary_evidence : Bool → String → Evidence
auxiliary_evidence proxy_selected id = record {
  id = str_append id ".auxiliary_role";
  check_id = id;
  network_ref = none;
  code = "AUXILIARY_DIRECT_COMPARISON";
  message = auxiliary_message proxy_selected;
  details =
      ("role", auxiliary_role)
      ∷ ("route", if proxy_selected then "direct_origin_comparison" else "direct_origin_preflight")
      ∷ [];
}

unfoldable pub mark_result : Bool → CheckResult → CheckResult
mark_result proxy_selected r =
    if is_direct r.id
    then record r {
      role = auxiliary_role;
      evidence = r.evidence ++ auxiliary_evidence proxy_selected r.id ∷ [];
    }
    else r

-- `markHTTPPreflightAuxiliary`
unfoldable pub mark_http_preflight_auxiliary : Bool → List CheckResult → List CheckResult
unfolding mark_result
mark_http_preflight_auxiliary proxy_selected results = map (mark_result proxy_selected) results

-- `markProxyPreflightAuxiliary`
unfoldable pub mark_proxy_preflight_auxiliary : Bool → List CheckResult → List CheckResult
unfolding mark_http_preflight_auxiliary
mark_proxy_preflight_auxiliary selected results =
    if selected then mark_http_preflight_auxiliary true results else results

-- `auxiliaryPreflightEventSink`, for one event.
unfoldable pub auxiliary_preflight_event : Bool → CheckEvent → CheckEvent
unfolding mark_http_preflight_auxiliary
auxiliary_preflight_event proxy_selected e = elim e.result [
  | none ↦ e
  | some r ↦ record e { result = some (mark_result proxy_selected r) }
]
