-- ===== src/Summary/Http.antt =====
-- The candidates of the HTTP result: `addHTTPCandidates`.
use Prim.Native.String.{◌++◌ as str_append}
use orynelo.Prelude.{
  String, List, [], ◌∷◌, ◌++◌, Option, none, some, Bool, not, ◌&&◌, ◌||◌, ◌==◌, name_equality,
  if◌then◌else◌,
}
use orynelo.Model.{passed, warning, failed, status_equality, CheckResult}
use orynelo.Summary.Facts.{DiagnosticFacts}
use orynelo.Summary.Searches.{error_proxy_config_invalid}
use orynelo.Summary.Candidate.{
  Candidate, Texts, degraded, informational, candidate, blocker, followed_by,
}

-- `mixedRoute`, `proxyOnlyRoute`, or neither
pub data Route : Type 0 where
  mixed proxy_only direct : Route

unfoldable pub route : DiagnosticFacts → Route
route facts =
    if facts.http_route == "mixed"
    then mixed
    else if facts.http_route == "proxy" || facts.http_route == "" && facts.proxy_selected
    then proxy_only
    else direct

abbrev pub through_proxy : Route → Option CheckResult → CheckResult → List CheckResult
through_proxy direct proxy result = result ∷ []
through_proxy _ none result = result ∷ []
through_proxy _ (some proxy) result = proxy ∷ result ∷ []

unfoldable pub related : DiagnosticFacts → CheckResult → List CheckResult
unfolding route
related facts result = through_proxy (route facts) facts.proxy result ++ facts.preflight_failures

unfoldable pub discrepancy : List CheckResult → String
discrepancy [] = ""
discrepancy (r ∷ rs) =
    " Direct preflight failures describe a different or inconsistent path and are recorded as a discrepancy."

abbrev for_route : String → String → String → Route → String
for_route across through plain mixed = across
for_route across through plain proxy_only = through
for_route across through plain direct = plain

unfoldable pub redirect_texts : Route → Texts
redirect_texts route = record {
  title =
      for_route "HTTP redirect chain failed across mixed direct/proxy routes"
        "HTTP redirect chain failed through selected proxy" "HTTP redirect chain failed" route;
  description =
      for_route
        "The HTTP request used both direct and proxy routes before the redirect chain failed."
        "The proxied HTTP request repeated a URL or exceeded the configured redirect limit."
        "The HTTP endpoint repeated a URL or exceeded the configured redirect limit." route;
  recommendation = "Inspect each Location response and correct the redirect rules.";
}

unfoldable pub client_error_texts : Route → Texts
client_error_texts route = record {
  title =
      for_route "Target reachable across mixed direct/proxy routes with HTTP client error"
        "Target reachable through selected proxy with HTTP client error"
        "Target reachable with HTTP client error" route;
  description =
      for_route
        "The request used both direct and proxy routes, and the application returned an HTTP 4xx response."
        "The request completed through the selected proxy, and the application returned an HTTP 4xx response."
        "DNS, TCP, and any required TLS transport completed; the application returned an HTTP 4xx response."
        route;
  recommendation = "Verify the URL, method, access policy, and required authentication.";
}

unfoldable pub server_error_texts : Route → Texts
server_error_texts route = record {
  title =
      for_route "Target reachable across mixed direct/proxy routes with application-level error"
        "Target reachable through selected proxy with application-level error"
        "Target reachable with application-level error" route;
  description =
      for_route
        "The request used both direct and proxy routes, and the application returned an HTTP 5xx response."
        "The request completed through the selected proxy, and the application returned an HTTP 5xx response."
        "DNS, TCP, and any required TLS transport completed; the application returned an HTTP 5xx response."
        route;
  recommendation = "Inspect service health, dependencies, and server logs.";
}

abbrev pub mixed_passed_texts : Texts
mixed_passed_texts = record {
  title = "Target reachable across mixed direct/proxy routes";
  description =
      str_append "The HTTP redirect chain completed using both direct and proxy routes. "
        "Each redirect hop records the route selected by the captured proxy policy.";
  recommendation = "Confirm that each direct/proxy transition is intended for the redirect chain.";
}

abbrev pub proxy_passed_texts : Texts
proxy_passed_texts = record {
  title = "Target reachable through selected proxy";
  description =
      str_append "The HTTP request completed through the selected proxy. "
        "Direct-origin preflight failures, if any, do not describe the path used by this request.";
  recommendation = "Confirm that using this proxy is intended for the target.";
}

abbrev pub despite_failure_texts : Texts
despite_failure_texts = record {
  title = "HTTP request succeeded despite preflight failure";
  description =
      str_append "The actual HTTP request succeeded. One or more direct preflight checks failed, "
        "so those failures are a path discrepancy rather than proof that the request path was blocked.";
  recommendation =
      "Compare the actual HTTP peer and resolver path with the failed preflight evidence.";
}

abbrev pub http_completed_texts : Texts
http_completed_texts = record {
  title = "Diagnosis completed";
  description =
      "The actual HTTP request completed successfully and no blocking diagnostic fact was recorded.";
  recommendation = "";
}

unfoldable pub http_passed : DiagnosticFacts → CheckResult → List CheckResult → Route → Candidate
unfolding candidate related
http_passed facts result failures mixed =
    candidate degraded 950 warning mixed_passed_texts (related facts result)
http_passed facts result failures proxy_only =
    candidate degraded 950 warning proxy_passed_texts (related facts result)
http_passed facts result [] direct =
    candidate informational 100 passed http_completed_texts (result ∷ [])
http_passed facts result (r ∷ rs) direct =
    candidate degraded 950 warning despite_failure_texts (related facts result)

unfoldable pub http_warning_texts : Route → Texts
http_warning_texts route = record {
  title =
      for_route "Target reached across mixed direct/proxy routes with warnings"
        "Target reached through selected proxy with warnings" "HTTP request completed with warnings"
        route;
  description = "The actual HTTP request completed, but the HTTP check recorded a warning.";
  recommendation = "Review the HTTP evidence and the actual request path.";
}

unfoldable pub http_failure_texts : Route → Texts
http_failure_texts route = record {
  title =
      for_route "HTTP request across mixed direct/proxy routes failed"
        "HTTP request through selected proxy failed" "HTTP transport failed" route;
  description =
      for_route "The request used both direct and proxy routes before the HTTP transport failed."
        "The selected proxy path did not complete the HTTP request. Direct-origin preflight checks describe a different path."
        "The HTTP request did not complete. Earlier successful checks still establish which lower layers worked."
        route;
  recommendation =
      for_route "Inspect the HTTP transport error and each redirect hop's route policy."
        "Inspect the HTTP transport error, proxy reachability, and proxy policy."
        "Inspect the HTTP transport error and redirect evidence." route;
}

abbrev pub is_redirect_failure : String → Bool
is_redirect_failure code = code == "HTTP_REDIRECT_LOOP" || code == "HTTP_TOO_MANY_REDIRECTS"

abbrev pub http_fails : CheckResult → Bool
http_fails r = r.status == failed && not (r.error_code == error_proxy_config_invalid)

abbrev pub http_candidate : DiagnosticFacts → CheckResult → List Candidate
http_candidate facts result =
    let r = route facts in
    let more = discrepancy facts.preflight_failures in
    let all = related facts result in
    if is_redirect_failure result.error_code
    then blocker 850 (redirect_texts r) all ∷ []
    else if result.error_code == "HTTP_CLIENT_ERROR"
    then candidate degraded 900 warning (followed_by (client_error_texts r) more) all ∷ []
    else if result.error_code == "HTTP_SERVER_ERROR"
    then candidate degraded 900 warning (followed_by (server_error_texts r) more) all ∷ []
    else if result.status == passed
    then http_passed facts result facts.preflight_failures r ∷ []
    else if result.status == warning
    then candidate degraded 850 warning (followed_by (http_warning_texts r) more) all ∷ []
    else if http_fails result
    then blocker 550 (http_failure_texts r) all ∷ []
    else []

abbrev pub http_candidates_of : DiagnosticFacts → Option CheckResult → List Candidate
http_candidates_of facts none = []
http_candidates_of facts (some result) = http_candidate facts result

-- `addHTTPCandidates`
unfoldable pub http_candidates : DiagnosticFacts → List Candidate
unfolding route related discrepancy redirect_texts client_error_texts server_error_texts http_passed
    http_warning_texts http_failure_texts blocker candidate
http_candidates facts = http_candidates_of facts facts.http
