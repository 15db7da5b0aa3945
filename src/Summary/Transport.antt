-- ===== src/Summary/Transport.antt =====
-- The candidates of the layers below HTTP: `addTCPCandidates` and `addTLSCandidates`.
use Prim.Native.String.{◌++◌ as str_append}
use orynelo.Prelude.{
  String, List, [], ◌∷◌, Option, none, some, Bool, not, ◌&&◌, ◌||◌, ◌==◌, name_equality,
  if◌then◌else◌,
}
use orynelo.Model.{warning, failed, status_equality, CheckResult}
use orynelo.Summary.Facts.{
  DiagnosticFacts, FamilyOutcomes, tcp_families, is_preflight_discrepancy, is_auxiliary_preflight,
  check_timeout_superseded,
}
use orynelo.Summary.Searches.{by_id}
use orynelo.Summary.Candidate.{Candidate, Texts, degraded, severe, candidate, blocker}

abbrev only_v4_texts : Texts
only_v4_texts = record {
  title = "IPv4 reachable; IPv6 connection failed";
  description =
      str_append "TCP connected over IPv4, while every attempted IPv6 address failed. "
        "This supports an IPv6-specific path or listener issue.";
  recommendation =
      str_append "Compare IPv6 routing, packet filtering, and service listeners "
        "with the working IPv4 path.";
}

abbrev only_v6_texts : Texts
only_v6_texts = record {
  title = "IPv6 reachable; IPv4 connection failed";
  description =
      str_append "TCP connected over IPv6, while every attempted IPv4 address failed. "
        "This supports an IPv4-specific path or listener issue.";
  recommendation =
      str_append "Compare IPv4 routing, packet filtering, and service listeners "
        "with the working IPv6 path.";
}

abbrev mixed_texts : Texts
mixed_texts = record {
  title = "Mixed TCP results";
  description =
      "TCP outcomes differ across the resolved addresses. The evidence does not support a single host-wide cause.";
  recommendation =
      "Compare the failed addresses, IP families, routes, and service listeners with successful attempts.";
}

unfoldable pub tcp_failure_texts : String → Texts
tcp_failure_texts error_code =
    if error_code == "TCP_CONNECTION_REFUSED"
    then record {
      title = "TCP connections refused";
      description =
          "Every resolved address actively refused the TCP connection. This is consistent with no service listening on the target port or an explicit reject policy.";
      recommendation = "Verify the service listener, target port, and any explicit reject rules.";
    }
    else if error_code == "TCP_TIMEOUT"
    then record {
      title = "TCP connections timed out";
      description =
          "Every TCP connection attempt timed out. This is consistent with packet filtering, an unavailable route, or a silent remote host.";
      recommendation =
          "Check routing and filtering on both paths, then verify that the remote host is available.";
    }
    else if error_code == "TCP_OTHER"
    then mixed_texts
    else record {
      title = "TCP connection failed";
      description =
          "TCP did not connect to any resolved address. The recorded operating-system errors narrow the next investigation.";
      recommendation = "Inspect the per-address errors, routing, filtering, and service listener.";
    }

abbrev pub only_v4 : FamilyOutcomes → Bool
only_v4 f = f.v4_success && f.v6_failure && not f.v6_success

abbrev pub only_v6 : FamilyOutcomes → Bool
only_v6 f = f.v6_success && f.v4_failure && not f.v4_success

unfoldable pub tcp_warning : FamilyOutcomes → CheckResult → Candidate
unfolding candidate
tcp_warning families result =
    if only_v4 families
    then candidate degraded 700 warning only_v4_texts (result ∷ [])
    else if only_v6 families
    then candidate degraded 700 warning only_v6_texts (result ∷ [])
    else candidate degraded 600 warning mixed_texts (result ∷ [])

abbrev pub tcp_fails : DiagnosticFacts → CheckResult → Bool
tcp_fails facts result =
    result.status == failed
    && not (is_preflight_discrepancy facts result)
    && not (check_timeout_superseded facts result)

abbrev pub tcp_candidates_of : DiagnosticFacts → Option CheckResult → List Candidate
tcp_candidates_of facts none = []
tcp_candidates_of facts (some result) =
    if is_auxiliary_preflight facts result
    then []
    else if result.status == warning
    then tcp_warning (tcp_families result) result ∷ []
    else if tcp_fails facts result
    then blocker 650 (tcp_failure_texts result.error_code) (result ∷ []) ∷ []
    else []

-- `addTCPCandidates`
unfoldable pub tcp_candidates : DiagnosticFacts → List Candidate
unfolding by_id tcp_families is_auxiliary_preflight is_preflight_discrepancy
    check_timeout_superseded tcp_warning tcp_failure_texts blocker
tcp_candidates facts = tcp_candidates_of facts (by_id facts.results "tcp")

-- The certificate errors that have a conclusion of their own.
unfoldable pub certificate_texts : String → Option Texts
certificate_texts error_code =
    if error_code == "TLS_CERTIFICATE_EXPIRED"
    then some (record {
      title = "TLS certificate expired";
      description =
          "The peer certificate is outside its validity period because its expiration time has passed.";
      recommendation = "Renew and deploy the certificate, then verify the served chain.";
    })
    else if error_code == "TLS_HOSTNAME_MISMATCH"
    then some (record {
      title = "TLS hostname mismatch";
      description = "The peer certificate SAN does not cover the requested hostname.";
      recommendation = "Use the intended hostname or deploy a certificate whose SAN covers it.";
    })
    else if error_code == "TLS_UNKNOWN_AUTHORITY"
    then some (record {
      title = "TLS chain is not trusted";
      description =
          "The system trust verifier could not build the peer certificate chain to a trusted authority.";
      recommendation =
          "Verify the intended trust root and that the server sends required intermediate certificates.";
    })
    else if error_code == "TLS_CERTIFICATE_NOT_YET_VALID"
    then some (record {
      title = "TLS certificate not yet valid";
      description = "The certificate validity period has not started according to the local clock.";
      recommendation = "Check system time and the certificate deployment schedule.";
    })
    else none

abbrev pub negotiation_texts : Texts
negotiation_texts = record {
  title = "TLS negotiation failed";
  description = "TCP connected, but TLS negotiation or verification did not complete successfully.";
  recommendation =
      "Inspect the recorded TLS error, protocol support, and certificate configuration.";
}

abbrev pub tls_by_code : CheckResult → Option Texts → List Candidate
tls_by_code result (some texts) =
    candidate (if result.status == failed then severe else degraded) 800 result.status texts
      (result ∷ [])
    ∷ []
tls_by_code result none =
    if result.status == failed
    then candidate severe 600 result.status negotiation_texts (result ∷ []) ∷ []
    else []

abbrev pub tls_is_excused : DiagnosticFacts → CheckResult → Bool
tls_is_excused facts result =
    result.status == failed
    && (is_preflight_discrepancy facts result || check_timeout_superseded facts result)

abbrev pub tls_candidates_of : DiagnosticFacts → Option CheckResult → List Candidate
tls_candidates_of facts none = []
tls_candidates_of facts (some result) =
    if is_auxiliary_preflight facts result
    then []
    else if tls_is_excused facts result
    then []
    else tls_by_code result (certificate_texts result.error_code)

-- `addTLSCandidates`
unfoldable pub tls_candidates : DiagnosticFacts → List Candidate
unfolding by_id is_auxiliary_preflight is_preflight_discrepancy check_timeout_superseded
    certificate_texts candidate
tls_candidates facts = tls_candidates_of facts (by_id facts.results "tls")
