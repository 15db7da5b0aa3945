-- ===== src/Network/Examples.antt =====
-- A diagnosis that observed two DNS families and a TCP connection.
use orynelo.Prelude.{◌≡◌, refl, String, List, [], ◌∷◌, map, true, false, none, All, Text}
use orynelo.Model.{CheckResult, Evidence, passed}
use orynelo.Network.{
  initial_direct_path, Observed, http_target, correlated_paths, correlated_network_result,
  merge_into, new_hop, direct_path_id, origin_hop_id, completed, DnsFamilyResult, TcpAttempt,
}
use orynelo.Network.Recorded.{IsMerged, merge_into-IsMerged}
use orynelo.Network.Origin.{HasPath, correlated_paths-HasPath}
use orynelo.Network.Results.{IsReferring, outline, correlated_network_result-IsReferring}

abbrev ip : Text → String
ip address = "192.0.2.1"

abbrev family : String → DnsFamilyResult
family name = record {
  network_ref = none;
  family = name;
  was_cancelled = false;
  duration = 3;
  error_code = "";
  error = "";
}

abbrev connection : TcpAttempt
connection = record {
  network_ref = none;
  remote_ip = 192 ∷ 0 ∷ 2 ∷ 1 ∷ [];
  local_addr = "";
  duration = 4;
  error_code = "";
  error = "";
  state = completed;
  selected = true;
}

abbrev observed : Observed
observed = record {
  target = record {
    normalized = "https://example.com/";
    scheme = "https";
    host = "example.com";
    port = 443;
    kind = http_target;
    zone = "";
  };
  probes_addresses = false;
  proxy_selected = false;
  families = family "ipv4" ∷ family "ipv6" ∷ [];
  routes = [];
  tcp = connection ∷ [];
  tls_attempts = [];
  http_hops = [];
  network_paths = [];
}

abbrev evidence : Evidence
evidence = record {
  id = "tcp.1";
  check_id = "tcp";
  network_ref = none;
  code = "TCP_ATTEMPT";
  message = "";
  details = [];
}

abbrev checks : List CheckResult
checks =
    (record {
      id = "tcp";
      name = "TCP";
      status = passed;
      role = "";
      network_refs = [];
      started_at = 1;
      finished_at = 2;
      duration = 1;
      summary = "";
      evidence = evidence ∷ [];
      recommendations = [];
      error_code = "";
    })
    ∷ []

-- The attempts are sorted by name, and the connection was selected.
merged_names :
    map (λ a. a.id) (merge_into ip observed (new_hop direct_path_id origin_hop_id)).attempts
    ≡ "attempt-dns-001" ∷ "attempt-dns-002" ∷ "attempt-tcp-001" ∷ []
unfolding merge_into
merged_names = refl

merged_selection :
    (merge_into ip observed (new_hop direct_path_id origin_hop_id)).selected_attempt_id
    ≡ "attempt-tcp-001"
unfolding merge_into
merged_selection = refl

merge_into-IsMerged_example :
    IsMerged ip observed
      (new_hop direct_path_id origin_hop_id)
      (merge_into ip observed (new_hop direct_path_id origin_hop_id))
merge_into-IsMerged_example = merge_into-IsMerged ip observed (new_hop direct_path_id origin_hop_id)

correlated_paths-HasPath_example :
    HasPath ip observed [] direct_path_id origin_hop_id (correlated_paths ip observed)
unfolding initial_direct_path
correlated_paths-HasPath_example = correlated_paths-HasPath ip observed

correlated_network_result-IsReferring_example :
    All IsReferring (correlated_network_result ip observed checks).1
    × (map outline (correlated_network_result ip observed checks).1 ≡ map outline checks)
correlated_network_result-IsReferring_example =
    correlated_network_result-IsReferring ip observed checks
