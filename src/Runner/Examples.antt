-- ===== src/Runner/Examples.antt =====
-- A diagnosis of four checks, and the theorems at it.
use orynelo.Prelude.{All, ◌≡◌, refl, [], ◌∷◌, true, false, none}
use orynelo.Prelude.Int.{pos}
use orynelo.Model.{passed, CheckResult, is_terminal}
use orynelo.Network.{Observed, tcp_target}
use orynelo.Runner.Concluded.{conclude_run, conclude_run-is_terminal}
use orynelo.Engine.{Attempt, World, returned, Plan}
use orynelo.Runner.{
  ProxyState, undecided, Setup, Worlds, run_plan, RawLimits, accepted, normalize_timeouts,
  normalize_reserve, normalize_statuses, normalize_limits, within, or_default, and_then, require,
}
use orynelo.Runner.Limits.{Limits}
use orynelo.Runner.Finished.{run_plan-IsFinished}
use orynelo.Engine.Order.{IsFinished}
use orynelo.Runner.Bounds.{IsBounded, normalize_limits-IsBounded}

abbrev plan : Plan
plan =
    ((record { id = "target"; name = "Target" })
      ∷ (record { id = "environment"; name = "Environment" })
      ∷ [])
    ∷ ((record { id = "dns"; name = "DNS" }) ∷ [])
    ∷ ((record { id = "http"; name = "HTTP" }) ∷ [])
    ∷ []

abbrev setup : Setup
setup = record {
  check_timeout = 5;
  max_concurrency = 4;
  duration_string = λ n. "5s";
  ip_string = λ ip. "";
  is_http = true;
  address_matrix = false;
  selected_before = false;
  selected_after = false;
}

abbrev result : CheckResult
result = record {
  id = "";
  name = "";
  status = passed;
  role = "";
  network_refs = [];
  started_at = 0;
  finished_at = 0;
  duration = 0;
  summary = "";
  evidence = [];
  recommendations = [];
  error_code = "";
}

abbrev proxy : ProxyState
proxy = record { selected = false; validity = undecided; address_matrix = false }

abbrev attempt : Attempt ProxyState
attempt = record {
  started = 10;
  entry = none;
  state = proxy;
  outcome = returned result;
  finished = 12;
  exit = none;
  check_err = none;
}

abbrev world : World ProxyState
world = record {
  stage_entry = λ i. none;
  stopped_at = λ i. 20;
  event_at = λ i. 21;
  attempt = λ i. attempt;
}

abbrev observed : Observed
observed = record {
  target = record {
    normalized = "tcp://example.com:22";
    scheme = "";
    host = "example.com";
    port = 22;
    kind = tcp_target;
    zone = "";
  };
  probes_addresses = false;
  proxy_selected = false;
  families = [];
  routes = [];
  tcp = [];
  tls_attempts = [];
  http_hops = [];
  network_paths = [];
}

abbrev worlds : Worlds
worlds = record { recorded = λ n. observed; mandatory = world; preflight = world; actual = world }

conclude_run-is_terminal_example :
    is_terminal (conclude_run (λ n. "5s") (λ ip. "") setup worlds observed plan).status ≡ true
conclude_run-is_terminal_example =
    conclude_run-is_terminal (λ n. "5s") (λ ip. "") setup worlds observed plan

run_plan-IsFinished_example : All IsFinished (run_plan setup worlds plan).0
run_plan-IsFinished_example = run_plan-IsFinished setup worlds plan

-- Nothing is set.
abbrev raw : RawLimits
raw = record {
  timeout = pos 0;
  check_timeout = pos 0;
  valid_ip_version = true;
  valid_probe_mode = true;
  address_limit = pos 0;
  address_matrix_budget = pos 0;
  max_redirects = pos 10;
  max_redirect_location_bytes = pos 0;
  actual_http_reserve = pos 0;
  valid_method = true;
  valid_report_verbosity = true;
  valid_user_agent = true;
  certificate_warning_threshold = pos 0;
  max_concurrency = pos 0;
  body_limit = pos 0;
  expected_status_min = pos 0;
  expected_status_max = pos 0;
  latency_threshold = pos 0;
}

abbrev defaults : Limits
defaults = record {
  timeout = 15000000000;
  check_timeout = 5000000000;
  address_limit = 4;
  address_matrix_budget = 5000000000;
  max_redirects = 10;
  max_redirect_location_bytes = 8192;
  actual_http_reserve = 5000000000;
  certificate_warning_threshold = 0;
  max_concurrency = 4;
  body_limit = 65536;
  expected_status_min = 200;
  expected_status_max = 399;
  latency_threshold = 0;
}

nothing_selects_the_defaults : normalize_limits raw ≡ accepted defaults
unfolding normalize_limits normalize_timeouts normalize_reserve normalize_statuses within or_default
    and_then require
nothing_selects_the_defaults = refl

normalize_limits-IsBounded_example : IsBounded defaults
normalize_limits-IsBounded_example =
    normalize_limits-IsBounded raw defaults nothing_selects_the_defaults
