-- ===== src/Runner/Bounds.antt =====
-- The ranges of the options that a diagnosis runs with.
use orynelo.Prelude.{ℕ, ◌≤◌, ◌<◌, ◌≡◌, arith}
use orynelo.Runner.Limits.{
  accepted, and_then, RawLimits, Limits, normalize_limits, require, maximum_diagnostic_timeout,
  within, or_default, normalize_timeouts, normalize_reserve, normalize_statuses,
}

abbrev pub AreTimeouts : ℕ × ℕ → Type 0
AreTimeouts (timeout, check) =
    (timeout ≤ maximum_diagnostic_timeout) × (0 < check) × (check ≤ timeout)

abbrev pub AreStatuses : ℕ × ℕ → Type 0
AreStatuses (least, most) = (100 ≤ least) × (least ≤ most) × (most ≤ 599)

-- The ranges of all limits.
pub record IsBounded (l : Limits) : Type 0 where
  pub timeouts : AreTimeouts (l.timeout, l.check_timeout)
  pub addresses : (1 ≤ l.address_limit) × (l.address_limit ≤ 16)
  pub budget : (0 < l.address_matrix_budget) × (l.address_matrix_budget ≤ l.timeout)
  pub redirects : l.max_redirects ≤ 50
  pub location : (1 ≤ l.max_redirect_location_bytes) × (l.max_redirect_location_bytes ≤ 65536)
  pub reserve : l.actual_http_reserve < l.timeout
  pub certificate : l.certificate_warning_threshold ≤ 31536000000000000
  pub concurrency : (1 ≤ l.max_concurrency) × (l.max_concurrency ≤ 32)
  pub body : (1 ≤ l.body_limit) × (l.body_limit ≤ 4194304)
  pub statuses : AreStatuses (l.expected_status_min, l.expected_status_max)
  pub latency : l.latency_threshold ≤ maximum_diagnostic_timeout

-- Options that are accepted are in range: the time limits are positive, at most a day, and a check's
-- is within the whole; the reserve is shorter than the whole, and the budget of the address matrix
-- is positive and within it; every count and size is between its bounds, and the expected statuses
-- are an interval within those from 100 to 599.
pub normalize_limits-IsBounded :
    (o : RawLimits) (l : Limits) → normalize_limits o ≡ accepted l → IsBounded l
unfolding normalize_limits normalize_timeouts and_then require within or_default normalize_reserve
    normalize_statuses
normalize_limits-IsBounded o l h = record {
  timeouts = ground arith;
  addresses = ground arith;
  budget = ground arith;
  redirects = ground arith;
  location = ground arith;
  reserve = ground arith;
  certificate = ground arith;
  concurrency = ground arith;
  body = ground arith;
  statuses = ground arith;
  latency = ground arith;
}
