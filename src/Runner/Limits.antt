-- ===== src/Runner/Limits.antt =====
-- `normalizeOptions`: the limits of a diagnosis. What the code finds out about the texts among the
-- options (the IP version, the probe mode, the method, the verbosity and the user agent) are flags.
use Prim.Native.Nat.{◌/◌}
use orynelo.Prelude.Int.{ℤ, pos, negsuc, pos_part}
use orynelo.Prelude.{true, false, ℕ, ◌*◌, String, Bool, ◌||◌, ltb, leb, eqb, min, if◌then◌else◌}

-- A result, or the code of an `InputError`.
pub data Checked (A : Type 0) : Type 0 where
  accepted : A → Checked A
  input_error : String → Checked A

unfoldable pub and_then : {A B : Type 0} → Checked A → (A → Checked B) → Checked B
and_then (accepted a) f = f a
and_then (input_error code) f = input_error code

pub record RawLimits : Type 0 where
  pub timeout : ℤ
  pub check_timeout : ℤ
  pub valid_ip_version : Bool
  pub valid_probe_mode : Bool
  pub address_limit : ℤ
  pub address_matrix_budget : ℤ
  pub max_redirects : ℤ
  pub max_redirect_location_bytes : ℤ
  pub actual_http_reserve : ℤ
  pub valid_method : Bool
  pub valid_report_verbosity : Bool
  pub valid_user_agent : Bool
  pub certificate_warning_threshold : ℤ
  pub max_concurrency : ℤ
  pub body_limit : ℤ
  pub expected_status_min : ℤ
  pub expected_status_max : ℤ
  pub latency_threshold : ℤ

pub record Limits : Type 0 where
  pub timeout : ℕ
  pub check_timeout : ℕ
  pub address_limit : ℕ
  pub address_matrix_budget : ℕ
  pub max_redirects : ℕ
  pub max_redirect_location_bytes : ℕ
  pub actual_http_reserve : ℕ
  pub certificate_warning_threshold : ℕ
  pub max_concurrency : ℕ
  pub body_limit : ℕ
  pub expected_status_min : ℕ
  pub expected_status_max : ℕ
  pub latency_threshold : ℕ

abbrev pub second : ℕ
second = 1000000000

-- `maximumDiagnosticTimeout`, 24 hours.
abbrev pub maximum_diagnostic_timeout : ℕ
maximum_diagnostic_timeout = 86400000000000

abbrev pub is_negative : ℤ → Bool
is_negative (negsuc n) = true
is_negative (pos n) = false

-- A number from 0 to a maximum.
unfoldable pub within : String → ℕ → ℤ → Checked ℕ
within code maximum z =
    if is_negative z
    then input_error code
    else if ltb maximum (pos_part z)
    then input_error code
    else accepted (pos_part z)

-- The zero value selects the default.
unfoldable pub or_default : ℕ → ℕ → ℕ
or_default n default = if eqb n 0 then default else n

unfoldable pub require : {A : Type 0} → String → Bool → Checked A → Checked A
require code valid rest = if valid then rest else input_error code

abbrev pub check_times : ℕ → ℕ → Checked (ℕ × ℕ)
check_times timeout check =
    let global = or_default timeout (15 * second) in
    let single = or_default check (5 * second) in
    if ltb global single then input_error "INVALID_CHECK_TIMEOUT" else accepted (global, single)

-- The time limits of the diagnosis and of a check.
unfoldable pub normalize_timeouts : RawLimits → Checked (ℕ × ℕ)
unfolding and_then within or_default
normalize_timeouts o =
    and_then (within "INVALID_TIMEOUT" maximum_diagnostic_timeout o.timeout) λ timeout.
      and_then (within "INVALID_CHECK_TIMEOUT" maximum_diagnostic_timeout o.check_timeout)
        (check_times timeout)

-- A reserve for the actual request: none given selects that of a check, up to a third of the whole.
unfoldable pub normalize_reserve : ℕ → ℕ → ℤ → Checked ℕ
normalize_reserve timeout check_timeout z =
    if is_negative z || leb timeout (pos_part z)
    then input_error "INVALID_ACTUAL_HTTP_RESERVE"
    else if eqb (pos_part z) 0
    then accepted (if ltb (timeout / 3) check_timeout then timeout / 3 else check_timeout)
    else accepted (pos_part z)

unfoldable pub normalize_statuses : ℤ → ℤ → Checked (ℕ × ℕ)
unfolding or_default
normalize_statuses low high =
    let least = or_default (pos_part low) 200 in
    let most = or_default (pos_part high) 399 in
    if is_negative low
      || is_negative high
      || (ltb least 100 || ltb 599 least || ltb most 100 || ltb 599 most || ltb most least)
    then input_error "INVALID_EXPECTED_STATUS"
    else accepted (least, most)

-- `normalizeOptions`, in the order of its checks.
unfoldable pub normalize_limits : RawLimits → Checked Limits
unfolding and_then require normalize_timeouts within or_default normalize_reserve normalize_statuses
normalize_limits o = and_then (normalize_timeouts o) λ times.
    require "INVALID_IP_VERSION" o.valid_ip_version (
      require "INVALID_PROBE_MODE" o.valid_probe_mode (
        and_then (within "INVALID_ADDRESS_LIMIT" 16 o.address_limit) λ addresses.
          and_then
            (within "INVALID_ADDRESS_MATRIX_BUDGET" maximum_diagnostic_timeout
              o.address_matrix_budget)
            λ budget. and_then (within "INVALID_MAX_REDIRECTS" 50 o.max_redirects) λ redirects.
              and_then
                (within "INVALID_REDIRECT_LOCATION_LIMIT" 65536 o.max_redirect_location_bytes)
                λ location.
                  and_then (normalize_reserve times.0 times.1 o.actual_http_reserve) λ reserve.
                    require "INVALID_HTTP_METHOD" o.valid_method (
                      require "INVALID_REPORT_VERBOSITY" o.valid_report_verbosity (
                        require "INVALID_USER_AGENT" o.valid_user_agent (
                          and_then
                            (within "INVALID_CERTIFICATE_WARNING_THRESHOLD" 31536000000000000
                              o.certificate_warning_threshold)
                            λ certificate.
                              and_then (within "INVALID_CONCURRENCY" 32 o.max_concurrency)
                                λ concurrency.
                                  and_then (within "INVALID_BODY_LIMIT" 4194304 o.body_limit)
                                    λ body.
                                      and_then
                                        (normalize_statuses o.expected_status_min
                                          o.expected_status_max)
                                        λ statuses.
                                          and_then
                                            (within "INVALID_LATENCY_THRESHOLD"
                                              maximum_diagnostic_timeout o.latency_threshold)
                                            λ latency. accepted (record {
                                              timeout = times.0;
                                              check_timeout = times.1;
                                              address_limit = or_default addresses 4;
                                              address_matrix_budget =
                                                  min (or_default budget (5 * second)) times.0;
                                              max_redirects = redirects;
                                              max_redirect_location_bytes =
                                                  or_default location 8192;
                                              actual_http_reserve = reserve;
                                              certificate_warning_threshold = certificate;
                                              max_concurrency = or_default concurrency 4;
                                              body_limit = or_default body 65536;
                                              expected_status_min = statuses.0;
                                              expected_status_max = statuses.1;
                                              latency_threshold = latency;
                                            }))))))
