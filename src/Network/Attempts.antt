-- ===== src/Network/Attempts.antt =====
-- `mergeLegacyAttempts`: the observations become attempts of the origin's hop. Durations are not
-- negative. The map `seen` of the code holds the names of the hop's attempts, which are looked up in
-- the hop itself.
use Prim.Native.String.{◌++◌ as str_append}
use orynelo.Prelude.{
  ℕ, suc, String, List, [], ◌∷◌, ◌++◌, Option, none, some, Bool, false, ◌&&◌, ◌||◌, ◌==◌,
  name_equality, number_equality, if◌then◌else◌, any, Text,
}
use orynelo.Model.{NetworkRef}
use orynelo.Network.Graph.{
  NetworkAttempt, NetworkAttemptKind, AttemptState, unset, completed, cancelled, PhaseTiming,
  NetworkHop, dns, route, tcp, tls, DnsFamilyResult, RouteInfo, TcpAttempt, TlsAttempt, Observed,
}
use orynelo.Network.Numbers.{three_digits, precedes}

abbrev pub direct_path_id : String
direct_path_id = "path-direct"

abbrev pub origin_hop_id : String
origin_hop_id = "hop-origin"

abbrev pub or_name : String → String → String
or_name s default = if s == "" then default else s

abbrev filled_ref : NetworkRef → NetworkRef → NetworkRef
filled_ref ref default = record {
  path_id = or_name ref.path_id default.path_id;
  hop_id = or_name ref.hop_id default.hop_id;
  attempt_id = or_name ref.attempt_id default.attempt_id;
}

unfoldable pub value_ref : Option NetworkRef → NetworkRef → NetworkRef
value_ref none default = default
value_ref (some ref) default = filled_ref ref default

abbrev pub has_attempt : String → NetworkHop → Bool
has_attempt id hop = any (λ a. a.id == id) hop.attempts

-- `appendAttempt`
unfoldable pub append_attempt : NetworkAttempt → NetworkHop → NetworkHop
append_attempt attempt hop =
    if attempt.id == "" || has_attempt attempt.id hop then hop else record hop {
      attempts = hop.attempts ++ attempt ∷ [];
      selected_attempt_id = if attempt.selected then attempt.id else hop.selected_attempt_id;
    }

abbrev pub same_ref : NetworkRef → NetworkRef → Bool
same_ref a b = a.path_id == b.path_id && a.hop_id == b.hop_id && a.attempt_id == b.attempt_id

unfoldable pub append_unique_timing : List PhaseTiming → PhaseTiming → List PhaseTiming
append_unique_timing values candidate =
    if candidate.duration == 0
    then values
    else if any (λ v. same_ref v.network_ref candidate.network_ref && v.phase == candidate.phase)
        values
    then values
    else values ++ candidate ∷ []

abbrev add_timing : NetworkRef → String → ℕ → NetworkHop → NetworkHop
add_timing ref phase duration hop = record hop {
  timings = append_unique_timing hop.timings (record {
    network_ref = ref;
    phase = phase;
    started_at = 0;
    finished_at = 0;
    duration = duration;
  });
}

-- The reference of the observation at a position, under the name that the code gives it there.
abbrev origin_ref : String → ℕ → NetworkRef
origin_ref prefix index = record {
  path_id = direct_path_id;
  hop_id = origin_hop_id;
  attempt_id = str_append prefix (three_digits (suc index));
}

-- An attempt of which nothing is known but its reference and kind.
abbrev blank : NetworkRef → NetworkAttemptKind → NetworkAttempt
blank ref kind = record {
  id = ref.attempt_id;
  path_id = ref.path_id;
  hop_id = ref.hop_id;
  kind = kind;
  state = unset;
  network = "";
  remote_ip = [];
  remote_addr = "";
  local_addr = "";
  interface_name = "";
  interface_up = false;
  mtu = 0;
  started_at = 0;
  finished_at = 0;
  duration = 0;
  selected = false;
  reused = false;
  error_code = "";
  error = "";
}

-- `stateForDNS`
abbrev state_for_dns : Bool → AttemptState
state_for_dns was_cancelled = if was_cancelled then cancelled else completed

abbrev pub dns_ref : ℕ → DnsFamilyResult → NetworkRef
dns_ref index family = value_ref family.network_ref (origin_ref "attempt-dns-" index)

abbrev pub dns_attempt : ℕ → DnsFamilyResult → NetworkAttempt
dns_attempt index family = record (blank (dns_ref index family) dns) {
  state = state_for_dns family.was_cancelled;
  network = family.family;
  duration = family.duration;
  error_code = family.error_code;
  error = family.error;
}

unfoldable pub add_family : ℕ → DnsFamilyResult → NetworkHop → NetworkHop
unfolding value_ref append_attempt append_unique_timing three_digits
add_family index family hop =
    add_timing (dns_ref index family) "dns" family.duration
      (append_attempt (dns_attempt index family) hop)

abbrev pub route_ref : ℕ → RouteInfo → NetworkRef
route_ref index r = value_ref r.network_ref (origin_ref "attempt-route-" index)

abbrev pub tcp_ref : ℕ → TcpAttempt → NetworkRef
tcp_ref index t = value_ref t.network_ref (origin_ref "attempt-tcp-" index)

abbrev pub tcp_attempt : ℕ → TcpAttempt → NetworkAttempt
tcp_attempt index t = record (blank (tcp_ref index t) tcp) {
  state = t.state;
  remote_ip = t.remote_ip;
  local_addr = t.local_addr;
  duration = t.duration;
  selected = t.selected;
  error_code = t.error_code;
  error = t.error;
}

unfoldable pub add_tcp : ℕ → TcpAttempt → NetworkHop → NetworkHop
unfolding value_ref append_attempt append_unique_timing three_digits
add_tcp index t hop =
    add_timing (tcp_ref index t) "tcp" t.duration (append_attempt (tcp_attempt index t) hop)

abbrev pub tls_ref : ℕ → TlsAttempt → NetworkRef
tls_ref index t = filled_ref t.network_ref (origin_ref "attempt-tls-" index)

abbrev pub tls_attempt : ℕ → TlsAttempt → NetworkAttempt
tls_attempt index t = record (blank (tls_ref index t) tls) {
  state = t.state;
  remote_ip = t.remote_ip;
  started_at = t.started_at;
  finished_at = t.finished_at;
  duration = t.duration;
  selected = t.selected;
  error_code = t.error_code;
  error = t.error;
}

unfoldable pub add_tls : ℕ → TlsAttempt → NetworkHop → NetworkHop
unfolding append_attempt append_unique_timing three_digits
add_tls index t hop =
    add_timing (tls_ref index t) "tls_handshake" t.handshake_duration
      (add_timing (tls_ref index t) "tcp" t.tcp_duration (append_attempt (tls_attempt index t) hop))

-- A loop over a slice with its index.
abbrev pub each_from :
    {A : Type 0} → (ℕ → A → NetworkHop → NetworkHop) → ℕ → List A → NetworkHop → NetworkHop
each_from step index [] hop = hop
each_from step index (x ∷ xs) hop = each_from step (suc index) xs (step index x hop)

-- `sort.SliceStable` by name: an attempt goes behind all that do not come after it.
abbrev pub insert_sorted : NetworkAttempt → List NetworkAttempt → List NetworkAttempt
insert_sorted a [] = a ∷ []
insert_sorted a (b ∷ bs) = if precedes a.id b.id then a ∷ b ∷ bs else b ∷ insert_sorted a bs

abbrev pub sort_from : List NetworkAttempt → List NetworkAttempt → List NetworkAttempt
sort_from sorted [] = sorted
sort_from sorted (a ∷ rest) = sort_from (insert_sorted a sorted) rest

-- `net.IP.String` is `ip_string`.
module _ (ip_string : Text → String) where
  abbrev pub route_attempt : ℕ → RouteInfo → NetworkAttempt
  route_attempt index r = record (blank (route_ref index r) route) {
    state = r.state;
    remote_ip = r.remote_ip;
    local_addr = ip_string r.local_ip;
    interface_name = r.interface_name;
    interface_up = r.interface_up;
    mtu = r.mtu;
    error = r.error;
  }

  unfoldable pub add_route : ℕ → RouteInfo → NetworkHop → NetworkHop
  unfolding value_ref append_attempt three_digits
  add_route index r hop = append_attempt (route_attempt index r) hop

  unfoldable pub add_observations : Observed → NetworkHop → NetworkHop
  unfolding add_family add_route add_tcp add_tls
  add_observations observed hop = each_from add_tls 0 observed.tls_attempts (
      each_from add_tcp 0 observed.tcp
        (each_from add_route 0 observed.routes (each_from add_family 0 observed.families hop)))

  unfoldable pub merge_into : Observed → NetworkHop → NetworkHop
  unfolding add_observations
  merge_into observed hop =
      let filled = add_observations observed hop in
      record filled { attempts = sort_from [] filled.attempts }
