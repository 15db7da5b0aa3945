-- ===== src/Network/Correlate.antt =====
-- `correlatedNetworkResult`: the graph of a diagnosis, and the references of its results.
use orynelo.Prelude.{
  ℕ, suc, ◌-◌, min, String, List, [], ◌∷◌, map, Option, none, some, Bool, true, false, not, ◌&&◌,
  ◌||◌, ◌==◌, name_equality, if◌then◌else◌, any, get_or, length, Text,
}
use orynelo.Model.{NetworkRef, CheckResult, Evidence}
use orynelo.Network.Graph.{
  NetworkHop, NetworkPath, NetworkPathRole, client_effective, address_matrix, auxiliary_direct,
  direct, origin, TargetKind, http_target, tcp_target, Observed,
}
use orynelo.Network.Attempts.{direct_path_id, origin_hop_id, same_ref, merge_into}

abbrev is_http : TargetKind → Bool
is_http http_target = true
is_http tcp_target = false

abbrev pub new_hop : String → String → NetworkHop
new_hop path_id hop_id = record {
  id = hop_id;
  path_id = path_id;
  sequence = 0;
  kind = origin;
  url = "";
  scheme = "";
  host = "";
  port = 0;
  zone = "";
  remote_ip = [];
  remote_addr = "";
  local_addr = "";
  reused = false;
  selected_attempt_id = "";
  attempts = [];
  timings = [];
}

abbrev first_role : Observed → NetworkPathRole
first_role observed =
    if observed.probes_addresses
    then address_matrix
    else if is_http observed.target.kind
    then auxiliary_direct
    else client_effective

unfoldable pub initial_direct_path : Observed → NetworkPath
initial_direct_path observed = record {
  id = direct_path_id;
  role = first_role observed;
  kind = direct;
  sequence = 1;
  redirect_from_path_id = "";
  hops =
      record (new_hop direct_path_id origin_hop_id) {
        sequence = 1;
        url = observed.target.normalized;
        scheme = observed.target.scheme;
        host = observed.target.host;
        port = observed.target.port;
        zone = observed.target.zone;
      }
      ∷ [];
}

-- `ensureHop`, and what is then done with the hop: it is the first of its name in the first path of
-- its name, and is made where it is missing.
abbrev pub at_hop : String → String → (NetworkHop → NetworkHop) → List NetworkHop → List NetworkHop
at_hop path_id hop_id f [] = f (new_hop path_id hop_id) ∷ []
at_hop path_id hop_id f (h ∷ hs) =
    if h.id == hop_id then f h ∷ hs else h ∷ at_hop path_id hop_id f hs

unfoldable pub ensure_hop :
    String → String → (NetworkHop → NetworkHop) → List NetworkPath → List NetworkPath
ensure_hop path_id hop_id f [] =
    (record {
      id = path_id;
      role = client_effective;
      kind = direct;
      sequence = 0;
      redirect_from_path_id = "";
      hops = f (new_hop path_id hop_id) ∷ [];
    })
    ∷ []
ensure_hop path_id hop_id f (p ∷ ps) =
    let rest = ensure_hop path_id hop_id f ps in
    if p.id == path_id then (record p { hops = at_hop path_id hop_id f p.hops }) ∷ ps else p ∷ rest

unfoldable pub merge_legacy_attempts :
    (Text → String) → Observed → List NetworkPath → List NetworkPath
unfolding ensure_hop merge_into
merge_legacy_attempts ip_string observed paths =
    ensure_hop direct_path_id origin_hop_id (merge_into ip_string observed) paths

abbrev is_auxiliary : Observed → Bool
is_auxiliary observed =
    observed.proxy_selected || is_http observed.target.kind && not observed.probes_addresses

abbrev pub takes_role : Observed → NetworkPath → Bool
takes_role observed p = p.id == direct_path_id && is_auxiliary observed

unfoldable pub mark_role : Observed → NetworkPath → NetworkPath
mark_role observed p = if takes_role observed p then record p { role = auxiliary_direct } else p

abbrev pub number_hops : ℕ → List NetworkHop → List NetworkHop
number_hops n [] = []
number_hops n (h ∷ hs) = (record h { sequence = suc n }) ∷ number_hops (suc n) hs

unfoldable pub number_paths : ℕ → List NetworkPath → List NetworkPath
number_paths n [] = []
number_paths n (p ∷ ps) =
    (record p { sequence = suc n; hops = number_hops 0 p.hops }) ∷ number_paths (suc n) ps

unfoldable pub first_path_ref : List NetworkPath → NetworkRef
first_path_ref [] = record { path_id = direct_path_id; hop_id = origin_hop_id; attempt_id = "" }
first_path_ref (p ∷ ps) = elim p.hops [
  | [] ↦ record { path_id = p.id; hop_id = ""; attempt_id = "" }
  | h ∷ hs ↦ record { path_id = p.id; hop_id = h.id; attempt_id = "" }
]

abbrev present : List (Option NetworkRef) → List NetworkRef
present [] = []
present (none ∷ refs) = present refs
present (some ref ∷ refs) = ref ∷ present refs

abbrev own_refs : Observed → String → List NetworkRef
own_refs observed check_id =
    if check_id == "dns"
    then present (map (λ f. f.network_ref) observed.families)
    else if check_id == "route"
    then present (map (λ r. r.network_ref) observed.routes)
    else if check_id == "tcp"
    then present (map (λ t. t.network_ref) observed.tcp)
    else if check_id == "tls"
    then map (λ t. t.network_ref) observed.tls_attempts
    else if check_id == "http"
    then observed.http_hops
    else []

abbrev pub or_one : List NetworkRef → NetworkRef → List NetworkRef
or_one [] ref = ref ∷ []
or_one (r ∷ refs) ref = r ∷ refs

unfoldable pub refs_for_check : Observed → String → List NetworkPath → List NetworkRef
unfolding first_path_ref
refs_for_check observed check_id paths = or_one (own_refs observed check_id) (first_path_ref paths)

abbrev pub is_empty_ref : NetworkRef → Bool
is_empty_ref r = r.path_id == "" && r.hop_id == "" && r.attempt_id == ""

abbrev pub unique_from : List NetworkRef → List NetworkRef → List NetworkRef
unique_from seen [] = []
unique_from seen (r ∷ rs) =
    let without = unique_from seen rs in
    let with_it = unique_from (r ∷ seen) rs in
    if is_empty_ref r
    then without
    else if any (λ s. same_ref s r) seen
    then without
    else r ∷ with_it

unfoldable pub unique_refs : List NetworkRef → List NetworkRef
unique_refs values = unique_from [] values

-- Evidence that has a reference keeps it.
abbrev pub fill_with : Option NetworkRef → NetworkRef → Evidence → Evidence
fill_with none ref e = record e { network_ref = some ref }
fill_with (some own) ref e = e

abbrev pub fill_evidence : List NetworkRef → NetworkRef → ℕ → List Evidence → List Evidence
fill_evidence refs default index [] = []
fill_evidence refs default index (e ∷ es) =
    fill_with e.network_ref (get_or refs (min index (length refs - 1)) default) e
    ∷ fill_evidence refs default (suc index) es

-- A result's own references come before those of the observations.
abbrev pub given_refs : Observed → List NetworkPath → CheckResult → List NetworkRef
given_refs observed paths r = elim r.network_refs [
  | [] ↦ refs_for_check observed r.id paths
  | ref ∷ refs ↦ ref ∷ refs
]

abbrev pub result_refs : Observed → List NetworkPath → CheckResult → List NetworkRef
result_refs observed paths r =
    or_one (unique_refs (given_refs observed paths r)) (first_path_ref paths)

unfoldable pub correlate_result : Observed → List NetworkPath → CheckResult → CheckResult
unfolding first_path_ref refs_for_check unique_refs
correlate_result observed paths r =
    let refs = result_refs observed paths r in
    record r {
      network_refs = refs;
      evidence = fill_evidence refs (first_path_ref paths) 0 r.evidence;
    }

abbrev pub or_initial : Observed → List NetworkPath → List NetworkPath
or_initial observed [] = initial_direct_path observed ∷ []
or_initial observed (p ∷ ps) = p ∷ ps

unfoldable pub correlated_paths : (Text → String) → Observed → List NetworkPath
unfolding initial_direct_path merge_legacy_attempts mark_role number_paths
correlated_paths ip_string observed = number_paths 0 (
    map (mark_role observed)
      (merge_legacy_attempts ip_string observed (or_initial observed observed.network_paths)))

unfoldable pub correlated_network_result :
    (Text → String) → Observed → List CheckResult → List NetworkPath × List CheckResult
unfolding correlated_paths correlate_result
correlated_network_result ip_string observed checks =
    let paths = correlated_paths ip_string observed in
    (paths, map (correlate_result observed paths) checks)
