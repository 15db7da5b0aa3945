-- ===== src/Network/Graph.antt =====
-- The graph of paths and the observations that it is made of (internal/diagnostics/model/model.go).
-- An IP address is the list of its bytes. Of an observation the record has what the code reads.
use orynelo.Prelude.{ℕ, String, List, Option, Text, Bool}
use orynelo.Model.{NetworkRef}

pub data NetworkPathRole : Type 0 where
  client_effective address_matrix auxiliary_direct : NetworkPathRole

pub data NetworkPathKind : Type 0 where
  direct http_proxy https_connect : NetworkPathKind

pub data NetworkHopKind : Type 0 where
  origin proxy_peer redirect : NetworkHopKind

pub data NetworkAttemptKind : Type 0 where
  dns route tcp tls http : NetworkAttemptKind

-- The empty text, of an attempt that recorded no state, is `unset`.
pub data AttemptState : Type 0 where
  unset queued running completed cancelled skipped : AttemptState

pub record NetworkAttempt : Type 0 where
  pub id : String
  pub path_id : String
  pub hop_id : String
  pub kind : NetworkAttemptKind
  pub state : AttemptState
  pub network : String
  pub remote_ip : Text
  pub remote_addr : String
  pub local_addr : String
  pub interface_name : String
  pub interface_up : Bool
  pub mtu : ℕ
  pub started_at : ℕ
  pub finished_at : ℕ
  pub duration : ℕ
  pub selected : Bool
  pub reused : Bool
  pub error_code : String
  pub error : String

pub record PhaseTiming : Type 0 where
  pub network_ref : NetworkRef
  pub phase : String
  pub started_at : ℕ
  pub finished_at : ℕ
  pub duration : ℕ

pub record NetworkHop : Type 0 where
  pub id : String
  pub path_id : String
  pub sequence : ℕ
  pub kind : NetworkHopKind
  pub url : String
  pub scheme : String
  pub host : String
  pub port : ℕ
  pub zone : String
  pub remote_ip : Text
  pub remote_addr : String
  pub local_addr : String
  pub reused : Bool
  pub selected_attempt_id : String
  pub attempts : List NetworkAttempt
  pub timings : List PhaseTiming

pub record NetworkPath : Type 0 where
  pub id : String
  pub role : NetworkPathRole
  pub kind : NetworkPathKind
  pub sequence : ℕ
  pub redirect_from_path_id : String
  pub hops : List NetworkHop

pub data TargetKind : Type 0 where
  http_target tcp_target : TargetKind

pub record Target : Type 0 where
  pub normalized : String
  pub scheme : String
  pub host : String
  pub port : ℕ
  pub kind : TargetKind
  pub zone : String

pub record DnsFamilyResult : Type 0 where
  pub network_ref : Option NetworkRef
  pub family : String
  pub was_cancelled : Bool
  pub duration : ℕ
  pub error_code : String
  pub error : String

pub record RouteInfo : Type 0 where
  pub network_ref : Option NetworkRef
  pub remote_ip : Text
  pub local_ip : Text
  pub interface_name : String
  pub interface_up : Bool
  pub mtu : ℕ
  pub error : String
  pub state : AttemptState

pub record TcpAttempt : Type 0 where
  pub network_ref : Option NetworkRef
  pub remote_ip : Text
  pub local_addr : String
  pub duration : ℕ
  pub error_code : String
  pub error : String
  pub state : AttemptState
  pub selected : Bool

pub record TlsAttempt : Type 0 where
  pub network_ref : NetworkRef
  pub state : AttemptState
  pub remote_ip : Text
  pub started_at : ℕ
  pub finished_at : ℕ
  pub duration : ℕ
  pub tcp_duration : ℕ
  pub handshake_duration : ℕ
  pub selected : Bool
  pub error_code : String
  pub error : String

-- What `State` recorded for one diagnosis.
pub record Observed : Type 0 where
  pub target : Target
  pub probes_addresses : Bool
  pub proxy_selected : Bool
  pub families : List DnsFamilyResult
  pub routes : List RouteInfo
  pub tcp : List TcpAttempt
  pub tls_attempts : List TlsAttempt
  pub http_hops : List NetworkRef
  pub network_paths : List NetworkPath
