-- ===== src/Network/Described.antt =====
-- What an attempt says of the observation that it stands for.
use orynelo.Prelude.{
  ℕ, suc, ◌≡◌, false, String, List, [], ◌∷◌, map, Text, Memᴰ, contains, name_equality,
  if◌then◌else◌,
}
use orynelo.Network.Graph.{
  NetworkAttempt, NetworkHop, dns, route, tcp, tls, completed, cancelled, DnsFamilyResult,
  RouteInfo, TcpAttempt, TlsAttempt,
}
use orynelo.Network.Attempts.{dns_ref, route_ref, tcp_ref, tls_ref}

pub record IsDnsOf (index : ℕ) (x : DnsFamilyResult) (a : NetworkAttempt) : Type 0 where
  pub name : a.id ≡ (dns_ref index x).attempt_id
  pub kind : a.kind ≡ dns
  pub state : a.state ≡ (if x.was_cancelled then cancelled else completed)
  pub network : a.network ≡ x.family
  pub duration : a.duration ≡ x.duration
  pub fault : (a.error_code ≡ x.error_code) × (a.error ≡ x.error)

pub record IsRouteOf (ip_string : Text → String) (index : ℕ) (x : RouteInfo) (a : NetworkAttempt)
    : Type 0 where
  pub name : a.id ≡ (route_ref index x).attempt_id
  pub kind : a.kind ≡ route
  pub state : a.state ≡ x.state
  pub addresses : (a.remote_ip ≡ x.remote_ip) × (a.local_addr ≡ ip_string x.local_ip)
  pub interface :
      (a.interface_name ≡ x.interface_name) × (a.interface_up ≡ x.interface_up) × (a.mtu ≡ x.mtu)
  pub fault : a.error ≡ x.error

pub record IsTcpOf (index : ℕ) (x : TcpAttempt) (a : NetworkAttempt) : Type 0 where
  pub name : a.id ≡ (tcp_ref index x).attempt_id
  pub kind : a.kind ≡ tcp
  pub state : (a.state ≡ x.state) × (a.selected ≡ x.selected)
  pub addresses : (a.remote_ip ≡ x.remote_ip) × (a.local_addr ≡ x.local_addr)
  pub duration : a.duration ≡ x.duration
  pub fault : (a.error_code ≡ x.error_code) × (a.error ≡ x.error)

pub record IsTlsOf (index : ℕ) (x : TlsAttempt) (a : NetworkAttempt) : Type 0 where
  pub name : a.id ≡ (tls_ref index x).attempt_id
  pub kind : a.kind ≡ tls
  pub state : (a.state ≡ x.state) × (a.selected ≡ x.selected)
  pub address : a.remote_ip ≡ x.remote_ip
  pub times :
      (a.started_at ≡ x.started_at) × (a.finished_at ≡ x.finished_at) × (a.duration ≡ x.duration)
  pub fault : (a.error_code ≡ x.error_code) × (a.error ≡ x.error)

abbrev pub names : List NetworkAttempt → List String
names = map (λ a. a.id)

-- The names that are taken after observations from an index on.
abbrev pub noted : {A : Type 0} → (ℕ → A → String) → ℕ → List A → List String → List String
noted name index [] seen = seen
noted name index (x ∷ xs) seen = noted name (suc index) xs (name index x ∷ seen)

-- Every observation from an index on has an attempt that describes it, unless its name is taken
-- before it.
abbrev pub Recorded :
    {A : Type 0}
    → (ℕ → A → NetworkAttempt → Type 0)
    → (ℕ → A → String)
    → ℕ
    → List A
    → List String
    → NetworkHop
    → Type 0
Recorded Describes name index [] seen hop = Unit
Recorded Describes name index (x ∷ xs) seen hop =
    (contains seen (name index x) ≡ false
      → (a : NetworkAttempt) × Memᴰ a hop.attempts × Describes index x a)
    × Recorded Describes name (suc index) xs (name index x ∷ seen) hop

pub Recorded-keeps :
    {A : Type 0} (Describes : ℕ → A → NetworkAttempt → Type 0) (name : ℕ → A → String) (index : ℕ)
    (xs : List A) (seen : List String) (hop new : NetworkHop)
    → ((a : NetworkAttempt) → Memᴰ a hop.attempts → Memᴰ a new.attempts)
    → Recorded Describes name index xs seen hop
    → Recorded Describes name index xs seen new
Recorded-keeps Describes name index [] seen hop new k r = tt
Recorded-keeps Describes name index (x ∷ xs) seen hop new k r = (
  λ fresh. let (a, m, d) = r.0 fresh in (a, k a m, d),
  Recorded-keeps Describes name (suc index) xs (name index x ∷ seen) hop new k r.1,
)
