-- ===== src/Network/Kinds.antt =====
-- The steps of `mergeLegacyAttempts` for each kind of observation.
use orynelo.Prelude.{ℕ, ◌≡◌, refl, ◌∙◌, String, name_equality, Text}
use orynelo.Network.Described.{IsDnsOf, IsRouteOf, IsTcpOf, IsTlsOf}
use orynelo.Network.Graph.{
  NetworkAttempt, NetworkHop, DnsFamilyResult, RouteInfo, TcpAttempt, TlsAttempt,
}
use orynelo.Network.Attempts.{
  add_family, add_route, add_tcp, add_tls, dns_ref, route_ref, tcp_ref, tls_ref, dns_attempt,
  route_attempt, tcp_attempt, tls_attempt,
}
use orynelo.Network.Merging.{IsStep, append_attempt-IsStep}

-- Timings change no attempt.
IsStep-timed :
    {Describes : NetworkAttempt → Type 0} {hop new timed : NetworkHop} {id : String}
    → timed.attempts ≡ new.attempts
    → timed.selected_attempt_id ≡ new.selected_attempt_id
    → timed.id ≡ new.id
    → IsStep Describes hop id new
    → IsStep Describes hop id timed
IsStep-timed {Describes} {hop} {new} {timed} {id} e s i h = record {
  tidy = λ t.
      let done = h.tidy t in
      record { distinct = rw (e) done.distinct; selected = rw (s, e) done.selected };
  keeps = λ j m. rw (e) (h.keeps j m);
  same_id = i ∙ h.same_id;
  adds = λ n. rw (e) (h.adds n);
  keeps_all = λ a m. rw (e) (h.keeps_all a m);
  only = λ j fresh other. rw (e) (h.only j fresh other);
  describes = λ fresh n. let (a, m, d) = h.describes fresh n in (a, rw (e) m, d);
}

pub add_family-IsStep :
    (index : ℕ) (x : DnsFamilyResult) (hop : NetworkHop)
    → IsStep (IsDnsOf index x) hop (dns_ref index x).attempt_id (add_family index x hop)
unfolding add_family
add_family-IsStep index x hop = IsStep-timed refl refl refl (
    append_attempt-IsStep (IsDnsOf index x) (dns_attempt index x) hop (record {
      name = refl;
      kind = refl;
      state = refl;
      network = refl;
      duration = refl;
      fault = (refl, refl);
    }))

pub add_tcp-IsStep :
    (index : ℕ) (x : TcpAttempt) (hop : NetworkHop)
    → IsStep (IsTcpOf index x) hop (tcp_ref index x).attempt_id (add_tcp index x hop)
unfolding add_tcp
add_tcp-IsStep index x hop = IsStep-timed refl refl refl (
    append_attempt-IsStep (IsTcpOf index x) (tcp_attempt index x) hop (record {
      name = refl;
      kind = refl;
      state = (refl, refl);
      addresses = (refl, refl);
      duration = refl;
      fault = (refl, refl);
    }))

pub add_tls-IsStep :
    (index : ℕ) (x : TlsAttempt) (hop : NetworkHop)
    → IsStep (IsTlsOf index x) hop (tls_ref index x).attempt_id (add_tls index x hop)
unfolding add_tls
add_tls-IsStep index x hop = IsStep-timed refl refl refl (
    append_attempt-IsStep (IsTlsOf index x) (tls_attempt index x) hop (record {
      name = refl;
      kind = refl;
      state = (refl, refl);
      address = refl;
      times = (refl, refl, refl);
      fault = (refl, refl);
    }))

pub add_route-IsStep :
    (ip_string : Text → String) (index : ℕ) (x : RouteInfo) (hop : NetworkHop)
    → IsStep
        (IsRouteOf ip_string index x)
        hop
        (route_ref index x).attempt_id
        (add_route ip_string index x hop)
unfolding add_route
add_route-IsStep ip_string index x hop =
    append_attempt-IsStep (IsRouteOf ip_string index x) (route_attempt ip_string index x) hop
      (record {
        name = refl;
        kind = refl;
        state = refl;
        addresses = (refl, refl);
        interface = (refl, refl, refl);
        fault = refl;
      })
