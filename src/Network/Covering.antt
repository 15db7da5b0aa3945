-- ===== src/Network/Covering.antt =====
-- What it means that a hop records the observations of a diagnosis, and the sort of its attempts.
use Prim.Native.String.{◌++◌ as str_append, len}
use text.Mathlib.TextPositions.{len-append}
use orynelo.Prelude.{
  ℕ, suc, ◌≡◌, refl, ap, String, List, [], ◌∷◌, Bool, true, false, ◌||◌, ◌==◌, arith, name_equality,
  str_iff, if_cases, any, Option, none, some, Text, Memᴰ, head, tail, not-nil, contains,
}
use orynelo.Model.{NetworkRef}
use orynelo.Network.Graph.{
  NetworkAttempt, NetworkHop, Observed, DnsFamilyResult, RouteInfo, TcpAttempt, TlsAttempt,
}
use orynelo.Network.Described.{
  IsDnsOf, IsRouteOf, IsTcpOf, IsTlsOf, names, noted, Recorded, Recorded-keeps,
}
use orynelo.Network.Numbers.{precedes}
use orynelo.Network.Attempts.{
  value_ref, or_name, insert_sorted, sort_from, dns_ref, route_ref, tcp_ref, tls_ref,
}
use orynelo.Network.Merging.{NoTwo, Keeps, KeepsAll, IsNoted, Covers, Covers-keeps}

pub prefixed : (s t : String) {k : ℕ} → len s ≡ suc k → (str_append s t == "") ≡ false
prefixed s t {k} h = refuted (str_append s t == "") refl
  where
    refuted : (b : Bool) → (str_append s t == "") ≡ b → b ≡ false
    refuted false e = refl
    refuted true e =
        let same = ap len ((str_iff (str_append s t) "").0 e) in
        let sum = len-append s t in absurd (omega (arith, same, sum, h))

pub or_name-named : (s d : String) → (d == "") ≡ false → (or_name s d == "") ≡ false
or_name-named s d h = if_cases (λ (x : String). (x == "") ≡ false) (s == "") (λ _. h) (λ e. e)

pub value_ref-named :
    (ref : Option NetworkRef) (default : NetworkRef)
    → (default.attempt_id == "") ≡ false
    → ((value_ref ref default).attempt_id == "") ≡ false
unfolding value_ref
value_ref-named none default h = h
value_ref-named (some ref) default h = or_name-named ref.attempt_id default.attempt_id h

-- Sorting changes neither which attempts there are nor that their names differ.
any-insert_sorted :
    (p : NetworkAttempt → Bool) (a : NetworkAttempt) (xs : List NetworkAttempt)
    → any p (insert_sorted a xs) ≡ (p a || any p xs)
any-insert_sorted p a [] = refl
any-insert_sorted p a (b ∷ bs) =
    if_cases (λ ys. any p ys ≡ (p a || any p (b ∷ bs))) (precedes a.id b.id) (λ _. ground arith)
      (λ _. ground (arith, any-insert_sorted p a bs))

pub any-sort_from :
    (p : NetworkAttempt → Bool) (sorted xs : List NetworkAttempt)
    → any p (sort_from sorted xs) ≡ (any p sorted || any p xs)
any-sort_from p sorted [] = ground arith
any-sort_from p sorted (a ∷ xs) =
    ground (arith, any-sort_from p (insert_sorted a sorted) xs, any-insert_sorted p a sorted)

insert_sorted-NoTwo :
    (a : NetworkAttempt) (xs : List NetworkAttempt)
    → any (λ b. b.id == a.id) xs ≡ false
    → NoTwo xs
    → NoTwo (insert_sorted a xs)
insert_sorted-NoTwo a [] h d = (refl, tt)
insert_sorted-NoTwo a (b ∷ bs) h d =
    if_cases NoTwo (precedes a.id b.id) (λ _. (h, d))
      (λ _.
        let others = any-insert_sorted (λ c. c.id == b.id) a bs in
        (
          ground (arith, str_iff a.id b.id, str_iff b.id a.id),
          insert_sorted-NoTwo a bs (ground arith) d.1,
        ))

abbrev pub AreApart : List NetworkAttempt → List NetworkAttempt → Type 0
AreApart sorted [] = Unit
AreApart sorted (x ∷ xs) = (any (λ b. b.id == x.id) sorted ≡ false) × AreApart sorted xs

insert_sorted-AreApart :
    (a : NetworkAttempt) (sorted xs : List NetworkAttempt)
    → any (λ b. b.id == a.id) xs ≡ false
    → AreApart sorted xs
    → AreApart (insert_sorted a sorted) xs
insert_sorted-AreApart a sorted [] h d = tt
insert_sorted-AreApart a sorted (x ∷ xs) h d =
    let others = any-insert_sorted (λ b. b.id == x.id) a sorted in
    let apart = d.0 in
    (
      ground (arith, str_iff a.id x.id, str_iff x.id a.id),
      insert_sorted-AreApart a sorted xs (ground arith) d.1,
    )

pub sort_from-NoTwo :
    (sorted xs : List NetworkAttempt)
    → NoTwo sorted
    → NoTwo xs
    → AreApart sorted xs
    → NoTwo (sort_from sorted xs)
sort_from-NoTwo sorted [] d e h = d
sort_from-NoTwo sorted (a ∷ xs) d e h =
    sort_from-NoTwo (insert_sorted a sorted) xs (insert_sorted-NoTwo a sorted h.0 d) e.1
      (insert_sorted-AreApart a sorted xs e.0 h.1)

pub nothing_apart : (xs : List NetworkAttempt) → AreApart [] xs
nothing_apart [] = tt
nothing_apart (x ∷ xs) = (refl, nothing_apart xs)

insert_sorted-mem :
    (a : NetworkAttempt) (xs : List NetworkAttempt)
    → Memᴰ a (insert_sorted a xs) × ((b : NetworkAttempt) → Memᴰ b xs → Memᴰ b (insert_sorted a xs))
insert_sorted-mem a [] = (head refl, λ b m. tail m)
insert_sorted-mem a (x ∷ xs) =
    if_cases (λ ys. Memᴰ a ys × ((b : NetworkAttempt) → Memᴰ b (x ∷ xs) → Memᴰ b ys))
      (precedes a.id x.id) (λ _. (head refl, λ b m. tail m))
      (λ _. let rest = insert_sorted-mem a xs in (tail rest.0, λ b m. under b m (rest.1 b)))
  where
    under :
        (b : NetworkAttempt)
        → Memᴰ b (x ∷ xs)
        → (Memᴰ b xs → Memᴰ b (insert_sorted a xs))
        → Memᴰ b (x ∷ insert_sorted a xs)
    under b (head e) k = head e
    under b (tail m) k = tail (k m)

pub sort_from-mem :
    (sorted xs : List NetworkAttempt)
    → ((b : NetworkAttempt) → Memᴰ b sorted → Memᴰ b (sort_from sorted xs))
      × ((b : NetworkAttempt) → Memᴰ b xs → Memᴰ b (sort_from sorted xs))
sort_from-mem sorted [] = (λ b m. m, λ b m. absurd (not-nil m))
sort_from-mem sorted (a ∷ xs) =
    let rest = sort_from-mem (insert_sorted a sorted) xs in
    let inserted = insert_sorted-mem a sorted in
    (λ b m. rest.0 b (inserted.1 b m), λ b m. of_rest b m (rest.0 a inserted.0) (rest.1 b))
  where
    of_rest :
        (b : NetworkAttempt)
        → Memᴰ b (a ∷ xs)
        → Memᴰ a (sort_from (insert_sorted a sorted) xs)
        → (Memᴰ b xs → Memᴰ b (sort_from (insert_sorted a sorted) xs))
        → Memᴰ b (sort_from (insert_sorted a sorted) xs)
    of_rest b (head e) first k = rw (e) first
    of_rest b (tail m) first k = k m

abbrev pub family_name : ℕ → DnsFamilyResult → String
family_name i x = (dns_ref i x).attempt_id

abbrev pub route_name : ℕ → RouteInfo → String
route_name i x = (route_ref i x).attempt_id

abbrev pub tcp_name : ℕ → TcpAttempt → String
tcp_name i x = (tcp_ref i x).attempt_id

abbrev pub tls_name : ℕ → TlsAttempt → String
tls_name i x = (tls_ref i x).attempt_id

-- The names that are taken before the routes, the connections and the negotiations.
abbrev pub seen_routes : Observed → List String → List String
seen_routes observed seen = noted family_name 0 observed.families seen

abbrev pub seen_tcp : Observed → List String → List String
seen_tcp observed seen = noted route_name 0 observed.routes (seen_routes observed seen)

abbrev pub seen_tls : Observed → List String → List String
seen_tls observed seen = noted tcp_name 0 observed.tcp (seen_tcp observed seen)

-- The hop has an attempt under the name of each observation, which is the one that the code gives
-- where none was given, and it describes the observation if the name is not among those that were
-- seen before and not that of an earlier observation.
pub record Records (ip_string : Text → String) (observed : Observed) (seen : List String)
    (hop : NetworkHop) : Type 0 where
  pub families : Covers family_name 0 observed.families hop
  pub routes : Covers route_name 0 observed.routes hop
  pub tcp : Covers tcp_name 0 observed.tcp hop
  pub tls : Covers tls_name 0 observed.tls_attempts hop
  pub family_attempts : Recorded IsDnsOf family_name 0 observed.families seen hop
  pub route_attempts :
      Recorded (IsRouteOf ip_string) route_name 0 observed.routes (seen_routes observed seen) hop
  pub tcp_attempts : Recorded IsTcpOf tcp_name 0 observed.tcp (seen_tcp observed seen) hop
  pub tls_attempts : Recorded IsTlsOf tls_name 0 observed.tls_attempts (seen_tls observed seen) hop

pub Records-keeps :
    (ip_string : Text → String) (observed : Observed) (seen : List String) (hop new : NetworkHop)
    → Keeps hop new
    → KeepsAll hop new
    → Records ip_string observed seen hop
    → Records ip_string observed seen new
Records-keeps ip_string observed seen hop new k all r = record {
  families = Covers-keeps family_name 0 observed.families hop new k r.families;
  routes = Covers-keeps route_name 0 observed.routes hop new k r.routes;
  tcp = Covers-keeps tcp_name 0 observed.tcp hop new k r.tcp;
  tls = Covers-keeps tls_name 0 observed.tls_attempts hop new k r.tls;
  family_attempts =
      Recorded-keeps IsDnsOf family_name 0 observed.families seen hop new all r.family_attempts;
  route_attempts =
      Recorded-keeps (IsRouteOf ip_string) route_name 0 observed.routes (seen_routes observed seen)
        hop new all r.route_attempts;
  tcp_attempts =
      Recorded-keeps IsTcpOf tcp_name 0 observed.tcp (seen_tcp observed seen) hop new all
        r.tcp_attempts;
  tls_attempts =
      Recorded-keeps IsTlsOf tls_name 0 observed.tls_attempts (seen_tls observed seen) hop new all
        r.tls_attempts;
}

-- The names of a hop's attempts are all that are taken there.
pub names-IsNoted : (hop : NetworkHop) → IsNoted (names hop.attempts) hop
names-IsNoted hop j h = of_names hop.attempts h
  where
    of_names :
        (xs : List NetworkAttempt) → contains (names xs) j ≡ false → any (λ a. a.id == j) xs ≡ false
    of_names [] h = refl
    of_names (x ∷ xs) h = ground (arith, of_names xs)
