-- ===== src/Dns/Selected.antt =====
-- What `SelectAddresses` selects.
use orynelo.Prelude.{
  ℕ, zero, suc, sym, ◌≤◌, ◌+◌, ◌≡◌, refl, ap, Text, String, List, [], ◌∷◌, ◌++◌, map, length, take,
  length-take, Option, none, some, true, false, ◌==◌, name_equality, contains, contains-append,
  IsDistinct, if_cases, ltb, arith, str_iff,
}
use orynelo.Dns.Selection.{
  IpLibrary, SelectionOptions, AddressSelection, canonical_ip, append_canonical_unique,
  candidate_addresses, limit_or_default, effective_limit, select_up_to, select_with,
  select_addresses, add_unique, matches_requested_family, option_connect_ip,
}

equal_flip : (x y : String) → (x == y) ≡ true → (y == x) ≡ true
equal_flip x y e = (str_iff y x).1 (sym ((str_iff x y).0 e))

snoc-IsDistinct :
    (xs : List String) (x : String)
    → IsDistinct xs
    → contains xs x ≡ false
    → IsDistinct (xs ++ x ∷ [])
snoc-IsDistinct [] x d h = (refl, tt)
snoc-IsDistinct (y ∷ xs) x d h = (
  ground (arith, contains-append xs (x ∷ []) y, equal_flip x y),
  snoc-IsDistinct xs x d.1 (ground arith),
)

contains-take :
    (n : ℕ) (xs : List String) (x : String) → contains xs x ≡ false → contains (take n xs) x ≡ false
contains-take zero xs x h = refl
contains-take (suc n) [] x h = refl
contains-take (suc n) (y ∷ xs) x h = ground (arith, contains-take n xs x)

module _ (f : Text → String) where
  map-snoc : (xs : List Text) (x : Text) → map f (xs ++ x ∷ []) ≡ map f xs ++ f x ∷ []
  map-snoc [] x = refl
  map-snoc (y ∷ xs) x = ap (λ zs. f y ∷ zs) (map-snoc xs x)

  map-take : (n : ℕ) (xs : List Text) → map f (take n xs) ≡ take n (map f xs)
  map-take zero xs = refl
  map-take (suc n) [] = refl
  map-take (suc n) (y ∷ xs) = ap (λ zs. f y ∷ zs) (map-take n xs)

take-IsDistinct : (n : ℕ) (xs : List String) → IsDistinct xs → IsDistinct (take n xs)
take-IsDistinct zero xs d = tt
take-IsDistinct (suc n) [] d = tt
take-IsDistinct (suc n) (x ∷ xs) d = (contains-take n xs x d.0, take-IsDistinct n xs d.1)

module _ (lib : IpLibrary) where
  abbrev AreDistinct : List Text → Type 0
  AreDistinct ips = IsDistinct (map lib.ip_string ips)

  add_unique-AreDistinct :
      (ips : List Text) (o : Option Text) → AreDistinct ips → AreDistinct (add_unique lib ips o)
  add_unique-AreDistinct ips none d = d
  add_unique-AreDistinct ips (some ip) d =
      if_cases AreDistinct (contains (map lib.ip_string ips) (lib.ip_string ip)) (λ _. d)
        (λ h. rw (map-snoc lib.ip_string ips ip) (snoc-IsDistinct _ (lib.ip_string ip) d h))

  append-AreDistinct :
      (ips values : List Text)
      → AreDistinct ips
      → AreDistinct (append_canonical_unique lib ips values)
  unfolding append_canonical_unique
  append-AreDistinct ips [] d = d
  append-AreDistinct ips (v ∷ vs) d =
      append-AreDistinct (add_unique lib ips (canonical_ip lib v)) vs
        (add_unique-AreDistinct ips (canonical_ip lib v) d)

  candidates-AreDistinct :
      (ipv4 ipv6 : List Text) (version : String)
      → AreDistinct (candidate_addresses lib ipv4 ipv6 version)
  unfolding candidate_addresses
  candidates-AreDistinct ipv4 ipv6 version =
      if_cases AreDistinct (version == "4") (λ _. append-AreDistinct [] ipv4 tt)
        (λ _.
          if_cases AreDistinct (version == "6") (λ _. append-AreDistinct [] ipv6 tt)
            (λ _. append-AreDistinct _ ipv6 (append-AreDistinct [] ipv4 tt)))

  pub record IsSelection (options : SelectionOptions) (s : AddressSelection) : Type 0 where
    pub accounted : length s.addresses + s.skipped_addresses ≡ s.total
    pub within_limit : length s.addresses ≤ limit_or_default lib options.address_limit
    pub client_effective : options.probe_mode ≡ "client_effective" → length s.addresses ≤ 2
    pub not_empty : 1 ≤ s.total → 1 ≤ length s.addresses
    pub distinct : IsDistinct (map lib.ip_string s.addresses)

  one-at-most :
      (options : SelectionOptions) (ips : List Text)
      → length ips ≤ 1
      → AreDistinct ips
      → IsSelection options (record { addresses = ips; total = length ips; skipped_addresses = 0 })
  one-at-most options ips h d = record {
    accounted = omega arith;
    within_limit = ground arith;
    client_effective = λ _. omega arith;
    not_empty = λ h. h;
    distinct = d;
  }

  effective_limit-bounds :
      (options : SelectionOptions)
      → (1 ≤ effective_limit lib options)
        × (effective_limit lib options ≤ limit_or_default lib options.address_limit)
        × (options.probe_mode ≡ "client_effective" → effective_limit lib options ≤ 2)
  unfolding effective_limit
  effective_limit-bounds options = (
    ground arith,
    ground arith,
    λ e. ground (arith, (str_iff options.probe_mode "client_effective").1 e),
  )

  select_up_to-IsSelection :
      (options : SelectionOptions) (found : List Text)
      → AreDistinct found
      → IsSelection options (select_up_to lib (effective_limit lib options) found)
  unfolding select_up_to
  select_up_to-IsSelection options found d =
      let limit = effective_limit lib options in
      let b = effective_limit-bounds options in
      let l = length-take limit found in
      record {
        accounted = ground (arith, l);
        within_limit = ground (arith, l, b);
        client_effective = λ e. ground (arith, l, b.2 e);
        not_empty = ground (arith, l, b);
        distinct =
            if_cases AreDistinct (ltb limit (length found))
              (λ _. rw (map-take lib.ip_string limit found) (take-IsDistinct limit _ d)) (λ _. d);
      }

  -- Whatever the resolver returned, the addresses selected for the connection checks are at most as
  -- many as the limit of the options allows, and at most 2 where the probes are the client's; with
  -- those skipped they make up the total, some are selected if there are any, and no two of them have
  -- the same text.
  pub select_addresses-IsSelection :
      (ipv4 ipv6 : List Text) (options : SelectionOptions)
      → IsSelection options (select_addresses lib ipv4 ipv6 options)
  unfolding select_addresses
  select_addresses-IsSelection ipv4 ipv6 options =
      of_connect (option_connect_ip lib options.connect_ip)
    where
      of_connect : (o : Option Text) → IsSelection options (select_with lib o ipv4 ipv6 options)
      of_connect none =
          select_up_to-IsSelection options (candidate_addresses lib ipv4 ipv6 options.ip_version)
            (candidates-AreDistinct ipv4 ipv6 options.ip_version)
      of_connect (some ip) =
          if_cases (IsSelection options) (matches_requested_family lib ip options.ip_version)
            (λ _. one-at-most options (ip ∷ []) (omega arith) (refl, tt))
            (λ _. one-at-most options [] (omega arith) tt)
