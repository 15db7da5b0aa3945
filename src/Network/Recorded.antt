-- ===== src/Network/Recorded.antt =====
-- What `mergeLegacyAttempts` does to the hop that it fills.
use orynelo.Prelude.{
  ◌≡◌, refl, ◌∙◌, ◌⊎◌, inl, inr, String, [], true, ◌==◌, name_equality, any, Text,
}
use orynelo.Network.Graph.{NetworkHop, Observed}
use orynelo.Network.Attempts.{
  has_attempt, add_family, add_route, add_tcp, add_tls, add_observations, merge_into, each_from,
  sort_from,
}
use orynelo.Network.Merging.{IsTidy, KeepsAll, Covers-keeps, each_from-IsLoop}
use orynelo.Network.Kinds.{add_family-IsStep, add_tcp-IsStep, add_tls-IsStep, add_route-IsStep}
use orynelo.Network.Covering.{
  prefixed, value_ref-named, or_name-named, any-sort_from, sort_from-NoTwo, nothing_apart, Records,
  Records-keeps, sort_from-mem, names-IsNoted, family_name, route_name, tcp_name, tls_name,
  seen_routes, seen_tcp, seen_tls,
}
use orynelo.Network.Described.{IsDnsOf, IsRouteOf, IsTcpOf, IsTlsOf, names, Recorded-keeps}

module _ (ip_string : Text → String) (observed : Observed) where
  -- What the merge does to a hop.
  pub record IsMerged (hop new : NetworkHop) : Type 0 where
    pub tidy : IsTidy hop → IsTidy new
    pub keeps_all : KeepsAll hop new
    pub same_id : new.id ≡ hop.id
    pub records : Records ip_string observed (names hop.attempts) new

  add_observations-IsMerged :
      (hop : NetworkHop) → IsMerged hop (add_observations ip_string observed hop)
  unfolding add_observations
  add_observations-IsMerged hop =
      let seen = names hop.attempts in
      let one =
        each_from-IsLoop IsDnsOf family_name add_family
          (λ i x. value_ref-named x.network_ref _ (prefixed "attempt-dns-" _ refl))
          add_family-IsStep 0 observed.families hop in
      let hop1 = each_from add_family 0 observed.families hop in
      let two =
        each_from-IsLoop (IsRouteOf ip_string) route_name (add_route ip_string)
          (λ i x. value_ref-named x.network_ref _ (prefixed "attempt-route-" _ refl))
          (add_route-IsStep ip_string) 0 observed.routes hop1 in
      let hop2 = each_from (add_route ip_string) 0 observed.routes hop1 in
      let three =
        each_from-IsLoop IsTcpOf tcp_name add_tcp
          (λ i x. value_ref-named x.network_ref _ (prefixed "attempt-tcp-" _ refl)) add_tcp-IsStep 0
          observed.tcp hop2 in
      let hop3 = each_from add_tcp 0 observed.tcp hop2 in
      let four =
        each_from-IsLoop IsTlsOf tls_name add_tls
          (λ i x. or_name-named x.network_ref.attempt_id _ (prefixed "attempt-tls-" _ refl))
          add_tls-IsStep 0 observed.tls_attempts hop3 in
      let hop4 = each_from add_tls 0 observed.tls_attempts hop3 in
      let noted1 = one.notes seen (names-IsNoted hop) in
      let noted2 = two.notes (seen_routes observed seen) noted1 in
      let noted3 = three.notes (seen_tcp observed seen) noted2 in
      record {
        tidy = λ t. four.tidy (three.tidy (two.tidy (one.tidy t)));
        keeps_all =
            λ a m. four.keeps_all a (three.keeps_all a (two.keeps_all a (one.keeps_all a m)));
        same_id = four.same_id ∙ three.same_id ∙ two.same_id ∙ one.same_id;
        records = record {
          families =
              Covers-keeps _ 0 observed.families hop1 hop4
                (λ id m. four.keeps id (three.keeps id (two.keeps id m))) one.covers;
          routes =
              Covers-keeps _ 0 observed.routes hop2 hop4 (λ id m. four.keeps id (three.keeps id m))
                two.covers;
          tcp = Covers-keeps _ 0 observed.tcp hop3 hop4 four.keeps three.covers;
          tls = four.covers;
          family_attempts =
              Recorded-keeps IsDnsOf family_name 0 observed.families seen hop1 hop4
                (λ a m. four.keeps_all a (three.keeps_all a (two.keeps_all a m)))
                (one.recorded seen (names-IsNoted hop));
          route_attempts =
              Recorded-keeps (IsRouteOf ip_string) route_name 0 observed.routes
                (seen_routes observed seen) hop2 hop4
                (λ a m. four.keeps_all a (three.keeps_all a m))
                (two.recorded (seen_routes observed seen) noted1);
          tcp_attempts =
              Recorded-keeps IsTcpOf tcp_name 0 observed.tcp (seen_tcp observed seen) hop3 hop4
                four.keeps_all (three.recorded (seen_tcp observed seen) noted2);
          tls_attempts = four.recorded (seen_tls observed seen) noted3;
        };
      }

  sorted-IsTidy :
      (hop : NetworkHop) → IsTidy hop → IsTidy (record hop { attempts = sort_from [] hop.attempts })
  sorted-IsTidy hop t = record {
    distinct = sort_from-NoTwo [] hop.attempts tt t.distinct (nothing_apart hop.attempts);
    selected = still t.selected;
  }
    where
      still :
          (hop.selected_attempt_id ≡ "") ⊎ (has_attempt hop.selected_attempt_id hop ≡ true)
          → (hop.selected_attempt_id ≡ "")
            ⊎ (any (λ a. a.id == hop.selected_attempt_id) (sort_from [] hop.attempts) ≡ true)
      still (inl e) = inl e
      still (inr m) = inr (any-sort_from _ [] hop.attempts ∙ m)

  -- The merge keeps the name and every attempt of the hop. It records each observation under its
  -- name, and as an attempt of the right kind with the observation's data, unless an attempt of the
  -- hop or an earlier observation has that name. If the names of the hop's attempts differed and the
  -- selected attempt was one of them, this is still so.
  pub merge_into-IsMerged : (hop : NetworkHop) → IsMerged hop (merge_into ip_string observed hop)
  unfolding merge_into
  merge_into-IsMerged hop =
      let merged = add_observations-IsMerged hop in
      let filled = add_observations ip_string observed hop in
      let sorted = record filled { attempts = sort_from [] filled.attempts } in
      record {
        tidy = λ t. sorted-IsTidy filled (merged.tidy t);
        keeps_all = λ a m. (sort_from-mem [] filled.attempts).1 a (merged.keeps_all a m);
        same_id = merged.same_id;
        records =
            Records-keeps ip_string observed (names hop.attempts) filled sorted
              (λ id m. any-sort_from (λ a. a.id == id) [] filled.attempts ∙ m)
              (λ a m. (sort_from-mem [] filled.attempts).1 a m) merged.records;
      }
