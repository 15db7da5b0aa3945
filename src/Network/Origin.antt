-- ===== src/Network/Origin.antt =====
-- What the graph of a diagnosis has at the origin's hop of the direct path.
use orynelo.Prelude.{
  ℕ, suc, ◌≡◌, refl, sym, ap, ◌∙◌, String, List, [], ◌∷◌, map, ◌==◌, name_equality, str_iff,
  if_cases, if◌then◌else◌, Bool-cases, inl, inr, Text, Memᴰ, head, tail, not-nil,
}
use mathlib.Core.List.Memᴰ.{map as map_mem}
use orynelo.Network.Graph.{NetworkHop, NetworkPath, Observed}
use orynelo.Network.Attempts.{merge_into, direct_path_id, origin_hop_id}
use orynelo.Network.Correlate.{
  at_hop, new_hop, takes_role, or_initial, ensure_hop, merge_legacy_attempts, mark_role,
  number_hops, number_paths, correlated_paths,
}
use orynelo.Network.Described.{names}
use orynelo.Network.Covering.{Records, Records-keeps}
use orynelo.Network.Recorded.{merge_into-IsMerged}

module _ (ip_string : Text → String) (observed : Observed) where
  -- The names of the attempts that a hop of a path had before, of the first with that name.
  abbrev pub names_at_hop : String → List NetworkHop → List String
  names_at_hop hop_id [] = []
  names_at_hop hop_id (h ∷ hs) = if h.id == hop_id then names h.attempts else names_at_hop hop_id hs

  abbrev pub names_at : String → String → List NetworkPath → List String
  names_at path_id hop_id [] = []
  names_at path_id hop_id (p ∷ ps) =
      if p.id == path_id then names_at_hop hop_id p.hops else names_at path_id hop_id ps

  -- A hop of that name that records what was observed.
  abbrev pub HasHop : List String → String → List NetworkHop → Type 0
  HasHop seen hop_id hops =
      (h : NetworkHop) × Memᴰ h hops × (h.id ≡ hop_id) × Records ip_string observed seen h

  abbrev pub HasPath : List String → String → String → List NetworkPath → Type 0
  HasPath seen path_id hop_id paths =
      (p : NetworkPath) × Memᴰ p paths × (p.id ≡ path_id) × HasHop seen hop_id p.hops

  at_hop-HasHop :
      (path_id hop_id : String) (hops : List NetworkHop)
      → HasHop
          (names_at_hop hop_id hops)
          hop_id
          (at_hop path_id hop_id (merge_into ip_string observed) hops)
  at_hop-HasHop path_id hop_id [] =
      let merged = merge_into-IsMerged ip_string observed (new_hop path_id hop_id) in
      (
        merge_into ip_string observed (new_hop path_id hop_id),
        head refl,
        merged.same_id,
        merged.records,
      )
  at_hop-HasHop path_id hop_id (h ∷ hs) = elim (Bool-cases (h.id == hop_id)) [
    | inl e ↦
        let merged = merge_into-IsMerged ip_string observed h in
        rw (e) (
          merge_into ip_string observed h,
          head refl,
          merged.same_id ∙ (str_iff h.id hop_id).0 e,
          merged.records,
        )
    | inr e ↦
        let rest = at_hop-HasHop path_id hop_id hs in rw (e) (rest.0, tail rest.1, rest.2, rest.3)
  ]

  ensure_hop-HasPath :
      (path_id hop_id : String) (paths : List NetworkPath)
      → HasPath
          (names_at path_id hop_id paths)
          path_id
          hop_id
          (ensure_hop path_id hop_id (merge_into ip_string observed) paths)
  unfolding ensure_hop
  ensure_hop-HasPath path_id hop_id [] =
      let merged = merge_into-IsMerged ip_string observed (new_hop path_id hop_id) in
      (_, head refl, refl, (_, head refl, merged.same_id, merged.records))
  ensure_hop-HasPath path_id hop_id (p ∷ ps) = elim (Bool-cases (p.id == path_id)) [
    | inl e ↦ rw (e) (_, head refl, (str_iff p.id path_id).0 e, at_hop-HasHop path_id hop_id p.hops)
    | inr e ↦
        let rest = ensure_hop-HasPath path_id hop_id ps in
        rw (e) (rest.0, tail rest.1, rest.2, rest.3)
  ]

  map-HasPath :
      (f : NetworkPath → NetworkPath)
      → ((p : NetworkPath) → ((f p).id ≡ p.id) × ((f p).hops ≡ p.hops))
      → {seen : List String} {path_id hop_id : String} (paths : List NetworkPath)
      → HasPath seen path_id hop_id paths
      → HasPath seen path_id hop_id (map f paths)
  map-HasPath f same {seen} {path_id} {hop_id} paths h =
      (f h.0, map_mem f h.1, (same h.0).0 ∙ h.2, rw ((same h.0).1) h.3)

  number_hops-HasHop :
      (seen : List String) (hop_id : String) (n : ℕ) (hops : List NetworkHop)
      → HasHop seen hop_id hops
      → HasHop seen hop_id (number_hops n hops)
  number_hops-HasHop seen hop_id n [] h = absurd (not-nil h.1)
  number_hops-HasHop seen hop_id n (x ∷ xs) (h, head e, i, r) = (
    record x { sequence = suc n },
    head refl,
    sym (ap (λ (y : NetworkHop). y.id) e) ∙ i,
    Records-keeps ip_string observed seen h (record x { sequence = suc n }) (λ id m. rw (sym e) m)
        (λ a m. rw (sym e) m) r,
  )
  number_hops-HasHop seen hop_id n (x ∷ xs) (h, tail m, i, r) =
      let rest = number_hops-HasHop seen hop_id (suc n) xs (h, m, i, r) in
      (rest.0, tail rest.1, rest.2, rest.3)

  number_paths-HasPath :
      (seen : List String) (path_id hop_id : String) (n : ℕ) (paths : List NetworkPath)
      → HasPath seen path_id hop_id paths
      → HasPath seen path_id hop_id (number_paths n paths)
  unfolding number_paths
  number_paths-HasPath seen path_id hop_id n [] h = absurd (not-nil h.1)
  number_paths-HasPath seen path_id hop_id n (x ∷ xs) (p, head e, i, r) = (
    record x { sequence = suc n; hops = number_hops 0 x.hops },
    head refl,
    sym (ap (λ (y : NetworkPath). y.id) e) ∙ i,
    number_hops-HasHop seen hop_id 0 x.hops (rw (sym e) r),
  )
  number_paths-HasPath seen path_id hop_id n (x ∷ xs) (p, tail m, i, r) =
      let rest = number_paths-HasPath seen path_id hop_id (suc n) xs (p, m, i, r) in
      (rest.0, tail rest.1, rest.2, rest.3)

  mark_role-same :
      (p : NetworkPath)
      → ((mark_role observed p).id ≡ p.id) × ((mark_role observed p).hops ≡ p.hops)
  unfolding mark_role
  mark_role-same p =
      if_cases (λ (q : NetworkPath). (q.id ≡ p.id) × (q.hops ≡ p.hops)) (takes_role observed p)
        (λ _. (refl, refl)) (λ _. (refl, refl))

  -- The paths that are merged into: those that were recorded, or else the initial one.
  abbrev pub given_paths : List NetworkPath
  given_paths = or_initial observed observed.network_paths

  -- Whatever paths the checks recorded, the graph of the diagnosis has the direct path with the
  -- origin's hop. That hop has an attempt under the name of every DNS family, route, TCP connection
  -- and TLS negotiation that was observed, of the right kind and with the observation's data, unless
  -- that name was taken by an attempt of the hop before or by an earlier observation.
  pub correlated_paths-HasPath :
      HasPath
        (names_at direct_path_id origin_hop_id given_paths)
        direct_path_id
        origin_hop_id
        (correlated_paths ip_string observed)
  unfolding correlated_paths merge_legacy_attempts
  correlated_paths-HasPath =
      let seen = names_at direct_path_id origin_hop_id given_paths in
      let merged = merge_legacy_attempts ip_string observed given_paths in
      number_paths-HasPath seen direct_path_id origin_hop_id 0 (map (mark_role observed) merged) (
        map-HasPath (mark_role observed) mark_role-same merged
          (ensure_hop-HasPath direct_path_id origin_hop_id given_paths))
