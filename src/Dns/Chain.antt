-- ===== src/Dns/Chain.antt =====
-- `followCNAMEChain`: the aliases of one response are followed to their end.
use mathlib.Core.Path.{subst}
use orynelo.Prelude.{
  ℕ, zero, suc, ◌≤◌, ◌≡◌, refl, ap, ◌≢◌, List, [], ◌∷◌, ◌++◌, Text, Bool, true, false, ◌||◌, arith,
  ltb, contains, text_equality, text_eqb_iff, ◌==◌, All, if◌then◌else◌, if_cases,
}
use orynelo.Dns.Names.{canonical_dns_name, dot}

abbrev pub maximum_cname_hops : ℕ
maximum_cname_hops = 8

-- `cnameLink`
pub record CnameLink : Type 0 where
  pub owner : Text
  pub target : Text

-- The results of `followCNAMEChain`: a name with whether an alias was followed, and its two errors.
pub data Chain : Type 0 where
  found : Text → Bool → Chain
  loop_detected : Chain
  too_long : Chain

-- The target of the first link of a name; none is the empty name.
unfoldable pub next_name : List CnameLink → Text → Text
next_name [] current = []
next_name (link ∷ links) current =
    if link.owner == current then link.target else next_name links current

unfoldable pub follow_from : List CnameLink → ℕ → List Text → Text → Bool → Chain
unfolding next_name
follow_from links zero seen current followed = too_long
follow_from links (suc fuel) seen current followed =
    let next = next_name links current in
    let rest = follow_from links fuel (next ∷ seen) next true in
    if next == []
    then found (current ++ dot ∷ []) followed
    else if contains seen next
    then loop_detected
    else rest

unfoldable pub follow_cname_chain : Text → List CnameLink → Chain
unfolding follow_from
follow_cname_chain current links =
    let start = canonical_dns_name current in
    follow_from links maximum_cname_hops (start ∷ []) start false

-- The chain of links from a name ends after `d` of them, at `last`.
abbrev pub EndsAfter : List CnameLink → Text → ℕ → Text → Type 0
EndsAfter links s zero last = (next_name links s ≡ []) × (s ≡ last)
EndsAfter links s (suc d) last =
    (next_name links s ≢ []) × EndsAfter links (next_name links s) d last

EndsAfter-unique :
    (links : List CnameLink) (s : Text) (d e : ℕ) (last other : Text)
    → EndsAfter links s d last
    → EndsAfter links s e other
    → d ≡ e
EndsAfter-unique links s zero zero last other h k = refl
EndsAfter-unique links s zero (suc e) last other h k = absurd (k.0 h.0)
EndsAfter-unique links s (suc d) zero last other h k = absurd (h.0 k.0)
EndsAfter-unique links s (suc d) (suc e) last other h k =
    ap suc (EndsAfter-unique links (next_name links s) d e last other h.1 k.1)

-- The end is at `d` links or more from each of the names.
abbrev IsBefore : List CnameLink → ℕ → Text → Text → Type 0
IsBefore links d last s = (e : ℕ) × (d ≤ e) × EndsAfter links s e last

next_is_new :
    (links : List CnameLink) (seen : List Text) (next : Text) (d : ℕ) (last : Text)
    → EndsAfter links next d last
    → All (IsBefore links (suc d) last) seen
    → contains seen next ≡ false
next_is_new links [] next d last h k = refl
next_is_new links (s ∷ seen) next d last h ((e, far, ends), k) =
    ground (arith, next_is_new links seen next d last h k, text_eqb_iff s next, other)
  where
    other : s ≢ next
    other same =
        let e_is_d =
          EndsAfter-unique links next e d last last
            (subst (λ x. EndsAfter links x e last) same ends) h in
        absurd (omega arith)

All-IsBefore :
    (links : List CnameLink) (d : ℕ) (last : Text) (seen : List Text)
    → All (IsBefore links (suc d) last) seen
    → All (IsBefore links d last) seen
All-IsBefore links d last [] h = tt
All-IsBefore links d last (s ∷ seen) ((e, far, ends), h) =
    ((e, omega arith, ends), All-IsBefore links d last seen h)

-- What is answered when the end is `d` links away and `fuel` names may be looked at.
abbrev pub answer : ℕ → ℕ → Text → Bool → Chain
answer d fuel last followed = if ltb d fuel then found (last ++ dot ∷ []) followed else too_long

follow_from-ends :
    (links : List CnameLink) (fuel d : ℕ) (seen : List Text) (current last : Text) (followed : Bool)
    → EndsAfter links current d last
    → All (IsBefore links d last) seen
    → follow_from links fuel seen current followed ≡ answer d fuel last (followed || ltb 0 d)
unfolding follow_from
follow_from-ends links zero d seen current last followed h k = ground arith
follow_from-ends links (suc fuel) zero seen current last followed h k =
    ground (arith, text_eqb_iff (next_name links current) [])
follow_from-ends links (suc fuel) (suc d) seen current last followed h k =
    rw
      (follow_from-ends links fuel d (next_name links current ∷ seen) (next_name links current) last
        true h.1 ((d, omega arith, h.1), All-IsBefore links d last seen k))
      (ground (
        arith,
        text_eqb_iff (next_name links current) [],
        h.0,
        next_is_new links seen (next_name links current) d last h.1 k,
      ))

-- The aliases of a response decide the name that is queried next: when they lead from the canonical
-- name to an end, after fewer than 8 of them, the answer is this end, and says whether there was an
-- alias at all; after 8 or more it is the error of a chain that is too long. A loop is never
-- reported where the chain ends.
pub follow_cname_chain-ends :
    (links : List CnameLink) (current : Text) (d : ℕ) (last : Text)
    → EndsAfter links (canonical_dns_name current) d last
    → follow_cname_chain current links ≡ answer d maximum_cname_hops last (ltb 0 d)
unfolding follow_cname_chain
follow_cname_chain-ends links current d last h =
    follow_from-ends links maximum_cname_hops d (canonical_dns_name current ∷ [])
      (canonical_dns_name current) last false h ((d, omega arith, h), tt)

-- What a name that is found says of the chain from a name.
abbrev pub IsEnd : List CnameLink → Text → Bool → Text → Bool → Type 0
IsEnd links current before name followed =
    (d : ℕ) × (last : Text) × EndsAfter links current d last
    × (name ≡ last ++ dot ∷ [])
    × (followed ≡ (before || ltb 0 d))

follow_from-found :
    (links : List CnameLink) (fuel : ℕ) (seen : List Text) (current : Text) (before : Bool)
    (name : Text) (followed : Bool)
    → follow_from links fuel seen current before ≡ found name followed
    → IsEnd links current before name followed
unfolding follow_from
follow_from-found links zero seen current before name followed = λ h. cc
follow_from-found links (suc fuel) seen current before name followed =
    if_cases Says (next_name links current == [])
      (λ e h. (
        0,
        current,
        ((text_eqb_iff (next_name links current) []).0 e, refl),
        ground arith,
        ground arith,
      ))
      λ e.
        if_cases Says (contains seen (next_name links current)) (λ _ h. cc)
          λ _ h.
            let (d, last, ends, same, any) =
              follow_from-found links fuel _ _ true name followed h in
            (
              suc d,
              last,
              (ground (arith, text_eqb_iff (next_name links current) []), ends),
              same,
              ground arith,
            )
  where
    Says : Chain → Type 0
    Says c = c ≡ found name followed → IsEnd links current before name followed

-- A name that is found is the end of the chain of aliases from the canonical name.
pub follow_cname_chain-found :
    (links : List CnameLink) (current name : Text) (followed : Bool)
    → follow_cname_chain current links ≡ found name followed
    → IsEnd links (canonical_dns_name current) false name followed
unfolding follow_cname_chain
follow_cname_chain-found links current name followed h =
    follow_from-found links maximum_cname_hops (canonical_dns_name current ∷ [])
      (canonical_dns_name current) false name followed h
