-- ===== src/Dns/Family/Support.antt =====
-- What the status of a looked-up family rests on.
use orynelo.Prelude.{
  ℕ, zero, suc, ◌<◌, ◌∙◌, All, ◌==◌, text_eqb_iff, ◌≡◌, refl, ◌≢◌, ◌⊎◌, inl, inr, List, [], ◌∷◌,
  Text, true, false, not, eqb, text_equality, contains, arith, Bool-cases, if◌then◌else◌, if_cases,
  none, some,
}
use orynelo.Dns.Names.{canonical_dns_name}
use orynelo.Dns.Chain.{
  Chain, found, loop_detected, too_long, follow_cname_chain, maximum_cname_hops,
}
use orynelo.Dns.Response.{
  Message, ParsedWireResponse, Parsed, parsed, refused, parse_wire_response, WireError,
}
use orynelo.Dns.Family.{
  unset, success, nxdomain, no_data, servfail, error, LookupError, wire_error, cname_loop,
  cname_chain_too_long, WireFamilyResult, Reply, answered, unanswered, fail_with, take_over, decide,
  lookup_from, no_result, lookup_family,
}

module _ (ask : ℕ → Text → Reply) (query_type : ℕ) where
  -- The lookup of a host comes to a name with a number of queries left: to the host itself with 8,
  -- and from a name to the end of the aliases that its response has.
  pub data Reaches (host : Text) : ℕ → Text → Type 0 where
    at_first : Reaches host 8 host
    follows :
        {i : ℕ} {name next : Text}
        → Reaches host (suc i) name
        → (response : Message) (server : Text) (p : ParsedWireResponse)
        → ask i name ≡ answered response server
        → parse_wire_response response name query_type ≡ parsed p
        → follow_cname_chain name p.cname_links ≡ found next true
        → Reaches host i next

  module _ (host : Text) where
    -- A response for a name that the lookup asked for, of which something holds.
    abbrev pub Answered : (Text → ParsedWireResponse → Type 0) → Type 0
    Answered P =
        (i : ℕ) × (name : Text) × (response : Message) × (server : Text) × (p : ParsedWireResponse)
        × Reaches host (suc i) name
        × (ask i name ≡ answered response server)
        × (parse_wire_response response name query_type ≡ parsed p)
        × P name p

    abbrev pub Says : ℕ → Type 0
    Says code = Answered (λ name p. p.rcode ≡ code)

    abbrev pub SaysOther : Type 0
    SaysOther = Answered (λ name p. (p.rcode ≢ 0) × (p.rcode ≢ 2) × (p.rcode ≢ 3))

    -- A name that was asked for gets no answer, or one that is refused.
    abbrev pub IsUnanswered : LookupError → Type 0
    IsUnanswered e =
        (i : ℕ) × (name : Text) × Reaches host (suc i) name
        × ((ask i name ≡ unanswered e)
            ⊎ ((response : Message) × (server : Text) × (w : WireError) × (ask i name
                  ≡ answered response server)
                × (parse_wire_response response name query_type ≡ refused w)
                × (e ≡ wire_error w)))

    -- A response has a loop of aliases, or the lookup comes to a name for the second time.
    abbrev pub IsLooping : Type 0
    IsLooping =
        Answered (λ name p. follow_cname_chain name p.cname_links ≡ loop_detected)
        ⊎ ((i : ℕ) × (j : ℕ) × (name : Text) × (again : Text) × Reaches host i name
            × Reaches host j again
            × (j < i)
            × (canonical_dns_name name ≡ canonical_dns_name again))

    -- A response has too many aliases, or no query is left.
    abbrev pub IsTooLong : Type 0
    IsTooLong =
        Answered (λ name p. follow_cname_chain name p.cname_links ≡ too_long)
        ⊎ ((name : Text) × Reaches host 0 name)

    -- What the status of a result rests on.
    abbrev pub IsSupported : WireFamilyResult → Type 0
    IsSupported r = elim r.status [
      | unset ↦ (e : LookupError) × (r.err ≡ some e) × IsUnanswered e
      | success ↦ (r.err ≡ none) × Answered (λ name p. (p.rcode ≡ 0) × (p.has_address ≡ true))
      | nxdomain ↦ (r.err ≡ none) × Says 3
      | no_data ↦
          (r.err ≡ none)
          × Answered (λ name p.
            (p.rcode ≡ 0)
            × (p.has_address ≡ false)
            × ((end : Text) × (follow_cname_chain name p.cname_links ≡ found end false)))
      | servfail ↦ (r.err ≡ none) × Says 2
      | error ↦
          ((r.err ≡ none) × SaysOther)
          ⊎ ((r.err ≡ some cname_loop) × IsLooping)
          ⊎ ((r.err ≡ some cname_chain_too_long) × IsTooLong)
    ]

    -- The names that were asked for before are those that the lookup came to.
    abbrev AreReached : ℕ → List Text → Type 0
    AreReached n seen =
        All
          (λ key.
            (i : ℕ) × (name : Text) × Reaches host i name
            × (n < i)
            × (canonical_dns_name name ≡ key))
          seen

    AreReached-contains :
        (n : ℕ) (seen : List Text) (key : Text)
        → AreReached n seen
        → contains seen key ≡ true
        → (i : ℕ) × (name : Text) × Reaches host i name × (n < i) × (canonical_dns_name name ≡ key)
    AreReached-contains n [] key h m = cc
    AreReached-contains n (k ∷ seen) key h m = elim (Bool-cases (k == key)) [
      | inl same ↦ let (i, name, r, l, e) = h.0 in (i, name, r, l, e ∙ (text_eqb_iff k key).0 same)
      | inr other ↦ AreReached-contains n seen key h.1 (ground arith)
    ]

    AreReached-down : (n : ℕ) (seen : List Text) → AreReached (suc n) seen → AreReached n seen
    AreReached-down n [] h = tt
    AreReached-down n (k ∷ seen) h =
        let (i, name, r, l, e) = h.0 in ((i, name, r, omega arith, e), AreReached-down n seen h.1)

    decide-IsSupported :
        (i : ℕ) (current : Text) (response : Message) (server : Text) (p : ParsedWireResponse)
        (follow : Text → WireFamilyResult) (result : WireFamilyResult)
        → Reaches host (suc i) current
        → ask i current ≡ answered response server
        → parse_wire_response response current query_type ≡ parsed p
        → result.err ≡ none
        → ((next : Text) → Reaches host i next → IsSupported (follow next))
        → IsSupported (decide current p follow result)
    decide-IsSupported i current response server p follow result r a e clean more =
        if_cases IsSupported (eqb p.rcode 3)
          (λ c. (clean, (i, current, response, server, p, r, a, e, ground arith)))
          λ not3.
            if_cases IsSupported (eqb p.rcode 2)
              (λ c. (clean, (i, current, response, server, p, r, a, e, ground arith)))
              λ not2.
                if_cases IsSupported (not (eqb p.rcode 0))
                  (λ not0. inl (
                    clean,
                    (
                      i,
                      current,
                      response,
                      server,
                      p,
                      r,
                      a,
                      e,
                      (ground arith, ground arith, ground arith),
                    ),
                  ))
                  λ zero_code.
                    if_cases IsSupported p.has_address
                      (λ t. (clean, (i, current, response, server, p, r, a, e, (ground arith, t))))
                      λ f. after_chain zero_code f (follow_cname_chain current p.cname_links) refl
      where
        after_chain :
            not (eqb p.rcode 0) ≡ false
            → p.has_address ≡ false
            → (c : Chain) → follow_cname_chain current p.cname_links ≡ c
            → IsSupported (elim c [
              | loop_detected ↦ fail_with error cname_loop result
              | too_long ↦ fail_with error cname_chain_too_long result
              | found next followed ↦
                  if followed then follow next else record result { status = no_data }
            ])
        after_chain z f loop_detected c =
            inr (inl (refl, inl (i, current, response, server, p, r, a, e, c)))
        after_chain z f too_long c =
            inr (inr (refl, inl (i, current, response, server, p, r, a, e, c)))
        after_chain z f (found next true) c = more next (follows r response server p a e c)
        after_chain z f (found next false) c =
            (clean, (i, current, response, server, p, r, a, e, (ground arith, f, (next, c))))

    lookup_from-IsSupported :
        (fuel : ℕ) (seen : List Text) (current : Text) (result : WireFamilyResult)
        → Reaches host fuel current
        → AreReached fuel seen
        → result.status ≡ unset
        → result.err ≡ none
        → IsSupported (lookup_from ask query_type fuel seen current result)
    unfolding lookup_from
    lookup_from-IsSupported zero seen current result r known fresh clean =
        inr (inr (refl, inr (current, r)))
    lookup_from-IsSupported (suc fuel) seen current result r known fresh clean =
        if_cases IsSupported (contains seen (canonical_dns_name current))
          (λ m.
            let (i, name, first, l, e) =
              AreReached-contains (suc fuel) seen (canonical_dns_name current) known m in
            inr (inl (refl, inr (i, suc fuel, name, current, first, r, l, e))))
          λ _. asked (ask fuel current) refl λ p server next reached.
            lookup_from-IsSupported fuel (canonical_dns_name current ∷ seen) next
              (take_over server p result) reached
              ((suc fuel, current, r, omega arith, refl), AreReached-down fuel seen known) fresh
              clean
      where
        failed :
            (e : LookupError) (s : Text)
            → IsUnanswered e
            → IsSupported (record result { server = s; err = some e })
        failed e s h = rw fresh (e, refl, h)

        read :
            (response : Message) (server : Text)
            → ask fuel current ≡ answered response server
            → ((p : ParsedWireResponse) (server : Text) (next : Text)
                → Reaches host fuel next
                → IsSupported (
                    lookup_from ask query_type fuel
                      (canonical_dns_name current ∷ seen)
                      next
                      (take_over server p result)))
            → (q : Parsed ParsedWireResponse) → parse_wire_response response current query_type ≡ q
            → IsSupported (elim q [
              | refused e ↦ record result { server = server; err = some (wire_error e) }
              | parsed p ↦
                  decide current p
                    (λ next.
                      lookup_from ask query_type fuel
                        (canonical_dns_name current ∷ seen)
                        next
                        (take_over server p result))
                    (take_over server p result)
            ])
        read response server a more (refused e) q =
            failed (wire_error e) server (fuel, current, r, inr (response, server, e, a, q, refl))
        read response server a more (parsed p) q =
            decide-IsSupported fuel current response server p _ (take_over server p result) r a q
              clean (more p server)

        asked :
            (reply : Reply)
            → ask fuel current ≡ reply
            → ((p : ParsedWireResponse) (server : Text) (next : Text)
                → Reaches host fuel next
                → IsSupported (
                    lookup_from ask query_type fuel
                      (canonical_dns_name current ∷ seen)
                      next
                      (take_over server p result)))
            → IsSupported (elim reply [
              | unanswered e ↦ record result { err = some e }
              | answered response server ↦ elim (parse_wire_response response current query_type) [
                | refused e ↦ record result { server = server; err = some (wire_error e) }
                | parsed p ↦
                    decide current p
                      (λ next.
                        lookup_from ask query_type fuel
                          (canonical_dns_name current ∷ seen)
                          next
                          (take_over server p result))
                      (take_over server p result)
              ]
            ])
        asked (unanswered e) a more = failed e result.server (fuel, current, r, inl a)
        asked (answered response server) a more = read response server a more _ refl

  -- What the result of a lookup says rests on a response for a name that the lookup came to: the host
  -- itself, or a name that follows by the aliases of such a response. It is success on a response
  -- with code 0 and an address, no data on one without address and without an alias to follow,
  -- a missing name on code 3, a server failure on code 2, and an error on another code, on a loop of
  -- aliases or on too many. A result without a status has the error of such a query or of the
  -- reading of its response.
  pub lookup_family-IsSupported :
      (host : Text) → IsSupported host (lookup_family ask query_type host)
  unfolding lookup_family
  lookup_family-IsSupported host =
      lookup_from-IsSupported host maximum_cname_hops [] host no_result at_first tt refl refl
