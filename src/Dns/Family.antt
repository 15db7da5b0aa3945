-- ===== src/Dns/Family.antt =====
-- `lookupFamily` and `query`: one record type is looked up, through the aliases of the responses.
pub mod Support
pub mod Servers
use orynelo.Prelude.{
  ℕ, zero, suc, ◌+◌, ◌*◌, ◌≤◌, ◌<◌, ◌≡◌, refl, ◌≢◌, ◌⊎◌, inl, inr, List, [], ◌∷◌, ◌++◌, Text, Bool,
  true, false, ◌||◌, not, ltb, eqb, ◌==◌, text_equality, contains, arith, Bool-cases, if◌then◌else◌,
  if_cases, All, ap, Option, none, some, String,
}
use orynelo.Dns.Names.{canonical_dns_name}
use orynelo.Dns.Chain.{
  Chain, found, loop_detected, too_long, follow_cname_chain, maximum_cname_hops,
}
use orynelo.Dns.Response.{
  Message, ParsedWireResponse, WireError, Parsed, parsed, refused, parse_wire_response,
}

-- `DNSFamilyStatus`, of which a lookup that fails leaves the zero value.
pub data DnsFamilyStatus : Type 0 where
  unset success nxdomain no_data servfail error : DnsFamilyStatus

pub data LookupError : Type 0 where
  exchange_errors : List String → LookupError
  query_error : String → LookupError
  wire_error : WireError → LookupError
  cname_loop cname_chain_too_long : LookupError

-- `wireFamilyResult`, less the record type; durations in nanoseconds.
pub record WireFamilyResult : Type 0 where
  pub status : DnsFamilyStatus
  pub rcode : Option ℕ
  pub cnames : List Text
  pub ttl : ℕ
  pub server : Text
  pub err : Option LookupError

pub data Reply : Type 0 where
  answered : Message → Text → Reply
  unanswered : LookupError → Reply

-- What one exchange with a server gives.
pub data Exchanged : Type 0 where
  received : Message → Exchanged
  exchange_error : String → Exchanged

-- The loop of `query` over the servers, of which a resolver has one at least (`LookupDetails`);
-- `is_over` is `ctx.Err() != nil` after a failure.
unfoldable pub query_servers : (Text → Exchanged) → (Text → Bool) → List String → List Text → Reply
query_servers exchange is_over failures [] = unanswered (exchange_errors failures)
query_servers exchange is_over failures (server ∷ servers) = elim (exchange server) [
  | received response ↦ answered response server
  | exchange_error e ↦
      if is_over server
      then unanswered (exchange_errors (failures ++ e ∷ []))
      else query_servers exchange is_over (failures ++ e ∷ []) servers
]

-- `query`; `unprepared` is the error of the query's number or of the message builder.
unfoldable pub query : Option String → (Text → Exchanged) → (Text → Bool) → List Text → Reply
unfolding query_servers
query (some e) exchange is_over servers = unanswered (query_error e)
query none exchange is_over servers = query_servers exchange is_over [] servers

-- `minimumPositiveDuration`
unfoldable pub minimum_positive_duration : ℕ → ℕ → ℕ
minimum_positive_duration current candidate =
    if eqb candidate 0
    then current
    else if eqb current 0 || ltb candidate current
    then candidate
    else current

abbrev pub second : ℕ
second = 1000000000

abbrev pub fail_with : DnsFamilyStatus → LookupError → WireFamilyResult → WireFamilyResult
fail_with status e result = record result { status = status; err = some e }

-- What the result takes over from each response.
abbrev pub take_over : Text → ParsedWireResponse → WireFamilyResult → WireFamilyResult
take_over server p result = record result {
  server = server;
  rcode = some p.rcode;
  cnames = result.cnames ++ p.cnames;
  ttl =
      if p.ttl_observed
      then minimum_positive_duration result.ttl (p.ttl_seconds * second)
      else result.ttl;
}

-- The switch over the response code; `follow` goes on with the next name.
abbrev pub decide :
    Text → ParsedWireResponse → (Text → WireFamilyResult) → WireFamilyResult → WireFamilyResult
decide current p follow result =
    if eqb p.rcode 3
    then record result { status = nxdomain }
    else if eqb p.rcode 2
    then record result { status = servfail }
    else if not (eqb p.rcode 0)
    then record result { status = error }
    else if p.has_address
    then record result { status = success }
    else elim (follow_cname_chain current p.cname_links) [
      | loop_detected ↦ fail_with error cname_loop result
      | too_long ↦ fail_with error cname_chain_too_long result
      | found next followed ↦ if followed then follow next else record result { status = no_data }
    ]

abbrev pub no_result : WireFamilyResult
no_result = record { status = unset; rcode = none; cnames = []; ttl = 0; server = []; err = none }

module _ (ask : ℕ → Text → Reply) (query_type : ℕ) where
  unfoldable pub lookup_from : ℕ → List Text → Text → WireFamilyResult → WireFamilyResult
  unfolding minimum_positive_duration
  lookup_from zero seen current result = fail_with error cname_chain_too_long result
  lookup_from (suc fuel) seen current result =
      let key = canonical_dns_name current in
      if contains seen key then fail_with error cname_loop result else elim (ask fuel current) [
        | unanswered e ↦ record result { err = some e }
        | answered response server ↦ elim (parse_wire_response response current query_type) [
          | refused e ↦ record result { server = server; err = some (wire_error e) }
          | parsed p ↦
              decide current p
                (λ next. lookup_from fuel (key ∷ seen) next (take_over server p result))
                (take_over server p result)
        ]
      ]

  -- `lookupFamily`; the names asked are numbered downwards from 7.
  unfoldable pub lookup_family : Text → WireFamilyResult
  unfolding lookup_from
  lookup_family host = lookup_from maximum_cname_hops [] host no_result
