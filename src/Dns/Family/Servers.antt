-- ===== src/Dns/Family/Servers.antt =====
-- Which server answers a query.
use orynelo.Prelude.{
  ◌≡◌, refl, List, [], ◌∷◌, ◌++◌, Text, Bool, false, text_equality, if◌then◌else◌, if_cases, All,
  ap, none, String,
}
use orynelo.Dns.Response.{Message}
use orynelo.Dns.Family.{
  exchange_errors, Reply, answered, unanswered, Exchanged, received, exchange_error, query_servers,
  query,
}

-- The server that replied, the servers that failed before it, and those not asked.
abbrev pub IsFirst : (Text → Exchanged) → (Text → Bool) → List Text → Message → Text → Type 0
IsFirst exchange is_over servers response server =
    (before : List Text) × (after : List Text) × (servers ≡ before ++ server ∷ after)
    × (exchange server ≡ received response)
    × All (λ s. ((e : String) × (exchange s ≡ exchange_error e)) × (is_over s ≡ false)) before

query_servers-IsFirst :
    (exchange : Text → Exchanged) (is_over : Text → Bool) (failures : List String)
    (servers : List Text) (response : Message) (server : Text)
    → query_servers exchange is_over failures servers ≡ answered response server
    → IsFirst exchange is_over servers response server
unfolding query_servers
query_servers-IsFirst exchange is_over failures [] response server = λ h. cc
query_servers-IsFirst exchange is_over failures (s ∷ rest) response server =
    first (exchange s) refl
      λ e. query_servers-IsFirst exchange is_over (failures ++ e ∷ []) rest response server
  where
    Goal : Type 0
    Goal = IsFirst exchange is_over (s ∷ rest) response server

    first :
        (x : Exchanged)
        → exchange s ≡ x
        → ((e : String)
            → query_servers exchange is_over (failures ++ e ∷ []) rest ≡ answered response server
            → IsFirst exchange is_over rest response server)
        → elim x [
          | received r ↦ answered r s
          | exchange_error e ↦
              if is_over s
              then unanswered (exchange_errors (failures ++ e ∷ []))
              else query_servers exchange is_over (failures ++ e ∷ []) rest
        ]
          ≡ answered response server
        → Goal
    first (received r) x more = λ h. ([], rest, cc, cc, tt)
    first (exchange_error e) x more =
        if_cases (λ (reply : Reply). reply ≡ answered response server → Goal) (is_over s)
          (λ _ h. cc)
          λ on h.
            let (before, after, same, reply, failed) = more e h in
            (s ∷ before, after, ap (s ∷◌) same, reply, (((e, x), on), failed))

-- A query answers with the response of a server that replied, and only after every server before it
-- failed while the context was not done.
query-IsFirst :
    (exchange : Text → Exchanged) (is_over : Text → Bool) (servers : List Text) (response : Message)
    (server : Text)
    → query none exchange is_over servers ≡ answered response server
    → IsFirst exchange is_over servers response server
unfolding query
query-IsFirst exchange is_over servers response server h =
    query_servers-IsFirst exchange is_over [] servers response server h
