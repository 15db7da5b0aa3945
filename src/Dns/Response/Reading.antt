-- ===== src/Dns/Response/Reading.antt =====
-- What an accepted response says of the message: its one question, and what was read of its records.
use mathlib.Core.List.{map, map-append, append-nil}
use mathlib.Core.Path.{subst}
use orynelo.Prelude.{
  ℕ, ◌≤◌, ◌≡◌, sym, ap, List, [], ◌∷◌, ◌++◌, Text, Bool, true, false, ◌&&◌, ◌||◌, not, ltb, eqb,
  arith, if◌then◌else◌, if_cases, All, All-append, contains, contains-append, number_equality,
  Option, none, some, ◌==◌, text_equality,
}
use orynelo.Dns.Names.{canonical_dns_name}
use orynelo.Dns.Chain.{CnameLink}
use orynelo.Dns.Response.{
  Section, section_done, broken, entry, Resource, unreadable, cname_resource, a_resource,
  aaaa_resource, soa_resource, other_resource, ParsedWireResponse, Parsed, parsed, observe_ttl,
  observe_alias, observe_address, read_answer, read_authority, type_a, type_aaaa,
}

abbrev pub ttl_of : ParsedWireResponse → Option ℕ
ttl_of r = if r.ttl_observed then some r.ttl_seconds else none

-- The least of some numbers; there is none without numbers.
abbrev pub IsLeast : Option ℕ → List ℕ → Type 0
IsLeast none ts = ts ≡ []
IsLeast (some m) ts = (contains ts m ≡ true) × All (λ t. m ≤ t) ts

All-weaken : {m n : ℕ} (ts : List ℕ) → m ≤ n → All (λ t. n ≤ t) ts → All (λ t. m ≤ t) ts
All-weaken [] h k = tt
All-weaken (t ∷ ts) h k = (omega (arith, k.0), All-weaken ts h k.1)

-- The lower of a number and one that may be there.
abbrev lower : Option ℕ → ℕ → ℕ
lower none value = value
lower (some m) value = if ltb value m then value else m

lower-IsLeast :
    (least : Option ℕ) (value : ℕ) (ts : List ℕ)
    → IsLeast least ts
    → IsLeast (some (lower least value)) (ts ++ value ∷ [])
lower-IsLeast none value ts h = rw h (ground arith)
lower-IsLeast (some m) value ts h =
    if_cases (λ low. IsLeast (some low) (ts ++ value ∷ [])) (ltb value m)
      (λ less. (
        ground (arith, contains-append ts (value ∷ []) value),
        All-append (λ t. value ≤ t) ts _ (All-weaken ts (ground arith) h.1) (omega arith, tt),
      ))
      (λ more. (
        ground (arith, contains-append ts (value ∷ []) m, h.0),
        All-append (λ t. m ≤ t) ts _ h.1 (ground arith, tt),
      ))

observe_ttl-IsLeast :
    (value : ℕ) (r : ParsedWireResponse) (ts : List ℕ)
    → IsLeast (ttl_of r) ts
    → IsLeast (ttl_of (observe_ttl value r)) (ts ++ value ∷ [])
unfolding observe_ttl
observe_ttl-IsLeast value r ts h =
    subst (λ o. IsLeast o (ts ++ value ∷ [])) (sym lowered) (lower-IsLeast (ttl_of r) value ts h)
  where
    lowered : ttl_of (observe_ttl value r) ≡ some (lower (ttl_of r) value)
    lowered = ground arith

-- The records of a section, and whether it was read to its end.
abbrev pub entries : {A : Type 0} → Section A → List A
entries section_done = []
entries (broken e) = []
entries (entry a rest) = a ∷ entries rest

abbrev pub is_whole : {A : Type 0} → Section A → Bool
is_whole section_done = true
is_whole (broken e) = false
is_whole (entry a rest) = is_whole rest

-- The times to live that count, for a question of a type, and the addresses that answer it.
abbrev pub answer_ttl : ℕ → Resource → List ℕ
answer_ttl expected_type (cname_resource name ttl cname) = ttl ∷ []
answer_ttl expected_type (a_resource ttl) = if eqb expected_type type_a then ttl ∷ [] else []
answer_ttl expected_type (aaaa_resource ttl) = if eqb expected_type type_aaaa then ttl ∷ [] else []
answer_ttl expected_type _ = []

abbrev pub authority_ttl : Resource → List ℕ
authority_ttl (soa_resource ttl minimum) = (if ltb minimum ttl then minimum else ttl) ∷ []
authority_ttl _ = []

abbrev pub is_address : ℕ → Resource → Bool
is_address expected_type (a_resource ttl) = eqb expected_type type_a
is_address expected_type (aaaa_resource ttl) = eqb expected_type type_aaaa
is_address expected_type _ = false

abbrev pub ttls : (Resource → List ℕ) → List Resource → List ℕ
ttls ttl [] = []
ttls ttl (r ∷ rs) = ttl r ++ ttls ttl rs

abbrev pub has_any : (Resource → Bool) → List Resource → Bool
has_any test [] = false
has_any test (r ∷ rs) = test r || has_any test rs

-- What holds of a response after a part of the records has been read.
pub record IsRead (rcode : ℕ) (ts : List ℕ) (found : Bool) (r : ParsedWireResponse) : Type 0 where
  pub code : r.rcode ≡ rcode
  pub least : IsLeast (ttl_of r) ts
  pub address : r.has_address ≡ found
  pub aliases : r.cnames ≡ map (λ (l : CnameLink). l.target) r.cname_links

abbrev pub KeepsReading :
    (Resource → ParsedWireResponse → Parsed ParsedWireResponse)
    → (Resource → List ℕ)
    → (Resource → Bool)
    → Type 0
KeepsReading read ttl test =
    (x : Resource) (r next : ParsedWireResponse) (rcode : ℕ) (ts : List ℕ) (address : Bool)
    → read x r ≡ parsed next
    → IsRead rcode ts address r
    → IsRead rcode (ts ++ ttl x) (address || test x) next

observe_ttl-IsRead :
    (value rcode : ℕ) (ts : List ℕ) (address : Bool) (r : ParsedWireResponse)
    → IsRead rcode ts address r
    → IsRead rcode (ts ++ value ∷ []) address (observe_ttl value r)
unfolding observe_ttl
observe_ttl-IsRead value rcode ts address r v = record {
  code = ground (arith, v.code);
  least = observe_ttl-IsLeast value r ts v.least;
  address = ground (arith, v.address);
  aliases = ground (arith, v.aliases);
}

observe_alias-IsRead :
    (name cname : Text) (rcode : ℕ) (ts : List ℕ) (address : Bool) (r : ParsedWireResponse)
    → IsRead rcode ts address r
    → IsRead rcode ts address (observe_alias name cname r)
unfolding observe_alias
observe_alias-IsRead name cname rcode ts address r v =
    if_cases (IsRead rcode ts address)
      (not (canonical_dns_name name == []) && not (canonical_dns_name cname == []))
      (λ _. record {
        code = v.code;
        least = v.least;
        address = v.address;
        aliases =
            rw (map-append (λ (l : CnameLink). l.target) r.cname_links)
              (ap (λ c. c ++ canonical_dns_name cname ∷ []) v.aliases);
      })
      (λ _. v)

observe_address-IsRead :
    (expected : Bool) (ttl rcode : ℕ) (ts : List ℕ) (address : Bool) (r : ParsedWireResponse)
    → IsRead rcode ts address r
    → IsRead rcode
        (ts ++ (if expected then ttl ∷ [] else []))
        (address || expected)
        (observe_address expected ttl r)
observe_address-IsRead true ttl rcode ts address r v =
    observe_ttl-IsRead ttl rcode ts (address || true) _
      (record { code = v.code; least = v.least; address = ground arith; aliases = v.aliases })
observe_address-IsRead false ttl rcode ts address r v =
    rw (append-nil ts) (subst (λ a. IsRead rcode ts a r) (ground arith) v)

pub skip-IsRead :
    (rcode : ℕ) (ts : List ℕ) (address : Bool) (r : ParsedWireResponse)
    → IsRead rcode ts address r
    → IsRead rcode (ts ++ []) (address || false) r
skip-IsRead rcode ts address r v = observe_address-IsRead false 0 rcode ts address r v

pub read_answer-KeepsReading :
    (expected_type : ℕ)
    → KeepsReading (read_answer expected_type) (answer_ttl expected_type) (is_address expected_type)
unfolding read_answer
read_answer-KeepsReading t (unreadable e) r next rcode ts address h v = cc
read_answer-KeepsReading t (cname_resource name ttl cname) r next rcode ts address h v =
    subst (IsRead rcode _ _) (ground arith) (
      subst (λ a. IsRead rcode (ts ++ ttl ∷ []) a (observe_ttl ttl (observe_alias name cname r)))
        (ground arith)
        (observe_ttl-IsRead ttl rcode ts address _
          (observe_alias-IsRead name cname rcode ts address r v)))
read_answer-KeepsReading t (a_resource ttl) r next rcode ts address h v =
    subst (IsRead rcode _ _) (ground arith)
      (observe_address-IsRead (eqb t type_a) ttl rcode ts address r v)
read_answer-KeepsReading t (aaaa_resource ttl) r next rcode ts address h v =
    subst (IsRead rcode _ _) (ground arith)
      (observe_address-IsRead (eqb t type_aaaa) ttl rcode ts address r v)
read_answer-KeepsReading t (soa_resource ttl minimum) r next rcode ts address h v =
    subst (IsRead rcode _ _) (ground arith) (skip-IsRead rcode ts address r v)
read_answer-KeepsReading t other_resource r next rcode ts address h v =
    subst (IsRead rcode _ _) (ground arith) (skip-IsRead rcode ts address r v)

pub read_authority-KeepsReading : KeepsReading read_authority authority_ttl (λ x. false)
unfolding read_authority
read_authority-KeepsReading (unreadable e) r next rcode ts address h v = cc
read_authority-KeepsReading (soa_resource ttl minimum) r next rcode ts address h v =
    let value = if ltb minimum ttl then minimum else ttl in
    subst (IsRead rcode _ _) (ground arith) (
      subst (λ a. IsRead rcode (ts ++ value ∷ []) a (observe_ttl value r)) (ground arith)
        (observe_ttl-IsRead value rcode ts address r v))
read_authority-KeepsReading (cname_resource name ttl cname) r next rcode ts address h v =
    subst (IsRead rcode _ _) (ground arith) (skip-IsRead rcode ts address r v)
read_authority-KeepsReading (a_resource ttl) r next rcode ts address h v =
    subst (IsRead rcode _ _) (ground arith) (skip-IsRead rcode ts address r v)
read_authority-KeepsReading (aaaa_resource ttl) r next rcode ts address h v =
    subst (IsRead rcode _ _) (ground arith) (skip-IsRead rcode ts address r v)
read_authority-KeepsReading other_resource r next rcode ts address h v =
    subst (IsRead rcode _ _) (ground arith) (skip-IsRead rcode ts address r v)
