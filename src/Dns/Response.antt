-- ===== src/Dns/Response.antt =====
-- `parseWireResponse`: what is kept of one response.
pub mod Reading
pub mod Accepted
use orynelo.Prelude.{
  ℕ, suc, ◌+◌, ◌≤◌, ◌<◌, ◌≡◌, List, [], ◌∷◌, ◌++◌, Text, Bool, true, false, ◌&&◌, ◌||◌, not, ltb,
  leb, eqb, ◌==◌, text_equality, if◌then◌else◌, Option, none, some, String,
}
use orynelo.Dns.Names.{canonical_dns_name}
use orynelo.Dns.Chain.{CnameLink}

-- Types and the class of a question, by their numbers.
abbrev pub type_a : ℕ
type_a = 1

abbrev pub type_aaaa : ℕ
type_aaaa = 28

abbrev pub class_inet : ℕ
class_inet = 1

-- What the message parser reads: a section is a sequence of entries that ends (`ErrSectionDone`) or
-- breaks off with an error.
pub data Section (A : Type 0) : Type 0 where
  section_done : Section A
  broken : String → Section A
  entry : A → Section A → Section A

pub record Header : Type 0 where
  pub response : Bool
  pub truncated : Bool
  pub rcode : ℕ

pub record Question : Type 0 where
  pub name : Text
  pub type : ℕ
  pub class : ℕ

-- A record with its time to live, by its type; `unreadable` is one whose body the parser cannot read
-- (or skip, where the code skips it).
pub data Resource : Type 0 where
  unreadable : String → Resource
  cname_resource : Text → ℕ → Text → Resource
  a_resource aaaa_resource : ℕ → Resource
  soa_resource : ℕ → ℕ → Resource
  other_resource : Resource

pub data Message : Type 0 where
  not_a_message : String → Message
  message : Header → Section Question → Section Resource → Section Resource → Message

-- `parsedWireResponse`
pub record ParsedWireResponse : Type 0 where
  pub rcode : ℕ
  pub has_address : Bool
  pub cnames : List Text
  pub cname_links : List CnameLink
  pub ttl_seconds : ℕ
  pub ttl_observed : Bool

pub data WireError : Type 0 where
  parser_error : String → WireError
  incomplete too_many_questions wrong_question no_single_question : WireError
  too_many_answers too_many_authorities : WireError

pub data Parsed (A : Type 0) : Type 0 where
  parsed : A → Parsed A
  refused : WireError → Parsed A

abbrev pub maximum_dns_questions : ℕ
maximum_dns_questions = 4

abbrev pub maximum_dns_answers : ℕ
maximum_dns_answers = 64

abbrev pub maximum_dns_authorities : ℕ
maximum_dns_authorities = 32

-- `observeTTL`
unfoldable pub observe_ttl : ℕ → ParsedWireResponse → ParsedWireResponse
observe_ttl value result =
    if not result.ttl_observed || ltb value result.ttl_seconds
    then record result { ttl_seconds = value; ttl_observed = true }
    else result

abbrev pub matches : Text → ℕ → Question → Bool
matches expected_name expected_type question =
    canonical_dns_name question.name == canonical_dns_name expected_name
    && eqb question.type expected_type
    && eqb question.class class_inet

-- The loop over the questions; the result is their number.
unfoldable pub read_questions : Text → ℕ → ℕ → Section Question → Parsed ℕ
read_questions expected_name expected_type count section_done = parsed count
read_questions expected_name expected_type count (broken e) = refused (parser_error e)
read_questions expected_name expected_type count (entry question rest) =
    let tail = read_questions expected_name expected_type (suc count) rest in
    if ltb maximum_dns_questions (suc count)
    then refused too_many_questions
    else if eqb count 0 && not (matches expected_name expected_type question)
    then refused wrong_question
    else tail

-- The names of an alias are kept unless one of them is empty.
unfoldable pub observe_alias : Text → Text → ParsedWireResponse → ParsedWireResponse
observe_alias name cname result =
    let owner = canonical_dns_name name in
    let target = canonical_dns_name cname in
    if not (owner == []) && not (target == [])
    then record result {
      cnames = result.cnames ++ target ∷ [];
      cname_links = result.cname_links ++ (record { owner = owner; target = target }) ∷ [];
    }
    else result

abbrev pub observe_address : Bool → ℕ → ParsedWireResponse → ParsedWireResponse
observe_address expected ttl result =
    if expected then observe_ttl ttl (record result { has_address = true }) else result

-- The body of one answer.
unfoldable pub read_answer : ℕ → Resource → ParsedWireResponse → Parsed ParsedWireResponse
unfolding observe_alias observe_ttl
read_answer expected_type (unreadable e) result = refused (parser_error e)
read_answer expected_type (cname_resource name ttl cname) result =
    parsed (observe_ttl ttl (observe_alias name cname result))
read_answer expected_type (a_resource ttl) result =
    parsed (observe_address (eqb expected_type type_a) ttl result)
read_answer expected_type (aaaa_resource ttl) result =
    parsed (observe_address (eqb expected_type type_aaaa) ttl result)
read_answer expected_type (soa_resource _ _) result = parsed result
read_answer expected_type other_resource result = parsed result

-- The body of one record of the authority section.
unfoldable pub read_authority : Resource → ParsedWireResponse → Parsed ParsedWireResponse
unfolding observe_ttl
read_authority (unreadable e) result = refused (parser_error e)
read_authority (soa_resource ttl minimum) result =
    parsed (observe_ttl (if ltb minimum ttl then minimum else ttl) result)
read_authority _ result = parsed result

-- A loop over records, at most `limit` of them.
unfoldable pub read_section :
    (Resource → ParsedWireResponse → Parsed ParsedWireResponse)
    → ℕ
    → WireError
    → ℕ
    → Section Resource
    → ParsedWireResponse
    → Parsed ParsedWireResponse
read_section read limit too_many count section_done result = parsed result
read_section read limit too_many count (broken e) result = refused (parser_error e)
read_section read limit too_many count (entry r rest) result =
    if ltb limit (suc count) then refused too_many else elim (read r result) [
      | refused e ↦ refused e
      | parsed next ↦ read_section read limit too_many (suc count) rest next
    ]

abbrev pub start_response : ℕ → ParsedWireResponse
start_response rcode = record {
  rcode = rcode;
  has_address = false;
  cnames = [];
  cname_links = [];
  ttl_seconds = 0;
  ttl_observed = false;
}

-- The sections after the questions.
abbrev pub read_records : ℕ → ℕ → Section Resource → Section Resource → Parsed ParsedWireResponse
read_records expected_type rcode answers authorities =
    elim (read_section (read_answer expected_type) maximum_dns_answers too_many_answers 0 answers
      (start_response rcode)) [
        | refused e ↦ refused e
        | parsed result ↦
            read_section read_authority maximum_dns_authorities too_many_authorities 0 authorities
              result
      ]

-- `parseWireResponse`
unfoldable pub parse_wire_response : Message → Text → ℕ → Parsed ParsedWireResponse
unfolding read_questions read_section read_answer read_authority
parse_wire_response (not_a_message e) expected_name expected_type = refused (parser_error e)
parse_wire_response (message header questions answers authorities) expected_name expected_type =
    if not header.response || header.truncated
    then refused incomplete
    else elim (read_questions expected_name expected_type 0 questions) [
      | refused e ↦ refused e
      | parsed count ↦
          if not (eqb count 1)
          then refused no_single_question
          else read_records expected_type header.rcode answers authorities
    ]
