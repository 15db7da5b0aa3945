-- ===== src/Dns/Examples.antt =====
-- A resolver of one server that answers with an alias and an address, and the theorems at it.
use orynelo.Prelude.{
  ℕ, ◌≡◌, refl, List, [], ◌∷◌, Text, true, false, none, some, length, eqb, get_or, if◌then◌else◌,
  ◌||◌,
}
use orynelo.Prelude.Int.{pos}
use orynelo.Dns.Names.{canonical_dns_name}
use orynelo.Dns.Chain.{
  CnameLink, found, follow_cname_chain, next_name, follow_from, follow_cname_chain-ends, too_long,
}
use orynelo.Dns.Response.{
  Section, section_done, entry, Message, message, Resource, Question, Header, cname_resource,
  a_resource, ParsedWireResponse, parsed, parse_wire_response, read_questions, read_section,
  read_answer, read_authority, observe_ttl, observe_alias,
}
use orynelo.Dns.Response.Accepted.{IsAccepted, parse_wire_response-IsAccepted}
use orynelo.Dns.Family.{
  Reply, answered, received, query, query_servers, lookup_family, lookup_from, success,
  minimum_positive_duration,
}
use orynelo.Dns.Family.Support.{IsSupported, lookup_family-IsSupported}
use orynelo.Dns.Selection.{
  IpLibrary, SelectionOptions, select_addresses, append_canonical_unique, canonical_ip,
  matches_requested_family, option_connect_ip, candidate_addresses, effective_limit, select_up_to,
}
use orynelo.Dns.Selected.{IsSelection, select_addresses-IsSelection}

abbrev a : Text
a = 97 ∷ []

abbrev b : Text
b = 98 ∷ []

abbrev links : List CnameLink
links = (record { owner = a; target = b }) ∷ []

-- Eight aliases in a row, the names being single letters: the ninth name has none.
abbrev eight_links : List CnameLink
eight_links =
    (record { owner = 97 ∷ []; target = 98 ∷ [] })
    ∷ (record { owner = 98 ∷ []; target = 99 ∷ [] })
    ∷ (record { owner = 99 ∷ []; target = 100 ∷ [] })
    ∷ (record { owner = 100 ∷ []; target = 101 ∷ [] })
    ∷ (record { owner = 101 ∷ []; target = 102 ∷ [] })
    ∷ (record { owner = 102 ∷ []; target = 103 ∷ [] })
    ∷ (record { owner = 103 ∷ []; target = 104 ∷ [] })
    ∷ (record { owner = 104 ∷ []; target = 105 ∷ [] })
    ∷ []

-- A chain of exactly eight aliases ends, and is refused as one that exceeds eight.
eight_links_are_too_many : follow_cname_chain a eight_links ≡ too_long
unfolding follow_cname_chain follow_from next_name canonical_dns_name
eight_links_are_too_many = refl

a_leads_to_b : follow_cname_chain a links ≡ found (98 ∷ 46 ∷ []) true
unfolding follow_cname_chain follow_from next_name canonical_dns_name
a_leads_to_b = refl

-- The name A., in capitals and with a dot.
abbrev shouted : Text
shouted = 65 ∷ 46 ∷ []

follow_cname_chain-ends_example : follow_cname_chain shouted links ≡ found (98 ∷ 46 ∷ []) true
unfolding next_name canonical_dns_name
follow_cname_chain-ends_example =
    follow_cname_chain-ends links shouted 1 b ((λ h. cc), (refl, refl))

abbrev question : Question
question = record { name = shouted; type = 1; class = 1 }

abbrev header : Header
header = record { response = true; truncated = false; rcode = 0 }

abbrev answers : Section Resource
answers = entry (cname_resource a 300 b) (entry (a_resource 60) section_done)

abbrev accepted : ParsedWireResponse
accepted = record {
  rcode = 0;
  has_address = true;
  cnames = b ∷ [];
  cname_links = links;
  ttl_seconds = 60;
  ttl_observed = true;
}

abbrev response : Message
response = message header (entry question section_done) answers section_done

response_is_accepted : parse_wire_response response a 1 ≡ parsed accepted
unfolding parse_wire_response read_questions read_section read_answer read_authority observe_ttl
    observe_alias canonical_dns_name
response_is_accepted = refl

parse_wire_response-IsAccepted_example :
    IsAccepted a 1 header (entry question section_done) answers section_done accepted
parse_wire_response-IsAccepted_example =
    parse_wire_response-IsAccepted a 1 header (entry question section_done) answers section_done
      accepted response_is_accepted

abbrev ask : ℕ → Text → Reply
ask i name = answered response b

lookup_family_succeeds : (lookup_family ask 1 a).status ≡ success
unfolding lookup_family lookup_from parse_wire_response read_questions read_section read_answer
    read_authority observe_ttl observe_alias canonical_dns_name minimum_positive_duration
lookup_family_succeeds = refl

lookup_family-IsSupported_example : IsSupported ask 1 a (lookup_family ask 1 a)
lookup_family-IsSupported_example = lookup_family-IsSupported ask 1 a

a_replies : query none (λ s. received response) (λ s. false) (a ∷ b ∷ []) ≡ answered response a
unfolding query query_servers
a_replies = refl

-- Addresses of four bytes, whose text is that of the first one.
abbrev lib : IpLibrary
lib = record {
  to4 = λ ip. if eqb (length ip) 4 then some ip else none;
  to16 = λ ip. if eqb (length ip) 4 || eqb (length ip) 16 then some ip else none;
  ip_string =
      λ ip. if eqb (get_or ip 0 0) 10 then "10" else if eqb (get_or ip 0 0) 20 then "20" else "30";
  parse_addr = λ s. none;
}

abbrev options : SelectionOptions
options = record {
  connect_ip = "";
  ip_version = "auto";
  probe_mode = "client_effective";
  address_limit = pos 4;
}

abbrev resolved : List Text
resolved =
    (10 ∷ 0 ∷ 0 ∷ 1 ∷ [])
    ∷ (10 ∷ 0 ∷ 0 ∷ 1 ∷ [])
    ∷ (20 ∷ 0 ∷ 0 ∷ 1 ∷ [])
    ∷ (30 ∷ 0 ∷ 0 ∷ 1 ∷ [])
    ∷ []

two_selected : select_addresses lib resolved [] options ≡ record {
  addresses = (10 ∷ 0 ∷ 0 ∷ 1 ∷ []) ∷ (20 ∷ 0 ∷ 0 ∷ 1 ∷ []) ∷ [];
  total = 3;
  skipped_addresses = 1;
}
unfolding select_addresses append_canonical_unique canonical_ip matches_requested_family
    option_connect_ip candidate_addresses effective_limit select_up_to
two_selected = refl

select_addresses-IsSelection_example :
    IsSelection lib options (select_addresses lib resolved [] options)
select_addresses-IsSelection_example = select_addresses-IsSelection lib resolved [] options
