-- ===== src/Dns/Response/Accepted.antt =====
-- What an accepted response says of the message as a whole.
use mathlib.Core.List.{map, append_assoc}
use mathlib.Core.Path.{subst}
use orynelo.Prelude.{
  ℕ, suc, ◌+◌, ◌≤◌, ◌≡◌, refl, ◌∙◌, ap, List, [], ◌∷◌, ◌++◌, Text, Bool, true, false, ◌||◌, not,
  ltb, eqb, arith, if◌then◌else◌, if_cases, number_equality, length, text_equality,
}
use orynelo.Dns.Chain.{CnameLink}
use orynelo.Dns.Response.{
  Section, section_done, broken, entry, Question, Resource, message, ParsedWireResponse, WireError,
  Parsed, parsed, refused, matches, read_questions, read_answer, read_authority, read_section,
  parse_wire_response, start_response, no_single_question, too_many_answers, too_many_authorities,
  maximum_dns_answers, maximum_dns_authorities, read_records, Header,
}
use orynelo.Dns.Response.Reading.{
  ttl_of, IsLeast, entries, is_whole, answer_ttl, authority_ttl, is_address, ttls, has_any, IsRead,
  KeepsReading, read_answer-KeepsReading, read_authority-KeepsReading, skip-IsRead,
}

-- A section that was read to its end, after `count` of its records, and within its limit.
record IsSectionRead (ttl : Resource → List ℕ) (test : Resource → Bool) (limit count : ℕ)
    (s : Section Resource) (rcode : ℕ) (ts : List ℕ) (found : Bool) (next : ParsedWireResponse)
    : Type 0 where
  whole : is_whole s ≡ true
  few : count + length (entries s) ≤ limit
  reads : IsRead rcode (ts ++ ttls ttl (entries s)) (found || has_any test (entries s)) next

module _ (read : Resource → ParsedWireResponse → Parsed ParsedWireResponse)
    (ttl : Resource → List ℕ) (test : Resource → Bool) (keeps : KeepsReading read ttl test)
    (limit : ℕ) (too_many : WireError) where
  read_section-IsSectionRead :
      (count : ℕ) (s : Section Resource) (r next : ParsedWireResponse) (rcode : ℕ) (ts : List ℕ)
      (found : Bool)
      → count ≤ limit
      → IsRead rcode ts found r
      → read_section read limit too_many count s r ≡ parsed next
      → IsSectionRead ttl test limit count s rcode ts found next
  unfolding read_section
  read_section-IsSectionRead count section_done r next rcode ts found few v = λ h. record {
    whole = refl;
    few = omega arith;
    reads = subst (IsRead rcode _ _) (ground arith) (skip-IsRead rcode ts found r v);
  }
  read_section-IsSectionRead count (broken e) r next rcode ts found few v = λ h. cc
  read_section-IsSectionRead count (entry x rest) r next rcode ts found few v =
      if_cases Says (ltb limit (suc count)) (λ _ h. cc)
        λ room. after (read x r) refl λ now e h.
          read_section-IsSectionRead (suc count) rest now next rcode (ts ++ ttl x) (found || test x)
            (ground arith) (keeps x r now rcode ts found e v) h
    where
      Says : Parsed ParsedWireResponse → Type 0
      Says p =
          p ≡ parsed next → IsSectionRead ttl test limit count (entry x rest) rcode ts found next

      after :
          (p : Parsed ParsedWireResponse)
          → read x r ≡ p
          → ((now : ParsedWireResponse)
              → read x r ≡ parsed now
              → read_section read limit too_many (suc count) rest now ≡ parsed next
              → IsSectionRead ttl test limit
                  (suc count)
                  rest
                  rcode
                  (ts ++ ttl x)
                  (found || test x)
                  next)
          → Says (elim p [
            | refused e ↦ refused e
            | parsed now ↦ read_section read limit too_many (suc count) rest now
          ])
      after (refused e') e on h = cc
      after (parsed now) e on h =
          let w = on now e h in
          record {
            whole = w.whole;
            few = omega (arith, w.few);
            reads =
                subst (λ b. IsRead rcode (ts ++ (ttl x ++ ttls ttl (entries rest))) b next)
                  (ground arith)
                  (subst
                    (λ us. IsRead rcode us ((found || test x) || has_any test (entries rest)) next)
                    (append_assoc ts (ttl x) _) w.reads);
          }

read_questions-counts :
    (name : Text) (type count n : ℕ) (s : Section Question)
    → read_questions name type count s ≡ parsed n
    → (n ≡ count + length (entries s)) × (is_whole s ≡ true)
unfolding read_questions
read_questions-counts name type count n section_done h = ground arith
read_questions-counts name type count n (broken e) h = cc
read_questions-counts name type count n (entry q rest) h =
    ground (arith, read_questions-counts name type (suc count) n rest)

no_entries :
    {A : Type 0} (s : Section A) → length (entries s) ≡ 0 → is_whole s ≡ true → s ≡ section_done
no_entries section_done h w = refl
no_entries (broken e) h w = cc
no_entries (entry a rest) h w = absurd (omega arith)

-- The one question of an accepted response.
read_questions-one :
    (name : Text) (type : ℕ) (s : Section Question)
    → read_questions name type 0 s ≡ parsed 1
    → (q : Question) × (s ≡ entry q section_done) × (matches name type q ≡ true)
unfolding read_questions
read_questions-one name type section_done = λ h. absurd (ground arith)
read_questions-one name type (broken e) = λ h. cc
read_questions-one name type (entry q rest) =
    if_cases Says (not (matches name type q)) (λ _ h. cc)
      λ same h.
        let (n, w) = read_questions-counts name type 1 1 rest h in
        (q, ap (entry q) (no_entries rest (omega (arith, n)) w), ground arith)
  where
    Says : Parsed ℕ → Type 0
    Says p =
        p ≡ parsed 1
        → (x : Question) × (entry q rest ≡ entry x section_done) × (matches name type x ≡ true)

-- What is kept of an accepted message.
pub record IsAccepted (name : Text) (type : ℕ) (header : Header) (questions : Section Question)
    (answers authorities : Section Resource) (r : ParsedWireResponse) : Type 0 where
  pub complete : (header.response ≡ true) × (header.truncated ≡ false)
  pub question : (q : Question) × (questions ≡ entry q section_done) × (matches name type q ≡ true)
  pub whole : (is_whole answers ≡ true) × (is_whole authorities ≡ true)
  pub bounded :
      (length (entries answers) ≤ maximum_dns_answers)
      × (length (entries authorities) ≤ maximum_dns_authorities)
  pub code : r.rcode ≡ header.rcode
  pub ttl :
      IsLeast
        (ttl_of r)
        (ttls (answer_ttl type) (entries answers) ++ ttls authority_ttl (entries authorities))
  pub address : r.has_address ≡ has_any (is_address type) (entries answers)
  pub aliases : r.cnames ≡ map (λ (l : CnameLink). l.target) r.cname_links

has_any-false : (rs : List Resource) → has_any (λ x. false) rs ≡ false
has_any-false [] = refl
has_any-false (r ∷ rs) = has_any-false rs

-- A message that is accepted is a complete response with exactly one question, which is the one
-- asked; both sections were read to their ends, with at most 64 and 32 records. The code is the
-- header's, the time to live is the least of those that count, if there is one, an address is
-- reported exactly when an answer is one of the type asked for, and the names of the aliases are
-- their targets.
pub parse_wire_response-IsAccepted :
    (name : Text) (type : ℕ) (header : Header) (questions : Section Question)
    (answers authorities : Section Resource) (r : ParsedWireResponse)
    → parse_wire_response (message header questions answers authorities) name type ≡ parsed r
    → IsAccepted name type header questions answers authorities r
unfolding parse_wire_response
parse_wire_response-IsAccepted name type header questions answers authorities r =
    if_cases Says (not header.response || header.truncated) (λ _ h. cc)
      λ complete. after_questions complete (read_questions name type 0 questions) refl
  where
    Says : Parsed ParsedWireResponse → Type 0
    Says p = p ≡ parsed r → IsAccepted name type header questions answers authorities r

    started : IsRead header.rcode [] false (start_response header.rcode)
    started = record { code = refl; least = refl; address = refl; aliases = refl }

    after_answers :
        (not header.response || header.truncated) ≡ false
        → read_questions name type 0 questions ≡ parsed 1
        → (p : Parsed ParsedWireResponse)
        → read_section
            (read_answer type)
            maximum_dns_answers
            too_many_answers
            0
            answers
            (start_response header.rcode)
          ≡ p
        → Says (elim p [
          | refused e ↦ refused e
          | parsed result ↦
              read_section read_authority maximum_dns_authorities too_many_authorities 0 authorities
                result
        ])
    after_answers complete one (refused e') e h = cc
    after_answers complete one (parsed result) e h =
        let v =
          read_section-IsSectionRead (read_answer type) (answer_ttl type) (is_address type)
            (read_answer-KeepsReading type) maximum_dns_answers too_many_answers 0 answers
            (start_response header.rcode) result header.rcode [] false (omega arith) started e in
        let w =
          read_section-IsSectionRead read_authority authority_ttl (λ x. false)
            read_authority-KeepsReading maximum_dns_authorities too_many_authorities 0 authorities
            result r header.rcode (ttls (answer_ttl type) (entries answers))
            (has_any (is_address type) (entries answers)) (omega arith) v.reads h in
        record {
          complete = ground arith;
          question = read_questions-one name type questions one;
          whole = (v.whole, w.whole);
          bounded = (omega (arith, v.few), omega (arith, w.few));
          code = w.reads.code;
          ttl = w.reads.least;
          address = ground (arith, w.reads.address, has_any-false (entries authorities));
          aliases = w.reads.aliases;
        }

    after_questions :
        (not header.response || header.truncated) ≡ false
        → (p : Parsed ℕ) → read_questions name type 0 questions ≡ p
        → Says (elim p [
          | refused e ↦ refused e
          | parsed count ↦
              if not (eqb count 1)
              then refused no_single_question
              else read_records type header.rcode answers authorities
        ])
    after_questions complete (refused e') e = λ h. cc
    after_questions complete (parsed count) e =
        if_cases Says (not (eqb count 1)) (λ _ h. cc)
          λ one. after_answers complete (e ∙ ap parsed (ground arith)) _ refl
