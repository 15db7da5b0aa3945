-- ===== src/Summary/Build.antt =====
-- `buildCandidates` and `Build`: the candidates of every layer in order, the best of them, and the
-- evidence that it refers to.
use orynelo.Prelude.{
  ℕ, String, List, [], ◌∷◌, ◌++◌, Bool, ◌&&◌, ◌||◌, ◌==◌, name_equality, number_equality,
  if◌then◌else◌, ltb, join, contains, trim_text,
}
use orynelo.Model.{passed, CheckResult, Evidence, Recommendation, Summary}
use orynelo.Summary.Facts.{DiagnosticFacts, collect_facts}
use orynelo.Summary.Candidate.{Candidate, rank}
use orynelo.Summary.Transport.{tcp_candidates, tls_candidates}
use orynelo.Summary.Http.{http_candidates}
use orynelo.Summary.Layers.{
  operation_timeout_candidates, check_timeout_candidates, target_candidates,
  proxy_invalid_candidates, dns_candidates, failure_candidates, cancelled_candidates,
}
use orynelo.Summary.Attention.{proxy_candidates, generic_warning_candidates, completion_candidates}

-- The candidates, layer by layer.
abbrev pub layers : (ℕ → String) → DiagnosticFacts → List (List Candidate)
layers duration_string facts =
    operation_timeout_candidates facts
    ∷ check_timeout_candidates duration_string facts
    ∷ target_candidates facts
    ∷ proxy_invalid_candidates facts
    ∷ dns_candidates facts
    ∷ tcp_candidates facts
    ∷ tls_candidates facts
    ∷ http_candidates facts
    ∷ failure_candidates facts
    ∷ cancelled_candidates facts
    ∷ proxy_candidates facts
    ∷ generic_warning_candidates facts
    ∷ completion_candidates facts
    ∷ []

unfoldable pub build_candidates : (ℕ → String) → DiagnosticFacts → List Candidate
unfolding operation_timeout_candidates check_timeout_candidates target_candidates
    proxy_invalid_candidates dns_candidates tcp_candidates tls_candidates http_candidates
    failure_candidates cancelled_candidates proxy_candidates generic_warning_candidates
    completion_candidates
build_candidates duration_string facts = join (layers duration_string facts)

-- Higher in severity, or of the same severity and higher in priority.
unfoldable pub outranks : Candidate → Candidate → Bool
unfolding rank
outranks c best =
    ltb (rank best.severity) (rank c.severity)
    || rank c.severity == rank best.severity && ltb best.priority c.priority

unfoldable pub best_of : Candidate → List Candidate → Candidate
unfolding outranks
best_of best [] = best
best_of best (c ∷ cs) = best_of (if outranks c best then c else best) cs

-- The evidence of a result that is named and not seen before, after what was seen.
unfoldable pub new_references : List String → List Evidence → List String
new_references seen [] = []
new_references seen (e ∷ es) =
    let with_it = new_references (e.id ∷ seen) es in
    let without = new_references seen es in
    if e.id == "" then without else if contains seen e.id then without else e.id ∷ with_it

-- A result without new evidence is referred to by its own name.
abbrev pub or_own_id : List String → String → List String → List String
or_own_id seen id [] = if id == "" then [] else if contains seen id then [] else id ∷ []
or_own_id seen id (ref ∷ refs) = ref ∷ refs

unfoldable pub references_from : List String → List CheckResult → List String
unfolding new_references
references_from seen [] = []
references_from seen (r ∷ rs) =
    let refs = or_own_id seen r.id (new_references seen r.evidence) in
    refs ++ references_from (refs ++ seen) rs

unfoldable pub references_from_results : List CheckResult → List String
unfolding references_from
references_from_results results = references_from [] results

abbrev first_id : List CheckResult → String
first_id [] = ""
first_id (r ∷ rs) = r.id

abbrev next_step : String → String → List Recommendation
next_step check_id recommendation =
    if trim_text recommendation == ""
    then []
    else record {
      id = "summary.next_step";
      check_id = check_id;
      priority = "high";
      message = recommendation;
    }
      ∷ []

unfoldable pub conclusion_from_results : Candidate → Summary
unfolding references_from_results trim_text
conclusion_from_results best = record {
  status = best.status;
  title = best.title;
  description = best.description;
  evidence_refs = references_from_results best.results;
  recommendations = next_step (first_id best.results) best.recommendation;
}

abbrev pub no_facts : Summary
no_facts = record {
  status = passed;
  title = "Diagnosis completed";
  description = "No adverse diagnostic facts were recorded.";
  evidence_refs = [];
  recommendations = [];
}

abbrev pub conclude : List Candidate → Summary
conclude [] = no_facts
conclude (c ∷ cs) = conclusion_from_results (best_of c cs)

-- `Build`
unfoldable pub build : (ℕ → String) → List CheckResult → Summary
unfolding collect_facts build_candidates best_of conclusion_from_results
build duration_string results = conclude (build_candidates duration_string (collect_facts results))
