-- ===== src/Summary/Soundness.antt =====
-- The candidates of TLS and of a complete diagnosis, and the list of all, as Sound asks.
use orynelo.Prelude.{
  ℕ, String, ◌≡◌, refl, ◌≢◌, List, [], ◌∷◌, Option, none, some, Bool, true, false, ◌==◌,
  number_equality, name_equality, Memᴰ, All, All-of, All-tabulate, AllSome, AllSome-imp, if_cases,
  if◌then◌else◌, All-join, mem-any,
}
use orynelo.Model.{
  Status, passed, failed, skipped, not_applicable, is_terminal, status_equality, CheckResult,
}
use orynelo.Summary.Facts.{DiagnosticFacts, is_auxiliary_preflight, collect_facts}
use orynelo.Summary.Searches.{
  by_id, last_with_status, all_with_status, only_skipped_or_not_applicable,
}
use orynelo.Summary.Candidate.{Severity, informational, degraded, severe, rank, candidate, Texts}
use orynelo.Summary.Transport.{
  negotiation_texts, tls_is_excused, tls_candidates, tls_candidates_of, tls_by_code,
  certificate_texts,
}
use orynelo.Summary.Attention.{
  completion_candidates, not_applicable_texts, skipped_texts, completed_texts,
}
use orynelo.Summary.Build.{layers, build_candidates}
use orynelo.Summary.Sound.{
  IsSound, IsFounded, IsFinal, is_cancelled, candidate-IsSound, cons-ne-nil, AllSome-find,
  AllSome-find_last, collect_facts-IsFounded,
}
use orynelo.Summary.SoundLayers.{
  All-for_some, operation_timeout-IsSound, check_timeout-IsSound, target-IsSound, dns-IsSound,
  proxy_invalid-IsSound, tcp-IsSound, failure-IsSound, warning-IsSound, cancelled-IsSound,
  proxy-IsSound,
}
use orynelo.Summary.SoundHttp.{http-IsSound}

module _ (facts : DiagnosticFacts) where
  -- A TLS result gives the candidate its own status.
  tls_candidate-IsSound :
      (severity : Severity) (priority : ℕ) (texts : Texts) (r : CheckResult)
      → (r.status == failed) ≡ (rank severity == 3)
      → (rank severity == 2) ≡ false
      → Memᴰ r facts.results
      → IsSound facts.results (candidate severity priority r.status texts (r ∷ []))
  unfolding candidate
  tls_candidate-IsSound severity priority texts r e ne m = record {
    failed_if_severe = e;
    cancelled_if_interrupted = λ h. cc (h, ne);
    some_cancelled = λ h. mem-any is_cancelled facts.results m h;
    grounded = (m, tt);
    not_empty = cons-ne-nil [];
    terminal = λ h. All-of IsFinal facts.results h m;
  }

  tls_severity-rank :
      (b : Bool)
      → (b ≡ (rank (if b then severe else degraded) == 3))
        × ((rank (if b then severe else degraded) == 2) ≡ false)
  unfolding rank
  tls_severity-rank true = (refl, refl)
  tls_severity-rank false = (refl, refl)

  tls_by_code-IsSound :
      (r : CheckResult) (o : Option Texts)
      → Memᴰ r facts.results
      → All (IsSound facts.results) (tls_by_code r o)
  unfolding rank
  tls_by_code-IsSound r (some texts) m =
      let fits = tls_severity-rank (r.status == failed) in
      (
        tls_candidate-IsSound (if r.status == failed then severe else degraded) 800 texts r fits.0
            fits.1 m,
        tt,
      )
  tls_by_code-IsSound r none m =
      if_cases (All (IsSound facts.results)) (r.status == failed)
        (λ h. (tls_candidate-IsSound severe 600 negotiation_texts r h refl m, tt)) (λ _. tt)

  tls-IsSound : All (IsSound facts.results) (tls_candidates facts)
  unfolding tls_candidates by_id
  tls-IsSound = of_search _ (AllSome-find _ facts.results)
    where
      of_search :
          (o : Option CheckResult)
          → AllSome (λ r. Memᴰ r facts.results) o
          → All (IsSound facts.results) (tls_candidates_of facts o)
      of_search none m = tt
      of_search (some r) m =
          if_cases (All (IsSound facts.results)) (is_auxiliary_preflight facts r) (λ _. tt)
            (λ _.
              if_cases (All (IsSound facts.results)) (tls_is_excused facts r) (λ _. tt)
                (λ _. tls_by_code-IsSound r (certificate_texts r.error_code) m))

  all_with_status-some :
      (rs : List CheckResult) (s : Status) → all_with_status rs s ≡ true → rs ≢ []
  unfolding all_with_status
  all_with_status-some [] s h = cc
  all_with_status-some (r ∷ rs) s h = cons-ne-nil rs

  only_skipped-some : (rs : List CheckResult) → only_skipped_or_not_applicable rs ≡ true → rs ≢ []
  unfolding only_skipped_or_not_applicable
  only_skipped-some [] h = cc
  only_skipped-some (r ∷ rs) h = cons-ne-nil rs

  completed-IsSound :
      (r : CheckResult)
      → Memᴰ r facts.results
      → IsSound facts.results (candidate informational 10 passed completed_texts (r ∷ []))
  unfolding rank is_terminal
  completed-IsSound r m =
      candidate-IsSound informational 10 passed completed_texts (refl, refl, refl, refl) (m, tt)
        (cons-ne-nil [])

  completion-IsSound : All (IsSound facts.results) (completion_candidates facts)
  unfolding completion_candidates last_with_status rank is_terminal
  completion-IsSound =
      let everything = All-tabulate (λ r. Memᴰ r facts.results) facts.results (λ r m. m) in
      if_cases (All (IsSound facts.results)) (all_with_status facts.results not_applicable)
        (λ h. (
          candidate-IsSound informational 25 not_applicable not_applicable_texts
              (refl, refl, refl, refl) everything
              (all_with_status-some facts.results not_applicable h),
          tt,
        ))
        (λ _.
          if_cases (All (IsSound facts.results)) (only_skipped_or_not_applicable facts.results)
            (λ h. (
              candidate-IsSound informational 20 skipped skipped_texts (refl, refl, refl, refl)
                  everything (only_skipped-some facts.results h),
              tt,
            ))
            (λ _. All-for_some (IsSound facts.results) _ (last_with_status facts.results passed) (
              AllSome-imp {P = λ r. Memᴰ r facts.results} completed-IsSound
                (last_with_status facts.results passed)
                (AllSome-find_last (λ r. r.status == passed) facts.results))))

layers-IsSound :
    (duration_string : ℕ → String) (facts : DiagnosticFacts)
    → IsFounded facts
    → All (All (IsSound facts.results)) (layers duration_string facts)
layers-IsSound duration_string facts founded = (
  operation_timeout-IsSound facts,
  (
    check_timeout-IsSound facts duration_string,
    (
      target-IsSound facts,
      (
        proxy_invalid-IsSound facts,
        (
          dns-IsSound facts,
          (
            tcp-IsSound facts,
            (
              tls-IsSound facts,
              (
                http-IsSound facts founded,
                (
                  failure-IsSound facts,
                  (
                    cancelled-IsSound facts,
                    (
                      proxy-IsSound facts founded,
                      (warning-IsSound facts, (completion-IsSound facts, tt)),
                    ),
                  ),
                ),
              ),
            ),
          ),
        ),
      ),
    ),
  ),
)

-- Every candidate is sound.
pub build_candidates-IsSound :
    (duration_string : ℕ → String) (rs : List CheckResult)
    → All (IsSound rs) (build_candidates duration_string (collect_facts rs))
unfolding build_candidates collect_facts
build_candidates-IsSound duration_string rs =
    All-join (IsSound rs) (layers duration_string (collect_facts rs))
      (layers-IsSound duration_string (collect_facts rs) (collect_facts-IsFounded rs))
