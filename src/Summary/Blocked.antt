-- ===== src/Summary/Blocked.antt =====
-- When a diagnosis has a blocker, said of its results alone and of its candidates.
use orynelo.Prelude.{
  ℕ, String, ◌≡◌, refl, sym, ◌∙◌, List, [], ◌∷◌, map, Option, none, some, Bool, true, false, not,
  ◌&&◌, ◌||◌, ◌==◌, arith, number_equality, name_equality, if_cases, any, any-map, any-keep, holds,
  holds-find, holds-any, keep,
}
use orynelo.Model.{failed, cancelled, passed, not_applicable, status_equality, CheckResult}
use orynelo.Summary.Facts.{DiagnosticFacts, is_relevant, first_relevant_check_timeout}
use orynelo.Summary.Searches.{
  by_id, error_operation_timeout, error_check_timeout, error_proxy_config_invalid,
  has_evidence_code, first_with_error_code, proxy_invalid_results, first_with_status,
  all_with_status, only_skipped_or_not_applicable, last_with_status,
}
use orynelo.Summary.Candidate.{Candidate, rank, candidate, blocker}
use orynelo.Summary.Http.{http_fails, is_redirect_failure}
use orynelo.Summary.Layers.{
  for_some, if_some, operation_timeout_candidates, check_timeout_candidates, target_candidates,
  proxy_invalid_candidates, proxy_invalid_of, dns_candidates, failure_candidates,
  cancelled_candidates, failure_candidate,
}
use orynelo.Summary.Attention.{
  proxy_candidates, proxy_candidates_of, generic_warning_candidates, completion_candidates,
  warning_candidate, needs_attention, proxy_is_disabled, proxy_is_unused,
}
use orynelo.Summary.Sound.{is_severe}

abbrev pub is_failed : CheckResult → Bool
is_failed r = r.status == failed

abbrev pub is_proxy_invalid : CheckResult → Bool
is_proxy_invalid r =
    r.error_code == error_proxy_config_invalid || has_evidence_code r error_proxy_config_invalid

-- An HTTP result blocks by a failed redirect chain, or by a failure that is no answer of the
-- application and not the proxy's configuration.
abbrev pub http_blocks : CheckResult → Bool
http_blocks r =
    is_redirect_failure r.error_code
    || not (r.error_code == "HTTP_CLIENT_ERROR")
      && not (r.error_code == "HTTP_SERVER_ERROR")
      && http_fails r

-- What makes a diagnosis a failure, without candidates, severities and priorities.
abbrev pub is_blocked : DiagnosticFacts → Bool
is_blocked facts =
    any (λ r. r.error_code == error_operation_timeout) facts.results
    || any (λ r. r.error_code == error_check_timeout && is_relevant facts r) facts.results
    || holds is_failed (by_id facts.results "target")
    || any is_proxy_invalid facts.results
    || holds http_blocks facts.http
    || any (λ r. is_failed r && is_relevant facts r) facts.results

module _ (f : CheckResult → Candidate) (always : (r : CheckResult) → is_severe (f r) ≡ true) where
  severe-for_some : (o : Option CheckResult) → any is_severe (for_some f o) ≡ holds (λ r. true) o
  severe-for_some none = refl
  severe-for_some (some r) = rw (always r)

  severe-if_some :
      (p : CheckResult → Bool) (o : Option CheckResult)
      → any is_severe (for_some f (if_some p o)) ≡ holds p o
  severe-if_some p none = refl
  severe-if_some p (some r) = ground (arith, always r)

module _ (f : CheckResult → Candidate) (never : (r : CheckResult) → is_severe (f r) ≡ false) where
  mild-for_some : (o : Option CheckResult) → any is_severe (for_some f o) ≡ false
  mild-for_some none = refl
  mild-for_some (some r) = rw (never r)

  mild-map : (rs : List CheckResult) → any is_severe (map f rs) ≡ false
  mild-map [] = refl
  mild-map (r ∷ rs) = rw (never r, mild-map rs)

module _ (facts : DiagnosticFacts) where
  pub operation_timeout-severe :
      any is_severe (operation_timeout_candidates facts)
      ≡ any (λ r. r.error_code == error_operation_timeout) facts.results
  unfolding operation_timeout_candidates first_with_error_code blocker candidate rank
  operation_timeout-severe =
      severe-for_some _ (λ r. refl) (first_with_error_code facts.results error_operation_timeout)
      ∙ holds-find _ facts.results

  pub check_timeout-severe :
      (duration_string : ℕ → String)
      → any is_severe (check_timeout_candidates duration_string facts)
        ≡ any (λ r. r.error_code == error_check_timeout && is_relevant facts r) facts.results
  unfolding check_timeout_candidates first_relevant_check_timeout blocker candidate rank
  check_timeout-severe duration_string =
      severe-for_some _ (λ r. refl) (first_relevant_check_timeout facts)
      ∙ holds-find _ facts.results

  pub target-severe :
      any is_severe (target_candidates facts) ≡ holds is_failed (by_id facts.results "target")
  unfolding target_candidates blocker candidate rank
  target-severe = severe-if_some _ (λ r. refl) is_failed (by_id facts.results "target")

  pub dns-severe :
      any is_severe (dns_candidates facts) ≡ true
      → any (λ r. is_failed r && is_relevant facts r) facts.results ≡ true
  unfolding dns_candidates by_id blocker candidate rank
  dns-severe h =
      holds-any (λ r. is_failed r && is_relevant facts r) (λ r. r.id == "dns") facts.results
        (sym (severe-if_some _ (λ r. refl) _ (by_id facts.results "dns")) ∙ h)

  pub proxy_invalid-severe :
      any is_severe (proxy_invalid_candidates facts) ≡ any is_proxy_invalid facts.results
  unfolding proxy_invalid_candidates proxy_invalid_results blocker candidate rank
  proxy_invalid-severe =
      of_results (keep is_proxy_invalid facts.results) ∙ any-keep is_proxy_invalid facts.results
    where
      of_results :
          (rs : List CheckResult) → any is_severe (proxy_invalid_of rs) ≡ any (λ r. true) rs
      of_results [] = refl
      of_results (r ∷ rs) = refl

  pub failure-severe :
      any is_severe (failure_candidates facts)
      ≡ any (λ r. is_failed r && is_relevant facts r) facts.results
  unfolding failure_candidates blocker candidate rank
  failure-severe = any-map is_severe failure_candidate _ ∙ any-keep _ facts.results

  pub warning-severe : any is_severe (generic_warning_candidates facts) ≡ false
  unfolding generic_warning_candidates candidate rank
  warning-severe =
      mild-map warning_candidate (λ r. refl) (keep (needs_attention facts) facts.results)

  pub cancelled-severe : any is_severe (cancelled_candidates facts) ≡ false
  unfolding cancelled_candidates candidate rank
  cancelled-severe = mild-for_some _ (λ r. refl) (first_with_status facts.results cancelled)

  pub completion-severe : any is_severe (completion_candidates facts) ≡ false
  unfolding completion_candidates candidate rank
  completion-severe =
      let Mild = λ (cs : List Candidate). any is_severe cs ≡ false in
      if_cases Mild (all_with_status facts.results not_applicable) (λ _. refl)
        (λ _.
          if_cases Mild (only_skipped_or_not_applicable facts.results) (λ _. refl)
            (λ _. mild-for_some _ (λ r. refl) (last_with_status facts.results passed)))

  pub proxy-severe : any is_severe (proxy_candidates facts) ≡ false
  unfolding proxy_candidates candidate rank
  proxy-severe = of_proxy facts.proxy
    where
      of_proxy : (o : Option CheckResult) → any is_severe (proxy_candidates_of facts o) ≡ false
      of_proxy none = refl
      of_proxy (some r) =
          let Mild = λ (cs : List Candidate). any is_severe cs ≡ false in
          if_cases Mild (proxy_is_disabled facts r) (λ _. refl)
            (λ _. if_cases Mild (proxy_is_unused facts) (λ _. refl) (λ _. refl))
