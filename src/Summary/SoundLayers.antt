-- ===== src/Summary/SoundLayers.antt =====
-- The candidates below HTTP and in the layers of `buildCandidates` itself, as Sound asks.
use orynelo.Prelude.{
  ℕ, String, ◌≡◌, refl, List, [], ◌∷◌, Option, none, some, Bool, true, ◌==◌, number_equality,
  name_equality, Memᴰ, All, AllSome, AllSome-imp, if_cases, All-map, All-imp, find-finds, mem-any,
}
use orynelo.Model.{warning, cancelled, is_terminal, status_equality, CheckResult}
use orynelo.Summary.Facts.{
  DiagnosticFacts, first_relevant_check_timeout, tcp_families, FamilyOutcomes,
  is_auxiliary_preflight,
}
use orynelo.Summary.Searches.{
  by_id, first_with_status, first_with_error_code, proxy_invalid_results,
}
use orynelo.Summary.Candidate.{interrupted, Candidate, rank, candidate, blocker, Texts}
use orynelo.Summary.Transport.{
  only_v4, only_v6, tcp_fails, tcp_candidates, tcp_warning, tcp_candidates_of,
}
use orynelo.Summary.Layers.{
  for_some, if_some, operation_timeout_candidates, check_timeout_candidates, target_candidates,
  proxy_invalid_candidates, proxy_invalid_of, failure_candidate, dns_candidates, failure_candidates,
  cancelled_candidates, timeout_texts, cancelled_texts,
}
use orynelo.Summary.Attention.{
  proxy_is_disabled, proxy_is_unused, proxy_candidates_of, warning_candidate, proxy_candidates,
  generic_warning_candidates,
}
use orynelo.Summary.Sound.{
  IsSound, IsFounded, is_cancelled, blocker-IsSound, mild-IsSound, cons-ne-nil, AllSome-find,
  All-keep,
}

-- A candidate for what a search found.
pub All-for_some :
    (P : Candidate → Type 0) (f : CheckResult → Candidate) (o : Option CheckResult)
    → AllSome (λ r. P (f r)) o
    → All P (for_some f o)
All-for_some P f none h = tt
All-for_some P f (some r) h = (h, tt)

AllSome-if_some :
    (P : CheckResult → Type 0) (p : CheckResult → Bool) (o : Option CheckResult)
    → AllSome P o
    → AllSome P (if_some p o)
AllSome-if_some P p none h = tt
AllSome-if_some P p (some r) h = if_cases (AllSome P) (p r) (λ _. h) (λ _. tt)

module _ (facts : DiagnosticFacts) where
  abbrev IsHere : CheckResult → Type 0
  IsHere r = Memᴰ r facts.results

  -- A blocker that rests on one result that a search found.
  found_blocker :
      (priority : ℕ) (texts : CheckResult → Texts) (o : Option CheckResult)
      → AllSome (λ r. Memᴰ r facts.results) o
      → All (IsSound facts.results) (for_some (λ r. blocker priority (texts r) (r ∷ [])) o)
  found_blocker priority texts o h =
      All-for_some (IsSound facts.results) (λ r. blocker priority (texts r) (r ∷ [])) o
        (AllSome-imp (λ r m. blocker-IsSound priority (texts r) (m, tt) (cons-ne-nil [])) o h)

  pub operation_timeout-IsSound : All (IsSound facts.results) (operation_timeout_candidates facts)
  unfolding operation_timeout_candidates first_with_error_code
  operation_timeout-IsSound = found_blocker 1000 _ _ (AllSome-find _ facts.results)

  pub check_timeout-IsSound :
      (duration_string : ℕ → String)
      → All (IsSound facts.results) (check_timeout_candidates duration_string facts)
  unfolding check_timeout_candidates first_relevant_check_timeout
  check_timeout-IsSound duration_string =
      found_blocker 950 (timeout_texts duration_string) _ (AllSome-find _ facts.results)

  pub target-IsSound : All (IsSound facts.results) (target_candidates facts)
  unfolding target_candidates by_id
  target-IsSound = found_blocker 900 _ _ (AllSome-if_some IsHere _ _ (AllSome-find _ facts.results))

  pub dns-IsSound : All (IsSound facts.results) (dns_candidates facts)
  unfolding dns_candidates by_id
  dns-IsSound = found_blocker 700 _ _ (AllSome-if_some IsHere _ _ (AllSome-find _ facts.results))

  pub proxy_invalid-IsSound : All (IsSound facts.results) (proxy_invalid_candidates facts)
  unfolding proxy_invalid_candidates proxy_invalid_results
  proxy_invalid-IsSound = some_invalid _ (All-keep _ facts.results)
    where
      some_invalid :
          (rs : List CheckResult)
          → All (λ r. Memᴰ r facts.results) rs
          → All (IsSound facts.results) (proxy_invalid_of rs)
      some_invalid [] h = tt
      some_invalid (r ∷ rs) h = (blocker-IsSound 875 _ h (cons-ne-nil rs), tt)

  pub tcp_warning-IsSound :
      (families : FamilyOutcomes) (r : CheckResult)
      → Memᴰ r facts.results
      → IsSound facts.results (tcp_warning families r)
  unfolding tcp_warning
  tcp_warning-IsSound families r m =
      if_cases (IsSound facts.results) (only_v4 families)
        (λ _. mild-IsSound 700 _ (m, tt) (cons-ne-nil []))
        (λ _.
          if_cases (IsSound facts.results) (only_v6 families)
            (λ _. mild-IsSound 700 _ (m, tt) (cons-ne-nil []))
            (λ _. mild-IsSound 600 _ (m, tt) (cons-ne-nil [])))

  pub tcp-IsSound : All (IsSound facts.results) (tcp_candidates facts)
  unfolding tcp_candidates by_id
  tcp-IsSound = of_search _ (AllSome-find _ facts.results)
    where
      of_search :
          (o : Option CheckResult)
          → AllSome (λ r. Memᴰ r facts.results) o
          → All (IsSound facts.results) (tcp_candidates_of facts o)
      of_search none m = tt
      of_search (some r) m =
          if_cases (All (IsSound facts.results)) (is_auxiliary_preflight facts r) (λ _. tt)
            (λ _.
              if_cases (All (IsSound facts.results)) (r.status == warning)
                (λ _. (tcp_warning-IsSound (tcp_families r) r m, tt))
                (λ _.
                  if_cases (All (IsSound facts.results)) (tcp_fails facts r)
                    (λ _. (blocker-IsSound 650 _ (m, tt) (cons-ne-nil []), tt)) (λ _. tt)))

  pub failure-IsSound : All (IsSound facts.results) (failure_candidates facts)
  unfolding failure_candidates
  failure-IsSound =
      All-map (IsSound facts.results) failure_candidate _ (
        All-imp (λ r m. blocker-IsSound 100 _ (m, tt) (cons-ne-nil [])) _
          (All-keep _ facts.results))

  pub warning-IsSound : All (IsSound facts.results) (generic_warning_candidates facts)
  unfolding generic_warning_candidates
  warning-IsSound =
      All-map (IsSound facts.results) warning_candidate _
        (All-imp (λ r m. mild-IsSound 50 _ (m, tt) (cons-ne-nil [])) _ (All-keep _ facts.results))

  cancelled_candidate-IsSound :
      (texts : Texts) (r : CheckResult)
      → Memᴰ r facts.results
      → is_cancelled r ≡ true
      → IsSound facts.results (candidate interrupted 500 cancelled texts (r ∷ []))
  unfolding candidate rank is_terminal
  cancelled_candidate-IsSound texts r m h = record {
    failed_if_severe = refl;
    cancelled_if_interrupted = λ _. refl;
    some_cancelled = λ _. mem-any is_cancelled facts.results m h;
    grounded = (m, tt);
    not_empty = cons-ne-nil [];
    terminal = λ _. refl;
  }

  pub cancelled-IsSound : All (IsSound facts.results) (cancelled_candidates facts)
  unfolding cancelled_candidates first_with_status
  cancelled-IsSound = All-for_some (IsSound facts.results) _ _ (
      AllSome-imp (λ r m. cancelled_candidate-IsSound cancelled_texts r m.0 m.1) _
        (find-finds is_cancelled facts.results))

  pub proxy-IsSound : IsFounded facts → All (IsSound facts.results) (proxy_candidates facts)
  unfolding proxy_candidates
  proxy-IsSound founded = of_proxy facts.proxy founded.proxy
    where
      of_proxy :
          (o : Option CheckResult)
          → AllSome (λ r. Memᴰ r facts.results) o
          → All (IsSound facts.results) (proxy_candidates_of facts o)
      of_proxy none m = tt
      of_proxy (some r) m =
          if_cases (All (IsSound facts.results)) (proxy_is_disabled facts r)
            (λ _. (mild-IsSound 650 _ (m, tt) (cons-ne-nil []), tt))
            (λ _.
              if_cases (All (IsSound facts.results)) (proxy_is_unused facts)
                (λ _. (mild-IsSound 400 _ (m, tt) (cons-ne-nil []), tt)) (λ _. tt))
