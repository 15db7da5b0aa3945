-- ===== src/Summary/SoundHttp.antt =====
-- The candidates of HTTP (`addHTTPCandidates`), as Sound asks.
use orynelo.Prelude.{
  refl, ◌≢◌, List, [], ◌∷◌, ◌++◌, Option, none, some, ◌==◌, number_equality, name_equality, Memᴰ,
  All, All-append, AllSome, if_cases,
}
use orynelo.Model.{passed, warning, is_terminal, status_equality, CheckResult}
use orynelo.Summary.Facts.{DiagnosticFacts}
use orynelo.Summary.Candidate.{informational, rank}
use orynelo.Summary.Http.{
  http_candidates, http_candidates_of, related, route, through_proxy, http_fails, redirect_texts,
  http_failure_texts, is_redirect_failure, mixed_passed_texts, proxy_passed_texts,
  despite_failure_texts, http_completed_texts, Route, mixed, proxy_only, direct, http_passed,
}
use orynelo.Summary.Sound.{
  IsSound, IsFounded, candidate-IsSound, blocker-IsSound, mild-IsSound, cons-ne-nil,
}

module _ (facts : DiagnosticFacts) where
  through_proxy-mem :
      (route : Route) (proxy : Option CheckResult) (r : CheckResult)
      → AllSome (λ r. Memᴰ r facts.results) proxy
      → Memᴰ r facts.results
      → All (λ r. Memᴰ r facts.results) (through_proxy route proxy r)
        × (through_proxy route proxy r ≢ [])
  through_proxy-mem direct p r h m = ((m, tt), cons-ne-nil [])
  through_proxy-mem mixed none r h m = ((m, tt), cons-ne-nil [])
  through_proxy-mem proxy_only none r h m = ((m, tt), cons-ne-nil [])
  through_proxy-mem mixed (some p) r h m = ((h, (m, tt)), cons-ne-nil _)
  through_proxy-mem proxy_only (some p) r h m = ((h, (m, tt)), cons-ne-nil _)

  append-ne-nil : {A : Type 0} (xs ys : List A) → xs ≢ [] → xs ++ ys ≢ []
  append-ne-nil [] ys h = absurd (h refl)
  append-ne-nil (x ∷ xs) ys h = cons-ne-nil (xs ++ ys)

  related-mem :
      IsFounded facts
      → (r : CheckResult) → Memᴰ r facts.results
      → All (λ r. Memᴰ r facts.results) (related facts r) × (related facts r ≢ [])
  unfolding related
  related-mem founded r m =
      let base = through_proxy-mem (route facts) facts.proxy r founded.proxy m in
      (
        All-append (λ r. Memᴰ r facts.results) (through_proxy (route facts) facts.proxy r)
            facts.preflight_failures base.0 founded.failures,
        append-ne-nil _ facts.preflight_failures base.1,
      )

  http_passed-IsSound :
      IsFounded facts
      → (r : CheckResult) (failures : List CheckResult) (route : Route) → Memᴰ r facts.results
      → IsSound facts.results (http_passed facts r failures route)
  unfolding http_passed rank is_terminal
  http_passed-IsSound founded r failures mixed m =
      let all = related-mem founded r m in mild-IsSound 950 mixed_passed_texts all.0 all.1
  http_passed-IsSound founded r failures proxy_only m =
      let all = related-mem founded r m in mild-IsSound 950 proxy_passed_texts all.0 all.1
  http_passed-IsSound founded r [] direct m =
      candidate-IsSound informational 100 passed http_completed_texts (refl, refl, refl, refl)
        (m, tt) (cons-ne-nil [])
  http_passed-IsSound founded r (f ∷ fs) direct m =
      let all = related-mem founded r m in mild-IsSound 950 despite_failure_texts all.0 all.1

  pub http-IsSound : IsFounded facts → All (IsSound facts.results) (http_candidates facts)
  unfolding http_candidates
  http-IsSound founded = of_result facts.http founded.http
    where
      of_result :
          (o : Option CheckResult)
          → AllSome (λ r. Memᴰ r facts.results) o
          → All (IsSound facts.results) (http_candidates_of facts o)
      of_result none m = tt
      of_result (some r) m =
          let all = related-mem founded r m in
          let P = All (IsSound facts.results) in
          if_cases P (is_redirect_failure r.error_code)
            (λ _. (blocker-IsSound 850 (redirect_texts (route facts)) all.0 all.1, tt))
            (λ _.
              if_cases P (r.error_code == "HTTP_CLIENT_ERROR")
                (λ _. (mild-IsSound 900 _ all.0 all.1, tt))
                (λ _.
                  if_cases P (r.error_code == "HTTP_SERVER_ERROR")
                    (λ _. (mild-IsSound 900 _ all.0 all.1, tt))
                    (λ _.
                      if_cases P (r.status == passed)
                        (λ _. (
                          http_passed-IsSound founded r facts.preflight_failures (route facts) m,
                          tt,
                        ))
                        (λ _.
                          if_cases P (r.status == warning)
                            (λ _. (mild-IsSound 850 _ all.0 all.1, tt))
                            (λ _.
                              if_cases P (http_fails r)
                                (λ _. (
                                  blocker-IsSound 550 (http_failure_texts (route facts)) all.0
                                      all.1,
                                  tt,
                                ))
                                (λ _. tt))))))
