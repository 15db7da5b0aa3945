-- ===== src/Summary/Verdict.antt =====
-- The severities of the candidates, by whether the diagnosis is blocked.
use orynelo.Prelude.{
  ℕ, ◌≤◌, String, ◌≡◌, refl, sym, ◌∙◌, List, [], ◌∷◌, Option, none, some, Bool, true, false, ◌&&◌,
  ◌||◌, ◌==◌, arith, number_equality, name_equality, if_cases, if◌then◌else◌, any, any-mem, mem-any,
  All, All-of, any-join, holds, holds-any, join,
}
use orynelo.Model.{failed, warning, cancelled, status_equality, CheckResult}
use orynelo.Summary.Facts.{
  DiagnosticFacts, is_relevant, is_auxiliary_preflight, tcp_families, FamilyOutcomes,
}
use orynelo.Summary.Searches.{by_id}
use orynelo.Summary.Candidate.{
  Candidate, Texts, Severity, rank, candidate, blocker, informational, degraded, interrupted,
  severe,
}
use orynelo.Summary.Transport.{
  tcp_candidates, tcp_candidates_of, tcp_fails, tcp_warning, tls_candidates, tls_candidates_of,
  tls_by_code, tls_is_excused, certificate_texts, only_v4, only_v6,
}
use orynelo.Summary.Http.{
  route, Route, mixed, proxy_only, direct, http_candidates, http_candidates_of, http_candidate,
  http_passed,
}
use orynelo.Summary.Layers.{dns_candidates}
use orynelo.Summary.Build.{layers}
use orynelo.Summary.Sound.{is_severe, is_interrupted, IsSound}
use orynelo.Summary.Choice.{IsChosen, IsChosen-mem, IsChosen-rank}
use orynelo.Summary.Blocked.{
  is_failed, http_blocks, is_blocked, operation_timeout-severe, check_timeout-severe, target-severe,
  dns-severe, proxy_invalid-severe, failure-severe, warning-severe, cancelled-severe,
  completion-severe, proxy-severe,
}

-- What implies the last of them adds nothing to an alternative.
absorb :
    (x y z h f : Bool)
    → (x ≡ true → f ≡ true)
    → (y ≡ true → f ≡ true)
    → (z ≡ true → f ≡ true)
    → (x || (y || (z || (h || (f || false))))) ≡ (h || f)
absorb x y z h f p q r = ground arith

module _ (facts : DiagnosticFacts) where
  -- A failure that none of the excuses covers.
  abbrev fails : CheckResult → Bool
  fails r = is_failed r && is_relevant facts r

  unexcused :
      (r : CheckResult)
      → is_auxiliary_preflight facts r ≡ false
      → tcp_fails facts r ≡ true
      → fails r ≡ true
  unfolding is_relevant
  unexcused r a h = ground arith

  tcp_warning-severe :
      (families : FamilyOutcomes) (r : CheckResult) → is_severe (tcp_warning families r) ≡ false
  unfolding tcp_warning candidate rank
  tcp_warning-severe families r =
      let Mild = λ (c : Candidate). is_severe c ≡ false in
      if_cases Mild (only_v4 families) (λ _. refl)
        (λ _. if_cases Mild (only_v6 families) (λ _. refl) (λ _. refl))

  tcp-severe : any is_severe (tcp_candidates facts) ≡ true → any fails facts.results ≡ true
  unfolding tcp_candidates by_id
  tcp-severe h =
      holds-any fails (λ r. r.id == "tcp") facts.results (of_search (by_id facts.results "tcp") h)
    where
      of_search :
          (o : Option CheckResult)
          → any is_severe (tcp_candidates_of facts o) ≡ true
          → holds fails o ≡ true
      of_search none = λ h. h
      of_search (some r) =
          if_cases (λ cs. any is_severe cs ≡ true → fails r ≡ true) (is_auxiliary_preflight facts r)
            (λ _ k. cc k)
            (λ a.
              if_cases (λ cs. any is_severe cs ≡ true → fails r ≡ true) (r.status == warning)
                (λ _ k. cc (tcp_warning-severe (tcp_families r) r))
                (λ _.
                  if_cases (λ cs. any is_severe cs ≡ true → fails r ≡ true) (tcp_fails facts r)
                    (λ f k. unexcused r a f) (λ _ k. cc k)))

  tls_by_code-severe :
      (r : CheckResult) (o : Option Texts) → any is_severe (tls_by_code r o) ≡ is_failed r
  unfolding candidate rank
  tls_by_code-severe r (some texts) = of_failed (is_failed r)
    where
      of_failed : (b : Bool) → (rank (if b then severe else degraded) == 3 || false) ≡ b
      of_failed true = refl
      of_failed false = refl
  tls_by_code-severe r none = of_failed (is_failed r) _ refl
    where
      of_failed :
          (b : Bool) (c : Candidate)
          → is_severe c ≡ true
          → any is_severe (if b then c ∷ [] else []) ≡ b
      of_failed true c h = rw (h)
      of_failed false c h = refl

  tls-severe : any is_severe (tls_candidates facts) ≡ true → any fails facts.results ≡ true
  unfolding tls_candidates by_id
  tls-severe h =
      holds-any fails (λ r. r.id == "tls") facts.results (of_search (by_id facts.results "tls") h)
    where
      excused :
          (r : CheckResult)
          → is_auxiliary_preflight facts r ≡ false
          → tls_is_excused facts r ≡ false
          → is_failed r ≡ true
          → fails r ≡ true
      excused r a e h = unexcused r a (ground arith)

      of_search :
          (o : Option CheckResult)
          → any is_severe (tls_candidates_of facts o) ≡ true
          → holds fails o ≡ true
      of_search none = λ h. h
      of_search (some r) =
          if_cases (λ cs. any is_severe cs ≡ true → fails r ≡ true) (is_auxiliary_preflight facts r)
            (λ _ k. cc k)
            (λ a.
              if_cases (λ cs. any is_severe cs ≡ true → fails r ≡ true) (tls_is_excused facts r)
                (λ _ k. cc k)
                (λ e k.
                  excused r a e (sym (tls_by_code-severe r (certificate_texts r.error_code)) ∙ k)))

  http_passed-severe :
      (r : CheckResult) (failures : List CheckResult) (route : Route)
      → is_severe (http_passed facts r failures route) ≡ false
  unfolding http_passed candidate rank
  http_passed-severe r failures mixed = refl
  http_passed-severe r failures proxy_only = refl
  http_passed-severe r [] direct = refl
  http_passed-severe r (f ∷ fs) direct = refl

  http_candidate-severe : (r : CheckResult) → any is_severe (http_candidate facts r) ≡ http_blocks r
  unfolding blocker candidate rank
  http_candidate-severe r =
      ground (arith, http_passed-severe r facts.preflight_failures (route facts))

  http-severe : any is_severe (http_candidates facts) ≡ holds http_blocks facts.http
  unfolding http_candidates
  http-severe = of_result facts.http
    where
      of_result :
          (o : Option CheckResult)
          → any is_severe (http_candidates_of facts o) ≡ holds http_blocks o
      of_result none = refl
      of_result (some r) = http_candidate-severe r

  -- The candidates have a blocker exactly if the results have.
  pub layers-severe :
      (duration_string : ℕ → String)
      → any is_severe (join (layers duration_string facts)) ≡ is_blocked facts
  layers-severe duration_string =
      any-join is_severe (layers duration_string facts)
      ∙ rw
          (
            operation_timeout-severe facts,
            check_timeout-severe facts duration_string,
            target-severe facts,
            proxy_invalid-severe facts,
            http-severe,
            failure-severe facts,
            cancelled-severe facts,
            proxy-severe facts,
            warning-severe facts,
            completion-severe facts,
            absorb (any is_severe (dns_candidates facts)) (any is_severe (tcp_candidates facts))
                (any is_severe (tls_candidates facts)) (holds http_blocks facts.http)
                (any fails facts.results) (dns-severe facts) tcp-severe tls-severe,
          )
          (ground arith)

rank_bound : (s : Severity) → rank s ≤ 3
unfolding rank
rank_bound informational = omega arith
rank_bound degraded = omega arith
rank_bound interrupted = omega arith
rank_bound severe = omega arith

-- The status of what is chosen: failed with a blocker, and else cancelled with an interruption.
module _ (rs : List CheckResult) (cs : List Candidate) (sound : All (IsSound rs) cs) where
  chosen-is_severe : {best : Candidate} → IsChosen best cs → is_severe best ≡ any is_severe cs
  chosen-is_severe {best} h = highest (is_severe best) refl (any is_severe cs) refl
    where
      highest : (a : Bool) → is_severe best ≡ a → (b : Bool) → any is_severe cs ≡ b → a ≡ b
      highest true e true k = refl
      highest false e false k = refl
      highest true e false k = cc (mem-any is_severe cs (IsChosen-mem cs h) e, k)
      highest false e true k =
          let found = any-mem is_severe cs k in
          let below = IsChosen-rank cs h found.1 in
          let bound = rank_bound best.severity in let top = found.2 in ground arith

  pub chosen-failed :
      {best : Candidate} → IsChosen best cs → (best.status == failed) ≡ any is_severe cs
  chosen-failed h =
      (All-of (IsSound rs) cs sound (IsChosen-mem cs h)).failed_if_severe ∙ chosen-is_severe h

  -- Without a blocker, an interruption decides.
  pub chosen-cancelled :
      {best : Candidate}
      → IsChosen best cs
      → any is_severe cs ≡ false
      → any is_interrupted cs ≡ true
      → best.status ≡ cancelled
  chosen-cancelled {best} h mildness some_one =
      let found = any-mem is_interrupted cs some_one in
      let below = IsChosen-rank cs h found.1 in
      let bound = rank_bound best.severity in
      let mild = chosen-is_severe h ∙ mildness in
      let there = found.2 in
      (All-of (IsSound rs) cs sound (IsChosen-mem cs h)).cancelled_if_interrupted (ground arith)
