-- ===== src/Summary/Status.antt =====
-- The status of a summary, said of the results of the diagnosis alone.
use orynelo.Prelude.{
  ℕ, String, ◌≡◌, refl, sym, ap, ◌∙◌, inl, inr, List, Bool, true, false, ◌==◌, any, any-mem,
  mem-any, find-mem, All, All-of, Memᴰ, head, tail, join, mem-join,
}
use orynelo.Model.{failed, cancelled, is_terminal, status_equality, CheckResult, Summary}
use orynelo.Summary.Facts.{DiagnosticFacts, collect_facts}
use orynelo.Summary.Searches.{first_with_status}
use orynelo.Summary.Candidate.{Candidate, rank, candidate}
use orynelo.Summary.Layers.{cancelled_candidates}
use orynelo.Summary.Build.{layers, build_candidates, conclusion_from_results, build}
use orynelo.Summary.Sound.{IsSound, IsFinal, is_severe, is_interrupted, is_cancelled}
use orynelo.Summary.Soundness.{build_candidates-IsSound}
use orynelo.Summary.Choice.{IsChosen, IsChosen-mem, Concludes, build-Concludes}
use orynelo.Summary.Blocked.{is_blocked}
use orynelo.Summary.Verdict.{layers-severe, chosen-failed, chosen-cancelled}

-- A cancelled result interrupts.
cancelled-interrupted :
    (facts : DiagnosticFacts)
    → any is_cancelled facts.results ≡ true
    → any is_interrupted (cancelled_candidates facts) ≡ true
unfolding cancelled_candidates first_with_status candidate rank
cancelled-interrupted facts h =
    let one = any-mem is_cancelled facts.results h in
    let found = find-mem is_cancelled facts.results one.1 one.2 in rw (found.1)

any-of_layer :
    (p : Candidate → Bool) (xss : List (List Candidate)) {xs : List Candidate}
    → Memᴰ xs xss
    → any p xs ≡ true
    → any p (join xss) ≡ true
any-of_layer p xss {xs} m h =
    let one = any-mem p xs h in mem-any p (join xss) (mem-join xss m one.1) one.2

module _ (duration_string : ℕ → String) (rs : List CheckResult) where
  abbrev facts : DiagnosticFacts
  facts = collect_facts rs

  abbrev candidates : List Candidate
  candidates = build_candidates duration_string facts

  candidates-interrupted : any is_cancelled rs ≡ true → any is_interrupted candidates ≡ true
  unfolding build_candidates collect_facts
  candidates-interrupted h =
      any-of_layer is_interrupted (layers duration_string facts)
        (tail (tail (tail (tail (tail (tail (tail (tail (tail (head refl))))))))))
        (cancelled-interrupted facts h)

  candidates-severe : any is_severe candidates ≡ is_blocked facts
  unfolding build_candidates
  candidates-severe = layers-severe facts duration_string

  concluded-failed :
      (s : Summary) → Concludes s candidates → (s.status == failed) ≡ is_blocked facts
  unfolding conclusion_from_results
  concluded-failed s (inl (e, k)) = rw (k) (sym (ap (any is_severe) e) ∙ candidates-severe)
  concluded-failed s (inr (best, chosen, k)) = rw (k) (
      chosen-failed rs candidates (build_candidates-IsSound duration_string rs) chosen
      ∙ candidates-severe)

  -- The summary says that the diagnosis failed exactly if a result blocks it: an expired diagnosis,
  -- a check's own timeout or failure that none of the excuses covers (a discrepancy of a preflight,
  -- an auxiliary comparison, a timeout before a later failure), an invalid target, a rejected proxy,
  -- or an HTTP request that failed.
  pub build-failed : ((build duration_string rs).status == failed) ≡ is_blocked (collect_facts rs)
  build-failed = concluded-failed (build duration_string rs) (build-Concludes duration_string rs)

  chosen-IsSound : {best : Candidate} → IsChosen best candidates → IsSound rs best
  chosen-IsSound chosen =
      All-of (IsSound rs) candidates (build_candidates-IsSound duration_string rs)
        (IsChosen-mem candidates chosen)

  concluded-cancelled :
      (s : Summary)
      → Concludes s candidates
      → is_blocked facts ≡ false
      → (s.status == cancelled) ≡ any is_cancelled rs
  unfolding conclusion_from_results
  concluded-cancelled s (inl (e, k)) free = rw (k) (nothing (any is_cancelled rs) refl)
    where
      nothing : (b : Bool) → any is_cancelled rs ≡ b → false ≡ b
      nothing false h = refl
      nothing true h = sym (ap (any is_interrupted) e) ∙ candidates-interrupted h
  concluded-cancelled s (inr (best, chosen, k)) free =
      rw (k) (agree (best.status == cancelled) refl (any is_cancelled rs) refl)
    where
      agree :
          (a : Bool) → (best.status == cancelled) ≡ a → (b : Bool) → any is_cancelled rs ≡ b → a ≡ b
      agree true e true h = refl
      agree false e false h = refl
      agree true e false h = cc ((chosen-IsSound chosen).some_cancelled e, h)
      agree false e true h =
          let decided =
            chosen-cancelled rs candidates (build_candidates-IsSound duration_string rs) chosen
              (candidates-severe ∙ free) (candidates-interrupted h) in
          sym e ∙ ap (λ t. t == cancelled) decided

  -- Of a diagnosis that is not blocked the summary says that it was cancelled exactly if a check was.
  pub build-cancelled :
      is_blocked (collect_facts rs) ≡ false
      → ((build duration_string rs).status == cancelled) ≡ any is_cancelled rs
  build-cancelled =
      concluded-cancelled (build duration_string rs) (build-Concludes duration_string rs)

  concluded-is_terminal :
      (s : Summary) → Concludes s candidates → All IsFinal rs → is_terminal s.status ≡ true
  unfolding conclusion_from_results is_terminal
  concluded-is_terminal s (inl (e, k)) h = rw (k)
  concluded-is_terminal s (inr (best, chosen, k)) h = rw (k) ((chosen-IsSound chosen).terminal h)

  pub build-is_terminal : All IsFinal rs → is_terminal (build duration_string rs).status ≡ true
  build-is_terminal =
      concluded-is_terminal (build duration_string rs) (build-Concludes duration_string rs)
