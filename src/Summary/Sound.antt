-- ===== src/Summary/Sound.antt =====
-- What is asked of a candidate of `buildCandidates`.
use orynelo.Prelude.{
  ℕ, ◌≡◌, refl, ◌≢◌, List, [], ◌∷◌, Bool, true, false, ◌==◌, number_equality, name_equality, Memᴰ,
  All, All-of, All-tabulate, AllSome, AllSome-imp, if_cases, any, find, find_last, find-finds,
  find_last-finds, keep, keep-keeps,
}
use orynelo.Model.{Status, warning, failed, cancelled, is_terminal, status_equality, CheckResult}
use orynelo.Summary.Facts.{DiagnosticFacts, collect_facts, is_reached, is_failed_preflight}
use orynelo.Summary.Searches.{by_id}
use orynelo.Summary.Candidate.{
  Severity, degraded, severe, Candidate, rank, candidate, blocker, Texts,
}

abbrev pub is_severe : Candidate → Bool
is_severe c = rank c.severity == 3

abbrev pub is_interrupted : Candidate → Bool
is_interrupted c = rank c.severity == 2

abbrev pub is_cancelled : CheckResult → Bool
is_cancelled r = r.status == cancelled

abbrev pub IsFinal : CheckResult → Type 0
IsFinal r = is_terminal r.status ≡ true

-- A candidate drawn from the results.
pub record IsSound (results : List CheckResult) (c : Candidate) : Type 0 where
  pub failed_if_severe : (c.status == failed) ≡ is_severe c
  pub cancelled_if_interrupted : is_interrupted c ≡ true → c.status ≡ cancelled
  pub some_cancelled : (c.status == cancelled) ≡ true → any is_cancelled results ≡ true
  pub grounded : All (λ r. Memᴰ r results) c.results
  pub not_empty : c.results ≢ []
  pub terminal : All IsFinal results → is_terminal c.status ≡ true

-- A status that fits its severity, whatever the results are.
abbrev pub Fits : Severity → Status → Type 0
Fits severity status =
    ((status == failed) ≡ (rank severity == 3))
    × ((rank severity == 2) ≡ false)
    × ((status == cancelled) ≡ false)
    × (is_terminal status ≡ true)

module _ {results : List CheckResult} where
  pub candidate-IsSound :
      (severity : Severity) (priority : ℕ) (status : Status) (texts : Texts)
      {chosen : List CheckResult}
      → Fits severity status
      → All (λ r. Memᴰ r results) chosen
      → chosen ≢ []
      → IsSound results (candidate severity priority status texts chosen)
  unfolding candidate
  candidate-IsSound severity priority status texts fits all filled = record {
    failed_if_severe = fits.0;
    cancelled_if_interrupted = λ h. cc (h, fits.1);
    some_cancelled = λ h. cc (h, fits.2);
    grounded = all;
    not_empty = filled;
    terminal = λ h. fits.3;
  }

  pub blocker-IsSound :
      (priority : ℕ) (texts : Texts) {chosen : List CheckResult}
      → All (λ r. Memᴰ r results) chosen
      → chosen ≢ []
      → IsSound results (blocker priority texts chosen)
  unfolding blocker rank is_terminal
  blocker-IsSound priority texts all filled =
      candidate-IsSound severe priority failed texts (refl, refl, refl, refl) all filled

  pub mild-IsSound :
      (priority : ℕ) (texts : Texts) {chosen : List CheckResult}
      → All (λ r. Memᴰ r results) chosen
      → chosen ≢ []
      → IsSound results (candidate degraded priority warning texts chosen)
  unfolding rank is_terminal
  mild-IsSound priority texts all filled =
      candidate-IsSound degraded priority warning texts (refl, refl, refl, refl) all filled

pub cons-ne-nil {ℓ} : {A : Type ℓ} {x : A} (xs : List A) → x ∷ xs ≢ []
cons-ne-nil xs h = cc

-- Facts whose parts stand among the results.
pub record IsFounded (facts : DiagnosticFacts) : Type 0 where
  pub proxy : AllSome (λ r. Memᴰ r facts.results) facts.proxy
  pub http : AllSome (λ r. Memᴰ r facts.results) facts.http
  pub failures : All (λ r. Memᴰ r facts.results) facts.preflight_failures

pub AllSome-find :
    (p : CheckResult → Bool) (rs : List CheckResult) → AllSome (λ r. Memᴰ r rs) (find p rs)
AllSome-find p rs = AllSome-imp (λ r h. h.0) (find p rs) (find-finds p rs)

pub AllSome-find_last :
    (p : CheckResult → Bool) (rs : List CheckResult) → AllSome (λ r. Memᴰ r rs) (find_last p rs)
AllSome-find_last p rs = AllSome-imp (λ r h. h.0) (find_last p rs) (find_last-finds p rs)

pub All-keep : (p : CheckResult → Bool) (rs : List CheckResult) → All (λ r. Memᴰ r rs) (keep p rs)
All-keep p rs =
    All-tabulate (λ r. Memᴰ r rs) (keep p rs)
      (λ r m. (All-of (λ a. Memᴰ a rs × (p a ≡ true)) (keep p rs) (keep-keeps p rs) m).0)

pub collect_facts-IsFounded : (rs : List CheckResult) → IsFounded (collect_facts rs)
unfolding collect_facts by_id
collect_facts-IsFounded rs = record {
  proxy = AllSome-find (λ r. r.id == "environment") rs;
  http = AllSome-find (λ r. r.id == "http") rs;
  failures =
      if_cases (All (λ r. Memᴰ r rs)) (is_reached (by_id rs "http"))
        (λ _. All-keep is_failed_preflight rs) (λ _. tt);
}
