-- ===== src/Engine/Timeouts.antt =====
-- The budget of a check, and what the evidence records of it.
use orynelo.Prelude.{
  ℕ, ◌-◌, min, ◌≡◌, refl, inl, inr, String, List, [], ◌∷◌, Option, none, some, Bool, true, not,
  ◌==◌, name_equality, str_iff, if◌then◌else◌, arith, Bool-cases, Any, Any-map, keep,
}
use orynelo.Model.{
  failed, Evidence, CheckResult, complete, max_duration, since, own_evidence, is_valid,
}
use orynelo.Engine.Defs.{
  Check, deadline_exceeded, returned, Config, Attempt, run_check, skip_answer, put, timeout_details,
  ensure_check_timeout_evidence, amend_timeout_evidence, new_timeout_evidence, check_timeout_code,
  named, settle, exceeded, enter, skip_or_execute, execute, after_run,
}

abbrev pub detail : String → List (String × String) → Option String
detail key [] = none
detail key ((k, v) ∷ m) = if k == key then some v else detail key m

detail-put :
    (key k v : String) (m : List (String × String))
    → detail key (put k v m) ≡ (if k == key then some v else detail key m)
unfolding put
detail-put key k v [] = refl
detail-put key k v ((j, w) ∷ m) =
    ground (arith, str_iff j k, str_iff k key, str_iff j key, detail-put key k v m)

-- The evidence of a spent check budget.
pub record IsBudgetRecord (text : ℕ → String) (id : String) (budget elapsed : ℕ) (e : Evidence)
    : Type 0 where
  pub has_code : e.code ≡ check_timeout_code
  pub has_budget : detail "configuredBudget" e.details ≡ some (text budget)
  pub has_elapsed : detail "elapsed" e.details ≡ some (text elapsed)
  pub has_stage : detail "stage" e.details ≡ some id

abbrev pub is_other : Evidence → Bool
is_other e = not (e.code == check_timeout_code)

module _ (text : ℕ → String) (id name : String) (budget elapsed : ℕ) where
  details_lem :
      (m : List (String × String))
      → let d = timeout_details text id name budget elapsed m in
        (detail "configuredBudget" d ≡ some (text budget))
        × (detail "elapsed" d ≡ some (text elapsed))
        × (detail "stage" d ≡ some id)
  unfolding timeout_details
  details_lem m = (simp detail-put, simp detail-put, simp detail-put)

  new_lem : IsBudgetRecord text id budget elapsed (new_timeout_evidence text id name budget elapsed)
  unfolding new_timeout_evidence
  new_lem = record {
    has_code = refl;
    has_budget = (details_lem []).0;
    has_elapsed = (details_lem []).1;
    has_stage = (details_lem []).2;
  }

  amended_lem :
      (e : Evidence)
      → (e.code == check_timeout_code) ≡ true
      → IsBudgetRecord text id budget elapsed (amend_timeout_evidence text id name budget elapsed e)
  unfolding amend_timeout_evidence
  amended_lem e h = record {
    has_code = (str_iff e.code check_timeout_code).0 h;
    has_budget = (details_lem e.details).0;
    has_elapsed = (details_lem e.details).1;
    has_stage = (details_lem e.details).2;
  }

  own_record :
      (e : Evidence)
      → IsBudgetRecord text id budget elapsed e
      → IsBudgetRecord text id budget elapsed (own_evidence id e)
  unfolding own_evidence
  own_record e h = record {
    has_code = h.has_code;
    has_budget = h.has_budget;
    has_elapsed = h.has_elapsed;
    has_stage = h.has_stage;
  }

  -- The list holds a record of the spent budget, an old one amended or a new one, and all other
  -- evidence is kept in order.
  ensure_lem :
      (es : List Evidence)
      → let out = ensure_check_timeout_evidence text id name budget elapsed es in
        Any (IsBudgetRecord text id budget elapsed) out × (keep is_other out ≡ keep is_other es)
  unfolding ensure_check_timeout_evidence new_timeout_evidence amend_timeout_evidence
  ensure_lem [] = (inl new_lem, refl)
  ensure_lem (e ∷ es) = elim (Bool-cases (e.code == check_timeout_code)) [
    | inl old ↦ rw old (inl (amended_lem e old), rw old)
    | inr other ↦ rw other (inr (ensure_lem es).0, rw other (rw (ensure_lem es).1))
  ]

module _ {S : Type 0} (config : Config S) (check : Check) (a : Attempt S) where
  -- A check that overruns its own budget, while the diagnosis is not over, fails with the timeout
  -- code whatever it reported, and its evidence records the budget and the elapsed time.
  pub run_check-overrun :
      (r : CheckResult)
      → a.entry ≡ none
      → skip_answer config.skip_check a.state check ≡ none
      → a.outcome ≡ returned r
      → a.exit ≡ none
      → a.check_err ≡ some deadline_exceeded
      → let out = run_check config check a in
        let text = config.duration_string in
        (out.status ≡ failed)
        × (out.error_code ≡ check_timeout_code)
        × Any
            (IsBudgetRecord text out.id config.check_timeout
              (min (a.finished - a.started) max_duration))
            out.evidence
  unfolding run_check enter skip_or_execute execute complete settle is_valid after_run exceeded
      since
  run_check-overrun r h s o x d =
      rw (h, enter)
        (rw (s, skip_or_execute)
          (rw (o, execute)
            (rw (x, after_run)
              (rw (d, after_run)
                (
                  refl,
                  refl,
                  Any-map (own_evidence (named check r).id)
                      (own_record config.duration_string _ (named check r).name _ _) _
                      (ensure_lem config.duration_string (named check r).id (named check r).name
                        config.check_timeout (min (a.finished - a.started) max_duration)
                        (named check r).evidence).0,
                )))))
