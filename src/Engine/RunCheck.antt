-- ===== src/Engine/RunCheck.antt =====
-- What one executed check reports, on every path through `runCheck`.
use orynelo.Prelude.{
  ℕ, ◌≡◌, refl, ◌∙◌, ◌⊎◌, String, Option, none, some, true, name_equality, str_iff, arith,
}
use orynelo.Model.{is_terminal, CheckResult, complete}
use orynelo.Engine.Defs.{
  Check, CtxErr, Cause, Stopped, Outcome, returned, panicked, Config, Attempt, run_check,
  skip_answer, settle, execute, skip_or_execute, enter, stopped_result, stopped_status, after_run,
  named,
}

-- The hook `SkipCheck` answers with finished results only.
abbrev pub SkipsTerminal : {S : Type 0} → Config S → Type 0
SkipsTerminal {S} config =
    (state : S) (check : Check) (r : CheckResult)
    → skip_answer config.skip_check state check ≡ some r
    → is_terminal r.status ≡ true

settle-is_terminal : (r : CheckResult) → is_terminal (settle r).status ≡ true
unfolding settle is_terminal
settle-is_terminal r = ground arith

pub stopped-is_terminal : (c : Cause) → is_terminal (stopped_status c) ≡ true
unfolding is_terminal
stopped-is_terminal c = ground arith

module _ {S : Type 0} (config : Config S) (check : Check) (a : Attempt S) where
  execute-is_terminal : (o : Outcome) → is_terminal (execute config check a o).status ≡ true
  unfolding execute complete is_terminal
  execute-is_terminal panicked = refl
  execute-is_terminal (returned r) = settle-is_terminal _

  skip_or_execute-is_terminal :
      (o : Option CheckResult)
      → ((r : CheckResult) → o ≡ some r → is_terminal r.status ≡ true)
      → is_terminal (skip_or_execute config check a o).status ≡ true
  unfolding skip_or_execute complete named
  skip_or_execute-is_terminal (some r) h = h r refl
  skip_or_execute-is_terminal none h = execute-is_terminal a.outcome

  enter-is_terminal :
      SkipsTerminal config
      → (entry : Option Stopped) → is_terminal (enter config check a entry).status ≡ true
  unfolding enter stopped_result
  enter-is_terminal h (some stop) = stopped-is_terminal stop.cause
  enter-is_terminal h none = skip_or_execute-is_terminal _ (h a.state check)

  -- Whatever the check does (it returns any status at all, or panics) and whatever happens to the
  -- contexts, the result is a finished one, if `SkipCheck` answers with finished results.
  pub run_check-is_terminal :
      SkipsTerminal config → is_terminal (run_check config check a).status ≡ true
  unfolding run_check
  run_check-is_terminal h = enter-is_terminal h a.entry

-- The check and the hook leave the result's identity empty or give the check's own.
abbrev pub NamesOnly : Check → CheckResult → Type 0
NamesOnly check r = (r.id ≡ "") ⊎ (r.id ≡ check.id)

abbrev pub OutcomeNames : Check → Outcome → Type 0
OutcomeNames check panicked = Unit
OutcomeNames check (returned r) = NamesOnly check r

abbrev pub IsHonest : {S : Type 0} → Config S → Check → Attempt S → Type 0
IsHonest config check a =
    OutcomeNames check a.outcome
    × ((r : CheckResult) → skip_answer config.skip_check a.state check ≡ some r → NamesOnly check r)

named-id : (check : Check) (r : CheckResult) → NamesOnly check r → (named check r).id ≡ check.id
unfolding named
named-id check r h = ground (arith, str_iff r.id "")

after_run-id :
    (text : ℕ → String) (budget elapsed : ℕ) (check : Check) (stop : Option Stopped)
    (e : Option CtxErr) (r : CheckResult)
    → (after_run text budget elapsed check stop e r).id ≡ r.id
unfolding after_run
after_run-id text budget elapsed check stop e r = ground arith

settle-id : (r : CheckResult) → (settle r).id ≡ r.id
unfolding settle
settle-id r = ground arith

module _ {S : Type 0} (config : Config S) (check : Check) (a : Attempt S) where
  execute-id : (o : Outcome) → OutcomeNames check o → (execute config check a o).id ≡ check.id
  unfolding execute complete
  execute-id panicked h = refl
  execute-id (returned r) h =
      settle-id _ ∙ after_run-id _ _ _ check a.exit a.check_err _ ∙ named-id check r h

  skip_or_execute-id :
      OutcomeNames check a.outcome
      → (o : Option CheckResult) → ((r : CheckResult) → o ≡ some r → NamesOnly check r)
      → (skip_or_execute config check a o).id ≡ check.id
  unfolding skip_or_execute complete
  skip_or_execute-id out (some r) h = named-id check r (h r refl)
  skip_or_execute-id out none h = execute-id a.outcome out

  enter-id :
      IsHonest config check a
      → (entry : Option Stopped) → (enter config check a entry).id ≡ check.id
  unfolding enter stopped_result
  enter-id h (some stop) = refl
  enter-id h none = skip_or_execute-id h.0 _ h.1

  pub run_check-id : IsHonest config check a → (run_check config check a).id ≡ check.id
  unfolding run_check
  run_check-id h = enter-id h a.entry
