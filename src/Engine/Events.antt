-- ===== src/Engine/Events.antt =====
-- The stream of events of `Engine.Run`: starts and completions.
use native.Mathlib.Nat.{add-zero, add-suc, suc-add, add_assoc}
use orynelo.Prelude.{
  ℕ, suc, ◌+◌, ◌≡◌, refl, ap, ◌∙◌, List, [], ◌∷◌, ◌++◌, Option, none, some, arith, length,
  length-append,
}
use orynelo.Model.{CheckResult, CheckEvent, CheckEventType, check_started, check_completed}
use orynelo.Engine.Defs.{Check, Stopped, Config}
use orynelo.Engine.Run.{
  Plan, plan_size, World, stop_stage, run_stage, enter_stage, run_from, run, started_event,
  started_events, completed_event, completed_events,
}

abbrev pub start_of : CheckEventType → ℕ → List ℕ → List ℕ
start_of check_started i later = i ∷ later
start_of _ i later = later

-- The numbers of the checks that are announced as started.
abbrev pub starts : List CheckEvent → List ℕ
starts [] = []
starts (e ∷ es) = start_of e.type e.index (starts es)

abbrev pub completion_of :
    CheckEventType → Option CheckResult → ℕ → List (ℕ × CheckResult) → List (ℕ × CheckResult)
completion_of check_completed (some r) i later = (i, r) ∷ later
completion_of _ _ i later = later

-- The results that the completions carry, with their numbers.
abbrev pub completions : List CheckEvent → List (ℕ × CheckResult)
completions [] = []
completions (e ∷ es) = completion_of e.type e.result e.index (completions es)

abbrev pub number : ℕ → List CheckResult → List (ℕ × CheckResult)
number i [] = []
number i (r ∷ rs) = (i, r) ∷ number (suc i) rs

pub completions-append :
    (es fs : List CheckEvent) → completions (es ++ fs) ≡ completions es ++ completions fs
completions-append [] fs = refl
completions-append (e ∷ es) fs = ground (arith, completions-append es fs)

pub starts-append : (es fs : List CheckEvent) → starts (es ++ fs) ≡ starts es ++ starts fs
starts-append [] fs = refl
starts-append (e ∷ es) fs = ground (arith, starts-append es fs)

pub number-append :
    (i : ℕ) (rs ss : List CheckResult)
    → number i (rs ++ ss) ≡ number i rs ++ number (i + length rs) ss
number-append i [] ss = rw add-zero
number-append i (r ∷ rs) ss =
    cc (number-append (suc i) rs ss, suc-add i (length rs), add-suc i (length rs))

module _ {S : Type 0} (config : Config S) (world : World S) where
  abbrev base : ℕ → ℕ
  base n = config.event_index_offset + n

  stop_stage-completions :
      (stop : Stopped) (n : ℕ) (cs : List Check)
      → let (results, events) = stop_stage config world stop n cs in
        completions events ≡ number (base n) results
  unfolding stop_stage completed_event
  stop_stage-completions stop n [] = refl
  stop_stage-completions stop n (c ∷ cs) =
      cc (stop_stage-completions stop (suc n) cs, add-suc config.event_index_offset n)

  completed_events-completions :
      (n : ℕ) (rs : List CheckResult)
      → completions (completed_events config world n rs) ≡ number (base n) rs
  unfolding completed_events completed_event
  completed_events-completions n [] = refl
  completed_events-completions n (r ∷ rs) =
      cc (completed_events-completions (suc n) rs, add-suc config.event_index_offset n)

  started_events-completions :
      (n : ℕ) (cs : List Check) → completions (started_events config world n cs) ≡ []
  unfolding started_events started_event
  started_events-completions n [] = refl
  started_events-completions n (c ∷ cs) = started_events-completions (suc n) cs

  stop_stage-length :
      (stop : Stopped) (n : ℕ) (cs : List Check)
      → length (stop_stage config world stop n cs).0 ≡ length cs
  unfolding stop_stage
  stop_stage-length stop n [] = refl
  stop_stage-length stop n (c ∷ cs) = ap suc (stop_stage-length stop (suc n) cs)

  pub run_stage-length :
      (n : ℕ) (cs : List Check) → length (run_stage config world n cs) ≡ length cs
  unfolding run_stage
  run_stage-length n [] = refl
  run_stage-length n (c ∷ cs) = ap suc (run_stage-length (suc n) cs)

  enter_stage-length :
      (entry : Option Stopped) (n : ℕ) (cs : List Check)
      → length (enter_stage config world entry n cs).0 ≡ length cs
  unfolding enter_stage
  enter_stage-length (some stop) n cs = stop_stage-length stop n cs
  enter_stage-length none n cs = run_stage-length n cs

  enter_stage-completions :
      (entry : Option Stopped) (n : ℕ) (cs : List Check)
      → let (results, events) = enter_stage config world entry n cs in
        completions events ≡ number (base n) results
  unfolding enter_stage
  enter_stage-completions (some stop) n cs = stop_stage-completions stop n cs
  enter_stage-completions none n cs =
      completions-append (started_events config world n cs) _
      ∙ (rw (started_events-completions n cs)
          (completed_events-completions n (run_stage config world n cs)))

  run_from-completions :
      (n : ℕ) (plan : Plan)
      → let (results, events) = run_from config world n plan in
        completions events ≡ number (base n) results
  unfolding run_from
  run_from-completions n [] = refl
  run_from-completions n ([] ∷ plan) = run_from-completions n plan
  run_from-completions n ((c ∷ cs) ∷ plan) =
      let entry = world.stage_entry n in
      let m = n + length (c ∷ cs) in
      cc (
        completions-append (enter_stage config world entry n (c ∷ cs)).1
            (run_from config world m plan).1,
        number-append (base n) (enter_stage config world entry n (c ∷ cs)).0
            (run_from config world m plan).0,
        enter_stage-completions entry n (c ∷ cs),
        enter_stage-length entry n (c ∷ cs),
        run_from-completions m plan,
        add_assoc config.event_index_offset n (length (c ∷ cs)),
      )

  run_from-length : (n : ℕ) (plan : Plan) → length (run_from config world n plan).0 ≡ plan_size plan
  unfolding run_from plan_size
  run_from-length n [] = refl
  run_from-length n ([] ∷ plan) = omega (arith, run_from-length n plan)
  run_from-length n ((c ∷ cs) ∷ plan) =
      let m = n + length (c ∷ cs) in
      omega (
        arith,
        length-append (enter_stage config world (world.stage_entry n) n (c ∷ cs)).0
            (run_from config world m plan).0,
        enter_stage-length (world.stage_entry n) n (c ∷ cs),
        run_from-length m plan,
      )

  -- There is one result for each check of the plan, and the completion events carry exactly these
  -- results, in order, numbered from the offset of the engine.
  pub run-completions :
      (plan : Plan)
      → let (results, events) = run config world plan in
        (length results ≡ plan_size plan)
        × (completions events ≡ number config.event_index_offset results)
  unfolding run
  run-completions plan = (run_from-length 0 plan, run_from-completions 0 plan ∙ (rw add-zero))
