-- ===== src/Runner/Engines.antt =====
-- What the engines of a diagnosis report of its checks, before the events are correlated.
use native.Mathlib.Nat.{zero-add}
use orynelo.Prelude.{
  ℕ, suc, ◌+◌, ◌≡◌, refl, sym, ap, List, [], ◌∷◌, ◌++◌, map, Bool, true, false, arith, join, length,
  length-append, length-map, name_equality,
}
use orynelo.Model.{CheckResult, CheckEvent, is_terminal}
use orynelo.Engine.{Plan, run, plan_size}
use orynelo.Engine.RunCheck.{SkipsTerminal}
use orynelo.Engine.Events.{completions, completions-append, number, number-append, run-completions}
use orynelo.Runner.Plans.{split_plan_at_check, split_mandatory_preflight}
use orynelo.Runner.Policy.{
  skip_invalid_proxy_direct_check, mark_result, mark_http_preflight_auxiliary,
  mark_proxy_preflight_auxiliary, auxiliary_preflight_event, not_selected, unresolved,
  misconfigured,
}
use orynelo.Runner.Diagnose.{
  Setup, Worlds, preflight_config, actual_config, preflight_events, preflight_results, run_engines,
  run_by_plan,
}
use orynelo.Runner.Splitting.{split_plan_at_check-IsSplitAt, split_mandatory_preflight-KeepsChecks}

-- The hook of the runner answers with finished results, as the engine wants it.
pub preflight_config-SkipsTerminal :
    (setup : Setup) (offset : ℕ) → SkipsTerminal (preflight_config setup offset)
unfolding skip_invalid_proxy_direct_check not_selected unresolved misconfigured is_terminal
preflight_config-SkipsTerminal setup offset proxy check r h = ground arith

abbrev mark_numbered : Bool → ℕ × CheckResult → ℕ × CheckResult
mark_numbered selected (i, r) = (i, mark_result selected r)

completions-marked :
    (selected : Bool) (es : List CheckEvent)
    → completions (map (auxiliary_preflight_event selected) es)
      ≡ map (mark_numbered selected) (completions es)
unfolding auxiliary_preflight_event
completions-marked selected [] = refl
completions-marked selected (e ∷ es) =
    let rest = completions-marked selected es in ground (arith, rest)

number-marked :
    (selected : Bool) (i : ℕ) (rs : List CheckResult)
    → number i (map (mark_result selected) rs) ≡ map (mark_numbered selected) (number i rs)
number-marked selected i [] = refl
number-marked selected i (r ∷ rs) =
    ap (◌∷◌ (i, mark_result selected r)) (number-marked selected (suc i) rs)

-- The state says the same of the proxy before the preflight and after it.
abbrev pub IsSettled : Setup → Type 0
IsSettled setup = setup.selected_after ≡ setup.selected_before

preflight-completions :
    (setup : Setup) (offset : ℕ) (rs : List CheckResult) (es : List CheckEvent)
    → setup.is_http ≡ true
    → IsSettled setup
    → completions es ≡ number offset rs
    → completions (preflight_events setup es) ≡ number offset (preflight_results setup rs)
unfolding preflight_events preflight_results mark_http_preflight_auxiliary
    mark_proxy_preflight_auxiliary
preflight-completions setup offset rs es http settled same = ground (
  arith,
  completions-marked true es,
  completions-marked false es,
  number-marked true offset rs,
  number-marked false offset rs,
)

preflight_results-length :
    (setup : Setup) (rs : List CheckResult) → length (preflight_results setup rs) ≡ length rs
unfolding preflight_results mark_http_preflight_auxiliary mark_proxy_preflight_auxiliary
preflight_results-length setup rs =
    ground (arith, length-map rs (mark_result true), length-map rs (mark_result false))

plan_size-join : (plan : Plan) → plan_size plan ≡ length (join plan)
unfolding plan_size
plan_size-join [] = refl
plan_size-join (stage ∷ rest) = omega (arith, plan_size-join rest, length-append stage (join rest))

plan_size-append : (p q : Plan) → plan_size (p ++ q) ≡ plan_size p + plan_size q
unfolding plan_size
plan_size-append [] q = omega arith
plan_size-append (stage ∷ rest) q = omega (arith, plan_size-append rest q)

-- The runs of three engines, one after another, numbered on.
three_runs :
    (xs ys zs : List CheckResult) (a b c : List CheckEvent) (m n : ℕ)
    → m ≡ length xs
    → n ≡ length xs + length ys
    → completions a ≡ number 0 xs
    → completions b ≡ number m ys
    → completions c ≡ number n zs
    → completions (a ++ (b ++ c)) ≡ number 0 (xs ++ (ys ++ zs))
three_runs xs ys zs a b c m n hm hn ha hb hc = cc (
  completions-append a (b ++ c),
  completions-append b c,
  number-append 0 xs (ys ++ zs),
  number-append (length xs) ys zs,
  ha,
  hb,
  hc,
  hm,
  hn,
  zero-add (length xs),
)

split_sizes :
    (plan : Plan)
    → let (mandatory, auxiliary) = split_mandatory_preflight plan in
      plan_size plan ≡ plan_size mandatory + plan_size auxiliary
split_sizes plan =
    let split = split_mandatory_preflight plan in
    omega (
      arith,
      plan_size-join plan,
      plan_size-join split.0,
      plan_size-join split.1,
      length-append (join split.0) (join split.1),
      ap length (split_mandatory_preflight-KeepsChecks plan),
    )

module _ (setup : Setup) (worlds : Worlds) (plan : Plan) where
  abbrev Reports : List CheckResult × List CheckEvent → Type 0
  Reports (results, events) =
      (length results ≡ plan_size plan) × (completions events ≡ number 0 results)

  run_engines-completions :
      (preflight actual : Plan)
      → setup.is_http ≡ true
      → IsSettled setup
      → preflight ++ actual ≡ plan
      → Reports (run_engines setup worlds preflight actual)
  unfolding run_engines
  run_engines-completions preflight actual http settled whole =
      let split = split_mandatory_preflight preflight in
      let size = plan_size split.0 in
      let first = run-completions (preflight_config setup 0) worlds.mandatory split.0 in
      let second = run-completions (preflight_config setup size) worlds.preflight split.1 in
      let third =
        run-completions (actual_config setup (plan_size preflight)) worlds.actual actual in
      let (firsts, first_events) = run (preflight_config setup 0) worlds.mandatory split.0 in
      let (seconds, second_events) = run (preflight_config setup size) worlds.preflight split.1 in
      let (thirds, third_events) =
        run (actual_config setup (plan_size preflight)) worlds.actual actual in
      let marked = preflight_results setup seconds in
      let kept = preflight_results-length setup seconds in
      let halves = split_sizes preflight in
      (
        omega (
          arith,
          length-append firsts (marked ++ thirds),
          length-append marked thirds,
          first.0,
          second.0,
          third.0,
          kept,
          halves,
          plan_size-append preflight actual,
          ap plan_size whole,
        ),
        three_runs firsts marked thirds first_events (preflight_events setup second_events)
            third_events size (plan_size preflight) (sym first.0)
            (omega (arith, halves, first.0, second.0, kept)) first.1
            (preflight-completions setup size seconds second_events http settled second.1) third.1,
      )

  pub run_by_plan-completions :
      setup.is_http ≡ true
      → IsSettled setup
      → let (results, events) = run_by_plan setup worlds plan in
        (length results ≡ plan_size plan) × (completions events ≡ number 0 results)
  unfolding run_by_plan
  run_by_plan-completions http settled =
      engines (split_plan_at_check "http" plan).0 (split_plan_at_check "http" plan).1
        (split_plan_at_check-IsSplitAt "http" plan).0
    where
      engines :
          (preflight actual : Plan)
          → preflight ++ actual ≡ plan
          → Reports (elim actual [
            | [] ↦ run (preflight_config setup 0) worlds.mandatory plan
            | stage ∷ rest ↦ run_engines setup worlds preflight (stage ∷ rest)
          ])
      engines preflight [] whole = run-completions (preflight_config setup 0) worlds.mandatory plan
      engines preflight (stage ∷ rest) whole =
          run_engines-completions preflight (stage ∷ rest) http settled whole
