-- ===== src/Runner/Splitting.antt =====
-- What the splits of a plan make of its checks.
use mathlib.Core.List.{append_assoc, append-nil}
use orynelo.Prelude.{
  String, ◌≡◌, refl, ◌∙◌, sym, ap, List, [], ◌∷◌, ◌++◌, true, false, ◌==◌, name_equality, Option,
  none, some, if_cases, join, All, ◌⊎◌, inl, inr,
}
use orynelo.Engine.{Check, Plan}
use orynelo.Runner.Plans.{
  has_check, split_plan_at_check, split_stage_after, add_stage, split_plan_after_check, or_split,
  split_mandatory_preflight,
}

-- The pieces are the plan; no stage before the split has the check, and the first one after it has.
abbrev pub IsSplitAt : String → Plan → Plan × Plan → Type 0
IsSplitAt id plan (before, after) =
    (before ++ after ≡ plan)
    × All (λ stage. has_check id stage ≡ false) before
    × ((after ≡ [])
        ⊎ ((stage : List Check) × (rest : Plan) × (after ≡ stage ∷ rest)
            × (has_check id stage ≡ true)))

-- The plan is split before the first stage that has a check of the name, and not at all if none has:
-- then nothing is left for the second part.
pub split_plan_at_check-IsSplitAt :
    (id : String) (plan : Plan) → IsSplitAt id plan (split_plan_at_check id plan)
unfolding split_plan_at_check
split_plan_at_check-IsSplitAt id [] = (refl, tt, inl refl)
split_plan_at_check-IsSplitAt id (stage ∷ rest) =
    let (same, free, first) = split_plan_at_check-IsSplitAt id rest in
    if_cases (IsSplitAt id (stage ∷ rest)) (has_check id stage)
      (λ has. (refl, tt, inr (stage, rest, refl, has)))
      (λ other. (ap (stage ∷◌) same, (other, free), first))

-- The checks of the pieces are those of the stage.
abbrev OfStage : List Check → Option (List Check × List Check) → Type 0
OfStage stage none = Unit
OfStage stage (some (before, after)) = before ++ after ≡ stage

split_stage_after-OfStage :
    (id : String) (stage : List Check) → OfStage stage (split_stage_after id stage)
unfolding split_stage_after
split_stage_after-OfStage id [] = tt
split_stage_after-OfStage id (check ∷ rest) =
    if_cases (OfStage (check ∷ rest)) (check.id == id) (λ _. refl)
      λ _. further (split_stage_after id rest) (split_stage_after-OfStage id rest)
  where
    further :
        (later : Option (List Check × List Check))
        → OfStage rest later
        → OfStage
            (check ∷ rest)
            (elim later [ none ↦ none | some (before, after) ↦ some (check ∷ before, after) ])
    further none h = tt
    further (some (before, after)) h = ap (check ∷◌) h

-- The checks of the pieces, one after another, are those of the plan.
abbrev pub KeepsChecks : Plan → Plan × Plan → Type 0
KeepsChecks plan (mandatory, auxiliary) = join mandatory ++ join auxiliary ≡ join plan

abbrev KeepsIfFound : Plan → Option (Plan × Plan) → Type 0
KeepsIfFound plan none = Unit
KeepsIfFound plan (some split) = KeepsChecks plan split

join-add_stage :
    (stage : List Check) (plan : Plan) → join (add_stage stage plan) ≡ stage ++ join plan
join-add_stage [] plan = refl
join-add_stage (check ∷ rest) plan = refl

split_plan_after_check-KeepsIfFound :
    (id : String) (plan : Plan) → KeepsIfFound plan (split_plan_after_check id plan)
unfolding split_plan_after_check
split_plan_after_check-KeepsIfFound id [] = tt
split_plan_after_check-KeepsIfFound id (stage ∷ rest) =
    here (split_stage_after id stage) (split_stage_after-OfStage id stage)
      (split_plan_after_check id rest) (split_plan_after_check-KeepsIfFound id rest)
  where
    here :
        (split : Option (List Check × List Check))
        → OfStage stage split
        → (later : Option (Plan × Plan)) → KeepsIfFound rest later
        → KeepsIfFound (stage ∷ rest) (elim split [
          | some (before, after) ↦ some (before ∷ [], add_stage after rest)
          | none ↦ elim later [ none ↦ none | some (before, after) ↦ some (stage ∷ before, after) ]
        ])
    here (some (before, after)) same later h = rw (append-nil before) (
        rw (join-add_stage after rest)
          (sym (append_assoc before after (join rest)) ∙ ap (λ x. x ++ join rest) same))
    here none same none h = tt
    here none same (some (before, after)) h =
        append_assoc stage (join before) (join after) ∙ ap (stage ++◌) h

-- The mandatory checks and the auxiliary ones are together the checks of the preflight, in their
-- order: none is lost, repeated or moved.
pub split_mandatory_preflight-KeepsChecks :
    (plan : Plan) → KeepsChecks plan (split_mandatory_preflight plan)
unfolding split_mandatory_preflight
split_mandatory_preflight-KeepsChecks plan =
    choose (split_plan_after_check "environment" plan)
      (split_plan_after_check-KeepsIfFound "environment" plan) _
      (choose (split_plan_after_check "target" plan)
        (split_plan_after_check-KeepsIfFound "target" plan) ([], plan) refl)
  where
    choose :
        (split : Option (Plan × Plan))
        → KeepsIfFound plan split
        → (other : Plan × Plan) → KeepsChecks plan other
        → KeepsChecks plan (or_split split other)
    choose (some split) h other k = h
    choose none h other k = k
