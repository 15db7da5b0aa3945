-- ===== src/Runner/Plans.antt =====
-- The splits of a plan.
use orynelo.Prelude.{
  String, List, [], ◌∷◌, Bool, false, ◌||◌, ◌==◌, name_equality, Option, none, some, if◌then◌else◌,
}
use orynelo.Engine.{Check, Plan}

abbrev pub has_check : String → List Check → Bool
has_check id [] = false
has_check id (check ∷ rest) = check.id == id || has_check id rest

-- `splitPlanAtCheck`
unfoldable pub split_plan_at_check : String → Plan → Plan × Plan
split_plan_at_check id [] = ([], [])
split_plan_at_check id (stage ∷ rest) =
    let (before, after) = split_plan_at_check id rest in
    if has_check id stage then ([], stage ∷ rest) else (stage ∷ before, after)

-- A stage split after its first check of a name.
unfoldable pub split_stage_after : String → List Check → Option (List Check × List Check)
split_stage_after id [] = none
split_stage_after id (check ∷ rest) =
    let later = split_stage_after id rest in
    if check.id == id
    then some (check ∷ [], rest)
    else elim later [ none ↦ none | some (before, after) ↦ some (check ∷ before, after) ]

-- An empty rest of a stage is no stage.
abbrev pub add_stage : List Check → Plan → Plan
add_stage [] plan = plan
add_stage (check ∷ rest) plan = (check ∷ rest) ∷ plan

-- `splitPlanAfterCheck`; `none` where no check has the name.
unfoldable pub split_plan_after_check : String → Plan → Option (Plan × Plan)
unfolding split_stage_after
split_plan_after_check id [] = none
split_plan_after_check id (stage ∷ rest) =
    let later = split_plan_after_check id rest in
    elim (split_stage_after id stage) [
      | some (before, after) ↦ some (before ∷ [], add_stage after rest)
      | none ↦ elim later [ none ↦ none | some (before, after) ↦ some (stage ∷ before, after) ]
    ]

abbrev pub or_split : Option (Plan × Plan) → Plan × Plan → Plan × Plan
or_split (some split) other = split
or_split none other = other

-- `splitMandatoryPreflight`
unfoldable pub split_mandatory_preflight : Plan → Plan × Plan
unfolding split_plan_after_check
split_mandatory_preflight plan =
    or_split (split_plan_after_check "environment" plan)
      (or_split (split_plan_after_check "target" plan) ([], plan))
