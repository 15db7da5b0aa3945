-- ===== src/Taskrunner/Steps.antt =====
-- The steps that change a scope, in any order: calls of its methods, tasks that end, the three steps
-- of each callback that the dispatcher executes, and the shutdown of its runner.
use orynelo.Prelude.{
  ℕ, suc, ◌≡◌, List, ◌∷◌, ◌++◌, Option, Bool, true, false, contains, number_equality,
}
use orynelo.Taskrunner.Scope.{
  Scope, Snapshot, OperationClass, TaskError, new_scope, start_with_policy, finish,
  cancel_operation, invalidate, close, close_runner, ask_runner, test_scope, call_observer,
}

module _ {T : Type 0} (zero_value : T) where
  pub data Step (s : Scope T) : Scope T → Type 0 where
    starts :
        (has_task : Bool) (class : OperationClass) (exclusive : Bool)
        → Step s (start_with_policy zero_value has_task class exclusive s).0
    ends :
        (id : ℕ) (ctx_err : Option TaskError) (value : T) (err : Option TaskError)
        → contains s.accepted id ≡ true
        → Step s (finish id ctx_err value err s)
    cancels : Step s (cancel_operation s)
    invalidates : Step s (invalidate zero_value s)
    closes : Step s (close s)
    shuts_down : Step s (close_runner s)
    asks :
        (before : List (Snapshot T × ℕ × Bool)) (snapshot : Snapshot T) (revision : ℕ)
        (after : List (Snapshot T × ℕ × Bool))
        → s.pending ≡ before ++ (snapshot, revision, false) ∷ after
        → Step s (ask_runner before snapshot revision after s)
    tests :
        (before : List (Snapshot T × ℕ × Bool)) (snapshot : Snapshot T) (revision : ℕ)
        (after : List (Snapshot T × ℕ × Bool))
        → s.pending ≡ before ++ (snapshot, revision, true) ∷ after
        → Step s (test_scope before snapshot revision after s)
    observes :
        (before : List (Snapshot T)) (snapshot : Snapshot T) (after : List (Snapshot T))
        → s.ready ≡ before ++ snapshot ∷ after
        → Step s (call_observer before snapshot after s)

  -- The states after a number of steps.
  pub data Reach (has_observer : Bool) : ℕ → Scope T → Type 0 where
    fresh : Reach has_observer 0 (new_scope zero_value has_observer)
    later :
        {k : ℕ} {s t : Scope T} → Reach has_observer k s → Step s t → Reach has_observer (suc k) t
