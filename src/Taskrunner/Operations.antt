-- ===== src/Taskrunner/Operations.antt =====
-- The life of one operation: its end, and how a step changes its state.
use orynelo.Prelude.{
  ℕ, ◌+◌, ◌*◌, ◌^◌, ◌<◌, ◌≡◌, refl, ◌↔◌, ◌⊎◌, inl, inr, ◌≢◌, ◌∙◌, String, Option, none, some, Bool,
  true, false, arith, eqb, if_cases, not,
}
use orynelo.Taskrunner.Scope.{
  Scope, Snapshot, idle, loading, success, error, cancelled, TaskError, canceled, deadline_exceeded,
  failure, end_context, is_loading, ask_runner, test_scope, call_observer, submit, begin,
  start_with_policy, finish, final_state, cancel_operation, invalidate, close, close_runner,
  deliver, or_else,
}
use orynelo.Taskrunner.Steps.{
  Step, starts, ends, cancels, invalidates, closes, shuts_down, asks, tests, observes, Reach,
}
use orynelo.Taskrunner.Invariant.{increment_id-lt}
use orynelo.Taskrunner.Freshness.{Reach-Inv}

-- The context's error, or an error of the task that says that a context ended.
abbrev pub IsContextError : Option TaskError → Type 0
IsContextError e = (e ≡ some canceled) ⊎ (e ≡ some deadline_exceeded)

final_state-cancelled :
    (c e : Option TaskError) → (final_state c e ≡ cancelled) ↔ ((c ≢ none) ⊎ IsContextError e)
unfolding final_state
final_state-cancelled none none = ground arith
final_state-cancelled none (some e) = ground arith
final_state-cancelled (some c) e = ((λ _. inl (λ h. cc)), (λ _. refl))

final_state-success :
    (c e : Option TaskError) → (final_state c e ≡ success) ↔ ((c ≡ none) × (e ≡ none))
unfolding final_state
final_state-success none none = ground arith
final_state-success none (some e) = ground arith
final_state-success (some c) e = ground arith

final_state-error :
    (c e : Option TaskError)
    → (final_state c e ≡ error) ↔ ((c ≡ none) × ((text : String) × (e ≡ some (failure text))))
unfolding final_state
final_state-error none none = ((λ h. cc), (λ h. cc (h.1.1)))
final_state-error none (some canceled) = ((λ h. cc), (λ h. cc (h.1.1)))
final_state-error none (some deadline_exceeded) = ((λ h. cc), (λ h. cc (h.1.1)))
final_state-error none (some (failure text)) = ((λ h. (refl, (text, refl))), (λ h. refl))
final_state-error (some c) e = ((λ h. cc), (λ h. cc (h.0)))

-- What the end of an operation may do to its scope.
abbrev pub Commits :
    {T : Type 0} → ℕ → Option TaskError → T → Option TaskError → Scope T → Scope T → Type 0
Commits id ctx_err value err s t =
    ((t ≡ s) × ((s.closed ≡ true) ⊎ (s.snapshot.operation_id ≢ id) ⊎ (s.snapshot.state ≢ loading)))
    ⊎ ((s.closed ≡ false)
        × (s.snapshot.operation_id ≡ id)
        × (s.snapshot.state ≡ loading)
        × (t.snapshot.operation_id ≡ id)
        × (t.snapshot.value ≡ value)
        × (t.snapshot.err ≡ or_else err ctx_err)
        × ((t.snapshot.state ≡ cancelled) ↔ ((ctx_err ≢ none) ⊎ IsContextError err))
        × ((t.snapshot.state ≡ success) ↔ ((ctx_err ≡ none) × (err ≡ none)))
        × ((t.snapshot.state ≡ error)
            ↔ ((ctx_err ≡ none) × ((text : String) × (err ≡ some (failure text)))))
        × (t.closed ≡ false)
        × (t.cancel ≡ none)
        × (t.ended ≡ end_context s.cancel s.ended))

deliver-snapshot : {T : Type 0} (s : Scope T) → (deliver s).snapshot ≡ s.snapshot
unfolding deliver
deliver-snapshot s = ground arith

deliver-rest :
    {T : Type 0} (s : Scope T)
    → ((deliver s).closed ≡ s.closed)
      × ((deliver s).cancel ≡ s.cancel)
      × ((deliver s).ended ≡ s.ended)
unfolding deliver
deliver-rest s = (ground arith, ground arith, ground arith)

-- The end of an operation changes a scope exactly when the scope is open, the operation is its
-- current one and is still loading. Then the value is kept with the task's error, or the context's
-- where the task has none; the state is cancelled exactly if the context ended or the task's error
-- says that one did, success exactly if there is no error at all, and error exactly if the task failed
-- otherwise; the scope stays open, and its context is cancelled and forgotten.
pub finish-Commits :
    {T : Type 0} (id : ℕ) (ctx_err : Option TaskError) (value : T) (err : Option TaskError)
    (s : Scope T)
    → Commits id ctx_err value err s (finish id ctx_err value err s)
unfolding finish
finish-Commits id ctx_err value err s =
    if_cases (Commits id ctx_err value err s) s.closed (λ c. inl (refl, inl c))
      λ open_.
        if_cases (Commits id ctx_err value err s) (not (eqb s.snapshot.operation_id id))
          (λ other. inl (refl, inr (inl (ground arith))))
          λ same.
            if_cases (Commits id ctx_err value err s) (not (is_loading s.snapshot.state))
              (λ quiet. inl (refl, inr (inr (ground arith))))
              λ busy. inr (
                open_,
                ground arith,
                ground arith,
                rw deliver-snapshot (ground arith),
                rw deliver-snapshot refl,
                rw deliver-snapshot refl,
                rw deliver-snapshot (final_state-cancelled ctx_err err),
                rw deliver-snapshot (final_state-success ctx_err err),
                rw deliver-snapshot (final_state-error ctx_err err),
                (deliver-rest _).0 ∙ open_,
                (deliver-rest _).1,
                (deliver-rest _).2,
              )

-- How a snapshot may change.
abbrev pub Advances : {T : Type 0} → Snapshot T → Snapshot T → Type 0
Advances old now =
    (now ≡ old)
    ⊎ (old.operation_id < now.operation_id)
    ⊎ ((old.operation_id ≡ now.operation_id)
        × (old.state ≡ loading)
        × (now.state ≢ loading)
        × (now.state ≢ idle))

module _ {T : Type 0} (zero_value : T) where
  -- A step leaves the snapshot as it is, gives out a later number, or ends the loading operation; so
  -- once an operation has ended, its state never changes again.
  pub Step-Advances :
      {o : Bool} {k : ℕ} {s t : Scope T}
      → 2 * k + 3 < 2 ^ 64
      → Reach zero_value o k s
      → Step zero_value s t
      → Advances s.snapshot t.snapshot
  unfolding start_with_policy submit begin deliver finish final_state cancel_operation invalidate
      close close_runner ask_runner test_scope call_observer
  Step-Advances {s} room r (starts has_task class exclusive) =
      ground (arith, Reach-Inv zero_value (omega arith) r, increment_id-lt s.next_id)
  Step-Advances room r (ends id ctx_err value err known) = ground arith
  Step-Advances room r cancels = ground arith
  Step-Advances {s} room r invalidates =
      ground (arith, Reach-Inv zero_value (omega arith) r, increment_id-lt s.next_id)
  Step-Advances room r closes = ground arith
  Step-Advances room r shuts_down = ground arith
  Step-Advances room r (asks before snapshot revision after e) = ground arith
  Step-Advances room r (tests before snapshot revision after e) = ground arith
  Step-Advances room r (observes before snapshot after e) = ground arith
