-- ===== src/Taskrunner/Scope.antt =====
-- One scope of the runner: its state and its methods, each with all that it changes.
use orynelo.Prelude.{
  ℕ, ◌+◌, String, List, [], ◌∷◌, ◌++◌, Option, none, some, Bool, true, false, ◌&&◌, not, eqb, u64,
  if◌then◌else◌,
}

-- `State`
pub data State : Type 0 where
  idle loading success error cancelled : State

-- `OperationClass`, an 8-bit number of which 1 and 2 are supported.
pub data OperationClass : Type 0 where
  read_operation mutation_operation : OperationClass
  unsupported : ℕ → OperationClass

unfoldable pub is_supported : OperationClass → Bool
is_supported (unsupported _) = false
is_supported _ = true

abbrev pub is_loading : State → Bool
is_loading loading = true
is_loading _ = false

abbrev pub is_mutation : OperationClass → Bool
is_mutation mutation_operation = true
is_mutation _ = false

-- The errors of the package, and those of tasks and contexts.
pub data Refusal : Type 0 where
  nil_task invalid_operation_class scope_closed operation_in_progress runner_closed : Refusal

pub data TaskError : Type 0 where
  canceled deadline_exceeded : TaskError
  failure : String → TaskError

pub record Snapshot (T : Type 0) : Type 0 where
  pub operation_id : ℕ
  pub class : OperationClass
  pub state : State
  pub value : T
  pub err : Option TaskError

-- A scope with its name and observer fixed, the flag of its runner, the operations that the runner
-- accepted, the contexts that were cancelled, the callbacks that have not tested the scope, each with
-- whether it has found the runner open, the snapshots whose test has passed and that the observer is
-- yet to be called with, and those that it was called with.
pub record Scope (T : Type 0) : Type 0 where
  pub has_observer : Bool
  pub closed : Bool
  pub next_id : ℕ
  pub revision : ℕ
  pub snapshot : Snapshot T
  pub cancel : Option ℕ
  pub runner_is_closed : Bool
  pub accepted : List ℕ
  pub ended : List ℕ
  pub pending : List (Snapshot T × ℕ × Bool)
  pub ready : List (Snapshot T)
  pub observed : List (Snapshot T)

-- An answer of a method that starts an operation.
pub data Answer : Type 0 where
  started : ℕ → Answer
  refused : Refusal → Answer

-- `scope.nextID++; if scope.nextID == 0 { scope.nextID++ }` on a uint64.
unfoldable pub increment_id : ℕ → ℕ
increment_id n = let m = u64 (n + 1) in if eqb m 0 then u64 (m + 1) else m

-- `if scope.cancel != nil { scope.cancel() }`
abbrev pub end_context : Option ℕ → List ℕ → List ℕ
end_context none ended = ended
end_context (some id) ended = id ∷ ended

-- The state of a finished operation, from the error of its context and its own.
unfoldable pub final_state : Option TaskError → Option TaskError → State
final_state (some _) err = cancelled
final_state none (some canceled) = cancelled
final_state none (some deadline_exceeded) = cancelled
final_state none (some (failure _)) = error
final_state none none = success

abbrev pub or_else : Option TaskError → Option TaskError → Option TaskError
or_else (some e) f = some e
or_else none f = f

module _ {T : Type 0} where
  -- `deliver`, up to the call of the dispatcher.
  unfoldable pub deliver : Scope T → Scope T
  deliver s =
      if s.has_observer
      then record s { pending = s.pending ++ (s.snapshot, s.revision, false) ∷ [] }
      else s

  -- The callback that `deliver` hands to the dispatcher takes three steps, since it holds no lock
  -- between them: it asks whether the runner is closed, tests the scope, and calls the observer.
  unfoldable pub ask_runner :
      List (Snapshot T × ℕ × Bool)
      → Snapshot T
      → ℕ
      → List (Snapshot T × ℕ × Bool)
      → Scope T
      → Scope T
  ask_runner before snapshot revision after s =
      if s.runner_is_closed
      then record s { pending = before ++ after }
      else record s { pending = before ++ (snapshot, revision, true) ∷ after }

  unfoldable pub test_scope :
      List (Snapshot T × ℕ × Bool)
      → Snapshot T
      → ℕ
      → List (Snapshot T × ℕ × Bool)
      → Scope T
      → Scope T
  test_scope before snapshot revision after s =
      if not s.closed && eqb s.revision revision
      then record s { pending = before ++ after; ready = s.ready ++ snapshot ∷ [] }
      else record s { pending = before ++ after }

  unfoldable pub call_observer :
      List (Snapshot T) → Snapshot T → List (Snapshot T) → Scope T → Scope T
  call_observer before snapshot after s = record s {
    ready = before ++ after;
    observed = s.observed ++ snapshot ∷ [];
  }

  abbrev pub cancelled_snapshot : Snapshot T → Snapshot T
  cancelled_snapshot snapshot = record snapshot { state = cancelled; err = some canceled }

  -- What the runner's `schedule` answers decides: it refuses only when it is closed.
  unfoldable pub submit : Scope T → Scope T × Answer
  unfolding deliver
  submit s =
      if s.runner_is_closed
      then (
        record s {
          ended = s.next_id ∷ s.ended;
          cancel = none;
          closed = true;
          revision = u64 (s.revision + 1);
          snapshot = cancelled_snapshot s.snapshot;
        },
        refused runner_closed,
      )
      else (deliver (record s { accepted = s.next_id ∷ s.accepted }), started s.next_id)

  -- `finish`
  unfoldable pub finish : ℕ → Option TaskError → T → Option TaskError → Scope T → Scope T
  unfolding final_state deliver
  finish id ctx_err value err s =
      if s.closed
      then s
      else if not (eqb s.snapshot.operation_id id)
      then s
      else if not (is_loading s.snapshot.state)
      then s
      else deliver (record s {
        cancel = none;
        ended = end_context s.cancel s.ended;
        revision = u64 (s.revision + 1);
        snapshot = record s.snapshot {
          state = final_state ctx_err err;
          value = value;
          err = or_else err ctx_err;
        };
      })

  -- `Cancel`
  unfoldable pub cancel_operation : Scope T → Scope T
  unfolding deliver
  cancel_operation s =
      if s.closed
      then s
      else if not (is_loading s.snapshot.state)
      then s
      else deliver (record s {
        cancel = none;
        ended = end_context s.cancel s.ended;
        revision = u64 (s.revision + 1);
        snapshot = cancelled_snapshot s.snapshot;
      })

  -- `close`, which `Close` and `runnerClosed` call.
  unfoldable pub close : Scope T → Scope T
  close s =
      if s.closed
      then s
      else if is_loading s.snapshot.state
      then record s {
        closed = true;
        cancel = none;
        ended = end_context s.cancel s.ended;
        revision = u64 (s.revision + 1);
        snapshot = cancelled_snapshot s.snapshot;
      }
      else record s { closed = true; cancel = none; ended = end_context s.cancel s.ended }

  -- The flag that `Runner.Close` sets before it closes the scopes.
  unfoldable pub close_runner : Scope T → Scope T
  close_runner s = record s { runner_is_closed = true }

module _ {T : Type 0} (zero_value : T) where
  abbrev pub idle_snapshot : ℕ → Snapshot T
  idle_snapshot id = record {
    operation_id = id;
    class = unsupported 0;
    state = idle;
    value = zero_value;
    err = none;
  }

  abbrev pub fresh_scope : Bool → Scope T
  fresh_scope has_observer = record {
    has_observer = has_observer;
    closed = false;
    next_id = 0;
    revision = 1;
    snapshot = idle_snapshot 0;
    cancel = none;
    runner_is_closed = false;
    accepted = [];
    ended = [];
    pending = [];
    ready = [];
    observed = [];
  }

  -- `NewScope`, for a runner that is open.
  unfoldable pub new_scope : Bool → Scope T
  unfolding deliver
  new_scope has_observer = deliver (fresh_scope has_observer)

  -- The state once the new operation is loading, before the runner is asked.
  unfoldable pub begin : OperationClass → Scope T → Scope T
  unfolding increment_id
  begin class s =
      let id = increment_id s.next_id in
      record s {
        ended = end_context s.cancel s.ended;
        next_id = id;
        cancel = some id;
        revision = u64 (s.revision + 1);
        snapshot = record {
          operation_id = id;
          class = class;
          state = loading;
          value = zero_value;
          err = none;
        };
      }

  -- `startWithPolicy`
  unfoldable pub start_with_policy : Bool → OperationClass → Bool → Scope T → Scope T × Answer
  unfolding is_supported begin submit
  start_with_policy has_task class exclusive s =
      if not has_task
      then (s, refused nil_task)
      else if not (is_supported class)
      then (s, refused invalid_operation_class)
      else if s.closed
      then (s, refused scope_closed)
      else if exclusive && is_loading s.snapshot.state && is_mutation s.snapshot.class
      then (s, refused operation_in_progress)
      else submit (begin class s)

  -- `Invalidate`
  unfoldable pub invalidate : Scope T → Scope T
  unfolding increment_id
  invalidate s =
      if s.closed
      then s
      else let id = increment_id s.next_id in
        record s {
          cancel = none;
          ended = end_context s.cancel s.ended;
          next_id = id;
          revision = u64 (s.revision + 1);
          snapshot = idle_snapshot id;
        }
