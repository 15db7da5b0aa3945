-- ===== src/Taskrunner/Invariant.antt =====
-- The invariant of a scope, method by method.
use orynelo.Prelude.{
  ℕ, ◌+◌, ◌^◌, ◌≤◌, ◌<◌, ◌≡◌, refl, ◌⊎◌, List, [], ◌∷◌, Option, none, some, Bool, true, false, not,
  arith, u64, eqb, contains, number_equality, All, All-append, if_cases,
}
use orynelo.Taskrunner.Scope.{
  Scope, Snapshot, OperationClass, TaskError, is_loading, increment_id, deliver, begin, finish,
  final_state, cancel_operation, invalidate, close, end_context, idle_snapshot, cancelled_snapshot,
}

-- A waiting callback is of an earlier revision, or carries the state of the scope.
abbrev pub IsCurrent : {T : Type 0} → Snapshot T → ℕ → Snapshot T × ℕ × Bool → Type 0
IsCurrent now latest (snapshot, revision, admitted) =
    (revision ≤ latest) × (revision ≡ latest → snapshot ≡ now)

-- `r` bounds the revisions and `n` the numbers of the operations so far.
pub record Inv {T : Type 0} (r n : ℕ) (s : Scope T) : Type 0 where
  pub revisions : s.revision ≤ r
  pub numbers : s.next_id ≤ n
  pub identity : s.snapshot.operation_id ≡ s.next_id
  pub cancellable : is_loading s.snapshot.state ≡ true → s.cancel ≡ some s.next_id
  pub queued : All (IsCurrent s.snapshot s.revision) s.pending
  pub known : (id : ℕ) → contains s.accepted id ≡ true → id ≤ s.next_id
  pub released :
      (id : ℕ)
      → contains s.accepted id ≡ true
      → (contains s.ended id ≡ true) ⊎ ((id ≡ s.next_id) × (is_loading s.snapshot.state ≡ true))

-- A scope at a later revision leaves all waiting callbacks behind.
pub All-IsCurrent :
    {T : Type 0} (old now : Snapshot T) (m n : ℕ) (ps : List (Snapshot T × ℕ × Bool))
    → m < n
    → All (IsCurrent old m) ps
    → All (IsCurrent now n) ps
All-IsCurrent old now m n [] g h = tt
All-IsCurrent old now m n ((snapshot, revision, admitted) ∷ ps) g h =
    ((omega arith, λ e. absurd (omega arith)), All-IsCurrent old now m n ps g h.1)

pub increment_id-lt : (n : ℕ) → n + 1 < 2 ^ 64 → increment_id n ≡ n + 1
unfolding increment_id
increment_id-lt n h = ground arith

pub weaken : {T : Type 0} {r n r' n' : ℕ} {s : Scope T} → r ≤ r' → n ≤ n' → Inv r n s → Inv r' n' s
weaken h k v = record {
  revisions = omega arith;
  numbers = omega arith;
  identity = v.identity;
  cancellable = v.cancellable;
  queued = v.queued;
  known = v.known;
  released = v.released;
}

pub deliver-Inv : {T : Type 0} {r n : ℕ} {s : Scope T} → Inv r n s → Inv r n (deliver s)
unfolding deliver
deliver-Inv {r} {n} {s} v =
    if_cases (Inv r n) s.has_observer
      (λ _. record {
        revisions = v.revisions;
        numbers = v.numbers;
        identity = v.identity;
        cancellable = v.cancellable;
        queued =
            All-append (IsCurrent s.snapshot s.revision) s.pending _ v.queued
              ((omega arith, λ _. refl), tt);
        known = v.known;
        released = v.released;
      })
      (λ _. v)

pub final_state-done : (c e : Option TaskError) → is_loading (final_state c e) ≡ false
unfolding final_state
final_state-done c e = ground arith

module _ {T : Type 0} {r n : ℕ} (s : Scope T) (v : Inv r n s) (room : r + 1 < 2 ^ 64) where
  -- The operation in progress gets its last state.
  pub settle-Inv :
      (closed : Bool) (snapshot : Snapshot T)
      → is_loading s.snapshot.state ≡ true
      → snapshot.operation_id ≡ s.next_id
      → is_loading snapshot.state ≡ false
      → Inv (r + 1) n (record s {
        closed = closed;
        cancel = none;
        ended = end_context s.cancel s.ended;
        revision = u64 (s.revision + 1);
        snapshot = snapshot;
      })
  settle-Inv closed snapshot busy same done = record {
    revisions = omega (arith, v.revisions);
    numbers = v.numbers;
    identity = same;
    cancellable = λ h. cc;
    queued =
        All-IsCurrent s.snapshot snapshot s.revision (u64 (s.revision + 1)) s.pending
          (omega (arith, v.revisions)) v.queued;
    known = v.known;
    released = λ id h. ground (arith, v.released id, v.cancellable);
  }

  -- A new number is given out.
  pub renew-Inv :
      (snapshot : Snapshot T) (cancel : Option ℕ)
      → n + 1 < 2 ^ 64
      → snapshot.operation_id ≡ increment_id s.next_id
      → (is_loading snapshot.state ≡ true → cancel ≡ some (increment_id s.next_id))
      → Inv (r + 1) (n + 1) (record s {
        cancel = cancel;
        ended = end_context s.cancel s.ended;
        next_id = increment_id s.next_id;
        revision = u64 (s.revision + 1);
        snapshot = snapshot;
      })
  renew-Inv snapshot cancel few same held = record {
    revisions = omega (arith, v.revisions);
    numbers = omega (arith, v.numbers, increment_id-lt s.next_id);
    identity = same;
    cancellable = held;
    queued =
        All-IsCurrent s.snapshot snapshot s.revision (u64 (s.revision + 1)) s.pending
          (omega (arith, v.revisions)) v.queued;
    known = λ id h. omega (arith, v.known id h, v.numbers, increment_id-lt s.next_id);
    released = λ id h. ground (arith, v.released id, v.cancellable);
  }

  pub begin-Inv :
      (zero_value : T) (class : OperationClass)
      → n + 1 < 2 ^ 64
      → Inv (r + 1) (n + 1) (begin zero_value class s)
  unfolding begin
  begin-Inv zero_value class few = renew-Inv _ _ few refl (λ _. refl)

  pub invalidate-Inv :
      (zero_value : T) → n + 1 < 2 ^ 64 → Inv (r + 1) (n + 1) (invalidate zero_value s)
  unfolding invalidate
  invalidate-Inv zero_value few =
      if_cases (Inv (r + 1) (n + 1)) s.closed (λ _. weaken (omega arith) (omega arith) v)
        (λ _. renew-Inv (idle_snapshot zero_value (increment_id s.next_id)) none few refl (λ h. cc))

  pub cancel_operation-Inv : Inv (r + 1) n (cancel_operation s)
  unfolding cancel_operation
  cancel_operation-Inv =
      if_cases (Inv (r + 1) n) s.closed (λ _. weaken (omega arith) (omega arith) v)
        λ _.
          if_cases (Inv (r + 1) n) (not (is_loading s.snapshot.state))
            (λ _. weaken (omega arith) (omega arith) v)
            λ busy.
              deliver-Inv
                (settle-Inv s.closed (cancelled_snapshot s.snapshot) (ground arith) v.identity refl)

  pub finish-Inv :
      (id : ℕ) (ctx_err : Option TaskError) (value : T) (err : Option TaskError)
      → Inv (r + 1) n (finish id ctx_err value err s)
  unfolding finish final_state
  finish-Inv id ctx_err value err =
      if_cases (Inv (r + 1) n) s.closed (λ _. weaken (omega arith) (omega arith) v)
        λ _.
          if_cases (Inv (r + 1) n) (not (eqb s.snapshot.operation_id id))
            (λ _. weaken (omega arith) (omega arith) v)
            λ _.
              if_cases (Inv (r + 1) n) (not (is_loading s.snapshot.state))
                (λ _. weaken (omega arith) (omega arith) v)
                λ busy.
                  deliver-Inv
                    (settle-Inv s.closed _ (ground arith) v.identity (final_state-done ctx_err err))

  pub close-Inv : Inv (r + 1) n (close s)
  unfolding close
  close-Inv =
      if_cases (Inv (r + 1) n) s.closed (λ _. weaken (omega arith) (omega arith) v)
        λ _.
          if_cases (Inv (r + 1) n) (is_loading s.snapshot.state)
            (λ busy. settle-Inv true (cancelled_snapshot s.snapshot) busy v.identity refl)
            λ quiet. record {
              revisions = omega (arith, v.revisions);
              numbers = v.numbers;
              identity = v.identity;
              cancellable = λ h. cc;
              queued = v.queued;
              known = v.known;
              released = λ id h. ground (arith, v.released id);
            }
