-- ===== src/Taskrunner/Freshness.antt =====
-- The invariant in every state that a scope can reach, and what follows for contexts and numbers.
use mathlib.Core.Path.{subst}
use orynelo.Prelude.{
  ℕ, ◌+◌, ◌*◌, ◌^◌, ◌<◌, ◌≡◌, refl, ◌⊎◌, List, [], ◌∷◌, ◌++◌, some, Bool, true, false, ◌&&◌, not,
  arith, u64, eqb, contains, number_equality, All, All-middle, if_cases,
}
use orynelo.Taskrunner.Scope.{
  Scope, Answer, fresh_scope, Snapshot, loading, OperationClass, is_loading, is_mutation,
  is_supported, ask_runner, test_scope, call_observer, submit, begin, start_with_policy, started,
  new_scope, cancelled_snapshot, close_runner,
}
use orynelo.Taskrunner.Steps.{
  Step, starts, ends, cancels, invalidates, closes, shuts_down, asks, tests, observes, Reach, fresh,
  later,
}
use orynelo.Taskrunner.Invariant.{
  increment_id-lt, Inv, IsCurrent, All-IsCurrent, weaken, deliver-Inv, begin-Inv, invalidate-Inv,
  cancel_operation-Inv, finish-Inv, close-Inv,
}

accept-Inv :
    {T : Type 0} {r n : ℕ} (s : Scope T)
    → Inv r n s
    → is_loading s.snapshot.state ≡ true
    → Inv r n (record s { accepted = s.next_id ∷ s.accepted })
accept-Inv s v busy = record {
  revisions = v.revisions;
  numbers = v.numbers;
  identity = v.identity;
  cancellable = v.cancellable;
  queued = v.queued;
  known = λ id h. ground (arith, v.known id);
  released = λ id h. ground (arith, v.released id);
}

submit-Inv :
    {T : Type 0} {r n : ℕ} (s : Scope T)
    → Inv r n s
    → r + 1 < 2 ^ 64
    → is_loading s.snapshot.state ≡ true
    → Inv (r + 1) n (submit s).0
unfolding submit
submit-Inv {r} {n} s v room busy =
    if_cases (λ (p : Scope _ × _). Inv (r + 1) n p.0) s.runner_is_closed
      (λ _. record {
        revisions = omega (arith, v.revisions);
        numbers = v.numbers;
        identity = v.identity;
        cancellable = λ h. cc;
        queued =
            All-IsCurrent s.snapshot (cancelled_snapshot s.snapshot) s.revision
              (u64 (s.revision + 1)) s.pending (omega (arith, v.revisions)) v.queued;
        known = v.known;
        released = λ id h. ground (arith, v.released id);
      })
      λ _. deliver-Inv (weaken (omega arith) (omega arith) (accept-Inv s v busy))

start_with_policy-Inv :
    {T : Type 0} {r n : ℕ} (zero_value : T) (has_task : Bool) (class : OperationClass)
    (exclusive : Bool) (s : Scope T)
    → Inv r n s
    → r + 2 < 2 ^ 64
    → n + 1 < 2 ^ 64
    → Inv (r + 2) (n + 1) (start_with_policy zero_value has_task class exclusive s).0
unfolding start_with_policy
start_with_policy-Inv {T} {r} {n} zero_value has_task class exclusive s v room few =
    if_cases Kept (not has_task) (λ _. same)
      λ _.
        if_cases Kept (not (is_supported class)) (λ _. same)
          λ _.
            if_cases Kept s.closed (λ _. same)
              λ _.
                if_cases Kept
                  (exclusive && is_loading s.snapshot.state && is_mutation s.snapshot.class)
                  (λ _. same)
                  λ _. weaken (omega arith) (omega arith) (
                    submit-Inv (begin zero_value class s)
                      (begin-Inv s v (omega arith) zero_value class few) (omega arith) begun)
  where
    Kept : Scope T × Answer → Type 0
    Kept p = Inv (r + 2) (n + 1) p.0

    same : Inv (r + 2) (n + 1) s
    same = weaken (omega arith) (omega arith) v

    begun : is_loading (begin zero_value class s).snapshot.state ≡ true
    begun = unfold begin in refl

-- Other callbacks wait, or others are ready, or the observer was called.
waiting-Inv :
    {T : Type 0} {r n : ℕ} (s : Scope T) (pending : List (Snapshot T × ℕ × Bool))
    (ready observed : List (Snapshot T))
    → Inv r n s
    → All (IsCurrent s.snapshot s.revision) pending
    → Inv r n (record s { pending = pending; ready = ready; observed = observed })
waiting-Inv s pending ready observed v queued = record {
  revisions = v.revisions;
  numbers = v.numbers;
  identity = v.identity;
  cancellable = v.cancellable;
  queued = queued;
  known = v.known;
  released = v.released;
}

-- Of the callbacks before and behind one, and of that one.
pub waiting_parts :
    {T : Type 0} {r n : ℕ} (s : Scope T)
    → Inv r n s
    → (before : List (Snapshot T × ℕ × Bool)) (c : Snapshot T × ℕ × Bool)
      (after : List (Snapshot T × ℕ × Bool))
    → s.pending ≡ before ++ c ∷ after
    → IsCurrent s.snapshot s.revision c × All (IsCurrent s.snapshot s.revision) (before ++ after)
waiting_parts s v before c after e =
    All-middle (IsCurrent s.snapshot s.revision) before c after
      (subst (All (IsCurrent s.snapshot s.revision)) e v.queued)

All-replaced :
    {A : Type 0} (P : A → Type 0) (before : List A) (x : A) (after : List A)
    → P x
    → All P (before ++ after)
    → All P (before ++ x ∷ after)
All-replaced P [] x after p h = (p, h)
All-replaced P (b ∷ before) x after p h = (h.0, All-replaced P before x after p h.1)

ask_runner-Inv :
    {T : Type 0} {r n : ℕ} (s : Scope T)
    → Inv r n s
    → (before : List (Snapshot T × ℕ × Bool)) (snapshot : Snapshot T) (revision : ℕ)
      (after : List (Snapshot T × ℕ × Bool))
    → s.pending ≡ before ++ (snapshot, revision, false) ∷ after
    → Inv r n (ask_runner before snapshot revision after s)
unfolding ask_runner
ask_runner-Inv {T} {r} {n} s v before snapshot revision after e =
    let parts = waiting_parts s v before (snapshot, revision, false) after e in
    if_cases (Inv r n) s.runner_is_closed
      (λ _. waiting-Inv s (before ++ after) s.ready s.observed v parts.1)
      (λ _. waiting-Inv s (before ++ (snapshot, revision, true) ∷ after) s.ready s.observed v (
        All-replaced (IsCurrent s.snapshot s.revision) before (snapshot, revision, true) after
          parts.0 parts.1))

test_scope-Inv :
    {T : Type 0} {r n : ℕ} (s : Scope T)
    → Inv r n s
    → (before : List (Snapshot T × ℕ × Bool)) (snapshot : Snapshot T) (revision : ℕ)
      (after : List (Snapshot T × ℕ × Bool))
    → s.pending ≡ before ++ (snapshot, revision, true) ∷ after
    → Inv r n (test_scope before snapshot revision after s)
unfolding test_scope
test_scope-Inv {T} {r} {n} s v before snapshot revision after e =
    let parts = waiting_parts s v before (snapshot, revision, true) after e in
    if_cases (Inv r n) (not s.closed && eqb s.revision revision)
      (λ _. waiting-Inv s (before ++ after) (s.ready ++ snapshot ∷ []) s.observed v parts.1)
      (λ _. waiting-Inv s (before ++ after) s.ready s.observed v parts.1)

module _ {T : Type 0} (zero_value : T) where
  Step-Inv :
      {r n : ℕ} {s t : Scope T}
      → r + 2 < 2 ^ 64
      → n + 1 < 2 ^ 64
      → Inv r n s
      → Step zero_value s t
      → Inv (r + 2) (n + 1) t
  unfolding close_runner call_observer
  Step-Inv {s} room few v (starts has_task class exclusive) =
      start_with_policy-Inv zero_value has_task class exclusive s v room few
  Step-Inv {s} room few v (ends id ctx_err value err known) =
      weaken (omega arith) (omega arith) (finish-Inv s v (omega arith) id ctx_err value err)
  Step-Inv {s} room few v cancels =
      weaken (omega arith) (omega arith) (cancel_operation-Inv s v (omega arith))
  Step-Inv {s} room few v invalidates =
      weaken (omega arith) (omega arith) (invalidate-Inv s v (omega arith) zero_value few)
  Step-Inv {s} room few v closes = weaken (omega arith) (omega arith) (close-Inv s v (omega arith))
  Step-Inv {s} room few v shuts_down = weaken (omega arith) (omega arith) (record {
    revisions = v.revisions;
    numbers = v.numbers;
    identity = v.identity;
    cancellable = v.cancellable;
    queued = v.queued;
    known = v.known;
    released = v.released;
  })
  Step-Inv {s} room few v (asks before snapshot revision after e) =
      weaken (omega arith) (omega arith) (ask_runner-Inv s v before snapshot revision after e)
  Step-Inv {s} room few v (tests before snapshot revision after e) =
      weaken (omega arith) (omega arith) (test_scope-Inv s v before snapshot revision after e)
  Step-Inv {s} room few v (observes before snapshot after e) =
      weaken (omega arith) (omega arith)
        (waiting-Inv s s.pending (before ++ after) (s.observed ++ snapshot ∷ []) v v.queued)

  new_scope-Inv : (o : Bool) → Inv 1 0 (new_scope zero_value o)
  unfolding new_scope
  new_scope-Inv o = deliver-Inv {s = fresh_scope zero_value o} (record {
    revisions = omega arith;
    numbers = omega arith;
    identity = refl;
    cancellable = λ h. cc;
    queued = tt;
    known = λ id h. cc;
    released = λ id h. cc;
  })

  pub Reach-Inv :
      {o : Bool} {k : ℕ} {s : Scope T}
      → 2 * k + 1 < 2 ^ 64
      → Reach zero_value o k s
      → Inv (1 + 2 * k) k s
  Reach-Inv {o} room fresh = new_scope-Inv o
  Reach-Inv room (later {k} r st) =
      weaken (omega arith) (omega arith)
        (Step-Inv (omega arith) (omega arith) (Reach-Inv (omega arith) r) st)

  -- Every context that the scope handed to an accepted operation has been cancelled, but for that of
  -- the operation that is loading; so at most one is left, and its cancel function is kept.
  pub contexts_released :
      {o : Bool} {k : ℕ} {s : Scope T}
      → 2 * k + 1 < 2 ^ 64
      → Reach zero_value o k s
      → (id : ℕ) → contains s.accepted id ≡ true
      → (contains s.ended id ≡ true)
        ⊎ ((id ≡ s.next_id) × (s.snapshot.state ≡ loading) × (s.cancel ≡ some id))
  contexts_released {s} room r id h =
      ground (arith, (Reach-Inv room r).released id h, (Reach-Inv room r).cancellable)

  -- The number of an operation that is accepted is above that of every operation accepted before, so
  -- that no number is used twice.
  pub start_with_policy-fresh :
      {o : Bool} {k : ℕ} {s : Scope T}
      → 2 * k + 3 < 2 ^ 64
      → Reach zero_value o k s
      → (has_task : Bool) (class : OperationClass) (exclusive : Bool) (id : ℕ)
      → (start_with_policy zero_value has_task class exclusive s).1 ≡ started id
      → (old : ℕ) → contains s.accepted old ≡ true
      → old < id
  unfolding start_with_policy submit begin
  start_with_policy-fresh {s} room r has_task class exclusive id h old seen = ground (
    arith,
    (Reach-Inv (omega arith) r).known old seen,
    (Reach-Inv (omega arith) r).numbers,
    increment_id-lt s.next_id,
  )
