-- ===== src/Taskrunner/Shown.antt =====
-- What an observer is called with: the test of a callback and the call are separate steps, between
-- which the scope may go on.
use orynelo.Prelude.{ℕ, ◌≡◌, ◌⊎◌, Bool, false, All}
use orynelo.Taskrunner.Scope.{Scope, Snapshot, new_scope}
use orynelo.Taskrunner.Steps.{Reach, fresh, later}

module _ {T : Type 0} (zero_value : T) where
  -- Some state of a history, from the first to the last.
  abbrev pub Passed :
      {o : Bool} {k : ℕ} {s : Scope T} → (Scope T → Type 0) → Reach zero_value o k s → Type 0
  Passed {o} P fresh = P (new_scope zero_value o)
  Passed P (later {t} r st) = Passed P r ⊎ P t

  -- The scope was open and showed the snapshot.
  abbrev pub IsShowing : Snapshot T → Scope T → Type 0
  IsShowing snapshot s = (s.snapshot ≡ snapshot) × (s.closed ≡ false)

  abbrev WasShown : {o : Bool} {k : ℕ} {s : Scope T} → Reach zero_value o k s → Snapshot T → Type 0
  WasShown r snapshot = Passed (IsShowing snapshot) r

  abbrev AreShown : {o : Bool} {k : ℕ} {s : Scope T} → Reach zero_value o k s → Scope T → Type 0
  AreShown r t = All (WasShown r) t.ready × All (WasShown r) t.observed

  -- A step of a method neither passes a test nor calls the observer.
  abbrev IsQuiet : Scope T → Scope T → Type 0
  IsQuiet s t = (t.ready ≡ s.ready) × (t.observed ≡ s.observed)
