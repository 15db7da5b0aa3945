-- ===== src/Engine/Stage.antt =====
-- `runStage` as the interleavings of its workers: the main goroutine hands out the indices of the
-- stage in order over a channel with no buffer, and each worker writes the result of the index that
-- it holds.
use native.Mathlib.Decide.{dec_lt}
use mathlib.Core.Path.{subst}
use orynelo.Prelude.{
  ℕ, suc, ◌+◌, ◌-◌, ◌*◌, ◌≤◌, ◌<◌, ◌≡◌, refl, ◌⊎◌, inl, inr, ap, List, [], ◌∷◌, ◌++◌, Option, none,
  true, false, ◌||◌, arith, length, length-append, get_elem?, eqb, eqb_iff, if◌then◌else◌, contains,
  IsDistinct, number_equality, ltb,
}
use orynelo.Model.{CheckResult}
use orynelo.Engine.Defs.{Check, Config, new, clamp_concurrency}
use orynelo.Engine.Run.{World, run_stage}
use orynelo.Engine.Events.{run_stage-length}

-- The next index to hand out, the indices that workers hold, and the slots of the results.
pub record Workers : Type 0 where
  pub next : ℕ
  pub busy : List ℕ
  pub results : ℕ → Option CheckResult

abbrev pub write : (ℕ → Option CheckResult) → ℕ → Option CheckResult → ℕ → Option CheckResult
write f i r j = if eqb i j then r else f j

unfoldable pub start : Workers
start = record { next = 0; busy = []; results = λ _. none }

-- `workers := e.config.MaxConcurrency; if workers > len(checks) { workers = len(checks) }`
unfoldable pub worker_count : ℕ → ℕ → ℕ
worker_count max n = if ltb n max then n else max

no_entry : (xs : List ℕ) (i : ℕ) → xs ≡ [] → contains xs i ≡ true → ⊥
no_entry [] i e h = cc
no_entry (x ∷ xs) i e h = cc

module _ (outcomes : List CheckResult) (workers : ℕ) where
  pub data Step (s : Workers) : Workers → Type 0 where
    hand_out :
        s.next < length outcomes
        → length s.busy < workers
        → Step s (record s { next = suc s.next; busy = s.next ∷ s.busy })
    finish :
        (before : List ℕ) (i : ℕ) (after : List ℕ)
        → s.busy ≡ before ++ i ∷ after
        → Step s (record s {
          busy = before ++ after;
          results = write s.results i (get_elem? outcomes i);
        })

  pub data Reach : Workers → Type 0 where
    here : Reach start
    later : {s t : Workers} → Reach s → Step s t → Reach t

  pub record Inv (s : Workers) : Type 0 where
    pub in_range : s.next ≤ length outcomes
    pub bounded : length s.busy ≤ workers
    pub handed : (i : ℕ) → contains s.busy i ≡ true → i < s.next
    pub distinct : IsDistinct s.busy
    pub unwritten : (i : ℕ) → contains s.busy i ≡ true → s.results i ≡ none
    pub untouched : (i : ℕ) → s.next ≤ i → s.results i ≡ none
    pub written :
        (i : ℕ) → i < s.next → (contains s.busy i ≡ true) ⊎ (s.results i ≡ get_elem? outcomes i)

  start-Inv : Inv start
  unfolding start
  start-Inv = record {
    in_range = omega arith;
    bounded = omega arith;
    handed = λ i h. cc;
    distinct = tt;
    unwritten = λ i h. refl;
    untouched = λ i h. refl;
    written = λ i h. absurd (omega arith);
  }

  contains-remove :
      (before : List ℕ) (i : ℕ) (after : List ℕ) (j : ℕ)
      → contains (before ++ i ∷ after) j ≡ (eqb i j || contains (before ++ after) j)
  contains-remove [] i after j = refl
  contains-remove (x ∷ before) i after j = ground (arith, contains-remove before i after j)

  IsDistinct-remove :
      (before : List ℕ) (i : ℕ) (after : List ℕ)
      → IsDistinct (before ++ i ∷ after)
      → IsDistinct (before ++ after) × (contains (before ++ after) i ≡ false)
  IsDistinct-remove [] i after h = (h.1, h.0)
  IsDistinct-remove (x ∷ before) i after h =
      let rest = IsDistinct-remove before i after h.1 in
      ground (arith, h.0, rest.0, rest.1, contains-remove before i after x, eqb_iff x i)

  Step-Inv : {s t : Workers} → Step s t → Inv s → Inv t
  Step-Inv {s} (hand_out room free) v = record {
    in_range = omega arith;
    bounded = omega arith;
    handed = λ i h. ground (arith, v.handed i);
    distinct = (ground (arith, v.handed s.next), v.distinct);
    unwritten = λ i h. ground (arith, v.unwritten i, v.untouched i);
    untouched = λ i h. v.untouched i (omega arith);
    written = λ i h. ground (arith, v.written i);
  }
  Step-Inv {s} (finish before i after e) v = record {
    in_range = v.in_range;
    bounded =
        omega (arith, ap length e, length-append before (i ∷ after), length-append before after);
    handed = λ j h. ground (arith, held j, v.handed j);
    distinct = (IsDistinct-remove before i after distinct').0;
    unwritten = λ j h.
        ground (arith, held j, v.unwritten j, (IsDistinct-remove before i after distinct').1);
    untouched = λ j h. ground (arith, held j, v.handed j, v.untouched j);
    written = λ j h. ground (arith, held j, v.written j);
  }
    where
      held : (j : ℕ) → contains s.busy j ≡ (eqb i j || contains (before ++ after) j)
      held j = rw e (contains-remove before i after j)

      distinct' : IsDistinct (before ++ i ∷ after)
      distinct' = subst IsDistinct e v.distinct

  pub Reach-Inv : {s : Workers} → Reach s → Inv s
  Reach-Inv here = start-Inv
  Reach-Inv (later r st) = Step-Inv st (Reach-Inv r)

  abbrev pub IsDone : Workers → Type 0
  IsDone s = (s.next ≡ length outcomes) × (s.busy ≡ [])

  -- At most `workers` checks run at once, no index is held twice, and a worker never holds an index
  -- whose result is already there, in every state that a schedule can reach.
  pub Reach-bounded :
      {s : Workers}
      → Reach s
      → (length s.busy ≤ workers)
        × IsDistinct s.busy
        × ((i : ℕ) → contains s.busy i ≡ true → s.results i ≡ none)
  Reach-bounded r = let v = Reach-Inv r in (v.bounded, v.distinct, v.unwritten)

  -- When all indices are handed out and all workers are done, every slot of the stage holds the
  -- result of its own check, in whatever order the workers finished.
  pub done-results :
      {s : Workers}
      → Reach s
      → IsDone s
      → (i : ℕ) → i < length outcomes
      → s.results i ≡ get_elem? outcomes i
  done-results {s} r d i h = elim ((Reach-Inv r).written i (omega arith)) [
    | inl held ↦ absurd (no_entry s.busy i d.1 held)
    | inr e ↦ e
  ]

  -- Each step makes the work left smaller, so every schedule ends; and while a worker exists, a
  -- schedule that is not done can take a step.
  abbrev pub work : Workers → ℕ
  work s = 2 * (length outcomes - s.next) + length s.busy

  Step-work : {s t : Workers} → Step s t → work t < work s
  Step-work {s} (hand_out room free) = omega arith
  Step-work {s} (finish before i after e) =
      omega (arith, ap length e, length-append before (i ∷ after), length-append before after)

  some_move :
      (s : Workers) (busy : List ℕ)
      → s.busy ≡ busy
      → 0 < workers
      → s.next ≤ length outcomes
      → IsDone s ⊎ ((t : Workers) × Step s t)
  some_move s [] e w h = elim (dec_lt s.next (length outcomes)) [
    | yes room ↦ inr (_, hand_out room (omega (arith, ap length e)))
    | no full ↦ inl (omega arith, e)
  ]
  some_move s (i ∷ busy) e w h = inr (_, finish [] i busy e)

  pub Reach-progress :
      {s : Workers}
      → 0 < workers
      → Reach s
      → (IsDone s ⊎ ((t : Workers) × Step s t)) × ((t : Workers) → Step s t → work t < work s)
  Reach-progress {s} w r = (some_move s s.busy refl w (Reach-Inv r).in_range, λ t st. Step-work st)

module _ {S : Type 0} (config : Config S) (world : World S) (offset : ℕ) (stage : List Check) where
  -- The schedules of one stage of the engine.
  abbrev pub StageReach : Workers → Type 0
  StageReach =
      Reach (run_stage config world offset stage)
        (worker_count (new config).max_concurrency (length stage))

  -- In every schedule of a stage at most 32 checks run at once; and when the schedule is done, each
  -- slot holds the result that `run_stage` gives it, in the order of the stage.
  pub stage_schedules :
      {s : Workers}
      → StageReach s
      → (length s.busy ≤ 32)
        × (IsDone
              (run_stage config world offset stage)
              (worker_count (new config).max_concurrency (length stage))
              s
            → (i : ℕ) → i < length stage
            → s.results i ≡ get_elem? (run_stage config world offset stage) i)
  unfolding new clamp_concurrency worker_count
  stage_schedules {s} r = (
    ground (arith, (Reach-bounded _ _ r).0),
    λ d i h. done-results _ _ r d i (omega (arith, run_stage-length config world offset stage)),
  )

  -- A stage with a check never gets stuck: a schedule that is not done has a next step, and each
  -- step makes the work left smaller, so that every schedule ends.
  pub stage_progress :
      {s : Workers}
      → 0 < length stage
      → StageReach s
      → let workers = worker_count (new config).max_concurrency (length stage) in
        let outcomes = run_stage config world offset stage in
        (IsDone outcomes workers s ⊎ ((t : Workers) × Step outcomes workers s t))
        × ((t : Workers)
            → Step outcomes workers s t
            → work outcomes workers t < work outcomes workers s)
  unfolding new clamp_concurrency worker_count
  stage_progress {s} h r = Reach-progress _ _ (ground arith) r
