-- ===== src/Taskrunner/Queue.antt =====
-- The runner: the queue of mutations with its one worker and its wake-up signal, and the slots of
-- the reads. A step is what one goroutine does under the runner's lock, or one channel operation.
pub mod Invariant
use orynelo.Prelude.{
  ℕ, suc, ◌+◌, ◌≤◌, ◌<◌, ◌≡◌, refl, ◌∙◌, sym, ap, ◌⊎◌, inl, inr, List, [], ◌∷◌, ◌++◌, Bool, true,
  false, arith, length, length-append, ltb, if◌then◌else◌,
}

-- Where `runMutations` stands: at the receive from `mutationReady`, at the head of the inner loop,
-- in a task, or returned.
pub data Worker : Type 0 where
  waiting draining : Worker
  executing : ℕ → Worker
  exited : Worker

-- The runner, with the signals that calls still have to send (after they gave up the lock), and two
-- records of its history: the mutations accepted, and those finished, oldest first.
pub record Runner : Type 0 where
  pub closed : Bool
  pub mutation_queue : List ℕ
  pub mutation_ready : Bool
  pub owed : ℕ
  pub worker : Worker
  pub waiting_reads : List ℕ
  pub slot_reads : List ℕ
  pub done_reads : List ℕ
  pub tasks : ℕ
  pub accepted : List ℕ
  pub finished : List ℕ

-- `New`: no limit given selects 4 reads at once.
unfoldable pub read_limit : ℕ → ℕ
read_limit n = if ltb 0 n then n else 4

abbrev pub new_runner : Runner
new_runner = record {
  closed = false;
  mutation_queue = [];
  mutation_ready = false;
  owed = 0;
  worker = waiting;
  waiting_reads = [];
  slot_reads = [];
  done_reads = [];
  tasks = 0;
  accepted = [];
  finished = [];
}

-- `schedule`, for a mutation and for a read; a closed runner refuses.
unfoldable pub schedule_mutation : ℕ → Runner → Runner × Bool
schedule_mutation task r = if r.closed then (r, false) else (
  record r {
    tasks = r.tasks + 1;
    mutation_queue = r.mutation_queue ++ task ∷ [];
    accepted = r.accepted ++ task ∷ [];
    owed = suc r.owed;
  },
  true,
)

unfoldable pub schedule_read : ℕ → Runner → Runner × Bool
schedule_read task r =
    if r.closed
    then (r, false)
    else (record r { tasks = r.tasks + 1; waiting_reads = r.waiting_reads ++ task ∷ [] }, true)

-- `Close`, which signals the worker once it has closed the scopes.
unfoldable pub close_runner : Runner → Runner
close_runner r = if r.closed then r else record r { closed = true; owed = suc r.owed }

pub data Step (limit : ℕ) (r : Runner) : Runner → Type 0 where
  accepts_mutation : (task : ℕ) → Step limit r (schedule_mutation task r).0
  accepts_read : (task : ℕ) → Step limit r (schedule_read task r).0
  closes : Step limit r (close_runner r)
  -- `signalMutationWorker`: the channel holds one signal, and a second one is dropped.
  signals : (n : ℕ) → r.owed ≡ suc n → Step limit r (record r { owed = n; mutation_ready = true })
  wakes :
      r.worker ≡ waiting
      → r.mutation_ready ≡ true
      → Step limit r (record r { worker = draining; mutation_ready = false })
  takes :
      (task : ℕ) (rest : List ℕ)
      → r.worker ≡ draining
      → r.mutation_queue ≡ task ∷ rest
      → Step limit r (record r { worker = executing task; mutation_queue = rest })
  finishes :
      (task n : ℕ)
      → r.worker ≡ executing task
      → r.tasks ≡ suc n
      → Step limit r (record r { worker = draining; tasks = n; finished = r.finished ++ task ∷ [] })
  sleeps :
      r.worker ≡ draining
      → r.mutation_queue ≡ []
      → Step limit r (record r { worker = if r.closed then exited else waiting })
  -- A read gets a slot, or goes on without one because its context is done.
  gets_slot :
      (before : List ℕ) (task : ℕ) (after : List ℕ)
      → r.waiting_reads ≡ before ++ task ∷ after
      → length r.slot_reads < limit
      → Step limit r
          (record r { waiting_reads = before ++ after; slot_reads = task ∷ r.slot_reads })
  gives_up :
      (before : List ℕ) (task : ℕ) (after : List ℕ)
      → r.waiting_reads ≡ before ++ task ∷ after
      → Step limit r
          (record r { waiting_reads = before ++ after; done_reads = task ∷ r.done_reads })
  ends_slot :
      (before : List ℕ) (task : ℕ) (after : List ℕ) (n : ℕ)
      → r.slot_reads ≡ before ++ task ∷ after
      → r.tasks ≡ suc n
      → Step limit r (record r { slot_reads = before ++ after; tasks = n })
  ends_done :
      (before : List ℕ) (task : ℕ) (after : List ℕ) (n : ℕ)
      → r.done_reads ≡ before ++ task ∷ after
      → r.tasks ≡ suc n
      → Step limit r (record r { done_reads = before ++ after; tasks = n })

pub data Reach (limit : ℕ) : Runner → Type 0 where
  fresh : Reach limit new_runner
  later : {r t : Runner} → Reach limit r → Step limit r t → Reach limit t

-- The mutation in progress.
abbrev pub in_progress : Worker → List ℕ
in_progress (executing task) = task ∷ []
in_progress _ = []

pub record Inv (limit : ℕ) (r : Runner) : Type 0 where
  pub in_order : r.finished ++ (in_progress r.worker ++ r.mutation_queue) ≡ r.accepted
  pub slots : length r.slot_reads ≤ limit
  pub counted :
      r.tasks
      ≡ length r.waiting_reads
        + length r.slot_reads
        + length r.done_reads
        + length (in_progress r.worker)
        + length r.mutation_queue
  pub awake :
      r.worker ≡ waiting
      → (r.mutation_ready ≡ true) ⊎ (0 < r.owed) ⊎ ((r.mutation_queue ≡ []) × (r.closed ≡ false))
  pub left : r.worker ≡ exited → (r.closed ≡ true) × (r.mutation_queue ≡ [])
