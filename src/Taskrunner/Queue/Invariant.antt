-- ===== src/Taskrunner/Queue/Invariant.antt =====
-- The invariant of the runner's queue, and what follows from it.
use mathlib.Core.List.{append_assoc, append-nil}
use orynelo.Prelude.{
  ℕ, suc, ◌+◌, ◌≤◌, ◌<◌, ◌≡◌, ◌∙◌, sym, ap, ◌⊎◌, inl, inr, List, [], ◌∷◌, ◌++◌, Bool, true, false,
  arith, length, length-append, length-middle, if_cases,
}
use orynelo.Taskrunner.Queue.{
  Runner, waiting, draining, executing, exited, schedule_mutation, schedule_read, close_runner,
  Step, accepts_mutation, accepts_read, closes, signals, wakes, takes, finishes, sleeps, gets_slot,
  gives_up, ends_slot, ends_done, Reach, fresh, later, read_limit, Inv, in_progress,
}

module _ {limit : ℕ} (r : Runner) (v : Inv limit r) where
  schedule_mutation-Inv : (task : ℕ) → Inv limit (schedule_mutation task r).0
  unfolding schedule_mutation
  schedule_mutation-Inv task =
      if_cases (λ (p : Runner × Bool). Inv limit p.0) r.closed (λ _. v)
        λ open_. record {
          in_order =
              ap (◌++◌ r.finished) (sym (append_assoc (in_progress r.worker) r.mutation_queue _))
              ∙ sym (append_assoc r.finished _ _)
              ∙ ap (λ q. q ++ task ∷ []) v.in_order;
          slots = v.slots;
          counted = omega (arith, v.counted, length-append r.mutation_queue (task ∷ []));
          awake = λ w. inr (inl (omega arith));
          left = λ w. cc ((v.left w).0);
        }

  schedule_read-Inv : (task : ℕ) → Inv limit (schedule_read task r).0
  unfolding schedule_read
  schedule_read-Inv task =
      if_cases (λ (p : Runner × Bool). Inv limit p.0) r.closed (λ _. v)
        λ open_. record {
          in_order = v.in_order;
          slots = v.slots;
          counted = omega (arith, v.counted, length-append r.waiting_reads (task ∷ []));
          awake = v.awake;
          left = v.left;
        }

  finishes-Inv :
      (task n : ℕ)
      → r.worker ≡ executing task
      → r.tasks ≡ suc n
      → Inv limit (record r { worker = draining; tasks = n; finished = r.finished ++ task ∷ [] })
  finishes-Inv task n w e = record {
    in_order =
        append_assoc r.finished (task ∷ []) r.mutation_queue
        ∙ ap (λ p. r.finished ++ (in_progress p ++ r.mutation_queue)) (sym w)
        ∙ v.in_order;
    slots = v.slots;
    counted = omega (arith, v.counted, e, ap (λ p. length (in_progress p)) w);
    awake = λ q. cc;
    left = λ q. cc;
  }

  moves-Inv :
      (waits slots dones : List ℕ) (n : ℕ)
      → length slots ≤ limit
      → n + length r.waiting_reads + length r.slot_reads + length r.done_reads
        ≡ r.tasks + length waits + length slots + length dones
      → Inv limit
          (record r { waiting_reads = waits; slot_reads = slots; done_reads = dones; tasks = n })
  moves-Inv waits slots dones n room same = record {
    in_order = v.in_order;
    slots = room;
    counted = omega (arith, v.counted);
    awake = v.awake;
    left = v.left;
  }

Step-Inv : {limit : ℕ} {r t : Runner} → Step limit r t → Inv limit r → Inv limit t
unfolding close_runner
Step-Inv {r} (accepts_mutation task) v = schedule_mutation-Inv r v task
Step-Inv {r} (accepts_read task) v = schedule_read-Inv r v task
Step-Inv closes v = ground arith
Step-Inv (signals n e) v = ground arith
Step-Inv (wakes w e) v = ground arith
Step-Inv (takes task rest w e) v = ground arith
Step-Inv {r} (finishes task n w e) v = finishes-Inv r v task n w e
Step-Inv (sleeps w e) v = ground arith
Step-Inv {r} (gets_slot before task after e room) v =
    moves-Inv r v (before ++ after) (task ∷ r.slot_reads) r.done_reads r.tasks (omega arith)
      (omega (arith, ap length e, length-middle before task after))
Step-Inv {r} (gives_up before task after e) v =
    moves-Inv r v (before ++ after) r.slot_reads (task ∷ r.done_reads) r.tasks v.slots
      (omega (arith, ap length e, length-middle before task after))
Step-Inv {r} (ends_slot before task after n e c) v =
    moves-Inv r v r.waiting_reads (before ++ after) r.done_reads n
      (omega (arith, v.slots, ap length e, length-middle before task after))
      (omega (arith, ap length e, length-middle before task after))
Step-Inv {r} (ends_done before task after n e c) v =
    moves-Inv r v r.waiting_reads r.slot_reads (before ++ after) n v.slots
      (omega (arith, ap length e, length-middle before task after))

Reach-Inv : {limit : ℕ} {r : Runner} → Reach limit r → Inv limit r
Reach-Inv fresh = ground arith
Reach-Inv (later h st) = Step-Inv st (Reach-Inv h)

-- Mutations are executed one at a time and in the order of acceptance: those finished, the one in
-- progress and those queued are, in this order, those accepted.
pub mutations_in_order :
    {limit : ℕ} {r : Runner}
    → Reach limit r
    → r.finished ++ (in_progress r.worker ++ r.mutation_queue) ≡ r.accepted
mutations_in_order h = (Reach-Inv h).in_order

-- No wake-up is lost: when the worker sleeps, a mutation that is queued, or a runner that is closed,
-- has a signal in the channel or one that a call is about to send. And when the worker has returned,
-- the runner is closed and has executed every mutation that it accepted.
pub no_lost_wakeup :
    {limit : ℕ} {r : Runner}
    → Reach limit r
    → (r.worker ≡ waiting
        → (r.mutation_ready ≡ true) ⊎ (0 < r.owed) ⊎ ((r.mutation_queue ≡ []) × (r.closed ≡ false)))
      × (r.worker ≡ exited → (r.closed ≡ true) × (r.finished ≡ r.accepted))
no_lost_wakeup {r} h =
    let v = Reach-Inv h in
    (v.awake, λ w. ((v.left w).0, sym (append-nil r.finished) ∙ cc (v.in_order, w, (v.left w).1)))

-- With a limit of n on the reads, where 0 stands for 4: at most so many reads hold a slot, and a slot
-- is free for some read at first. The wait group counts exactly the reads and mutations that were
-- accepted and have not finished, so that it is empty only when all of them have.
pub reads_bounded :
    (n : ℕ) {r : Runner}
    → Reach (read_limit n) r
    → (length r.slot_reads ≤ read_limit n)
      × (0 < read_limit n)
      × (r.tasks
          ≡ length r.waiting_reads
            + length r.slot_reads
            + length r.done_reads
            + length (in_progress r.worker)
            + length r.mutation_queue)
reads_bounded n h = let v = Reach-Inv h in (v.slots, (unfold read_limit in ground arith), v.counted)
