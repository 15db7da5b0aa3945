-- ===== src/Delivery/Dispatcher.antt =====
-- The dispatcher, and what changes it.
use orynelo.Prelude.{
  ℕ, none, suc, ◌+◌, ◌≡◌, List, [], ◌∷◌, ◌++◌, Bool, true, false, length, ltb, eqb, u64,
  if◌then◌else◌,
}
use orynelo.Model.{CheckEvent, delivery_overflow, warning}

-- Where `run` stands: at the receive, in the sink with an event, before an overflow notice (the last
-- one or not), in the sink with a notice, or returned.
pub data Worker : Type 0 where
  receiving : Worker
  delivering : CheckEvent → Worker
  checking notifying : Bool → Worker
  returned : Worker

-- The dispatcher's fields, and records of its history: the number of calls of `emit`, the events
-- that went into the queue, those that the sink was called with, the notices that it was called with, latest
-- first, the events that did not fit, and what `close` added to `dropped` when a drain timed out.
pub record Dispatcher : Type 0 where
  pub queue : List CheckEvent
  pub closed : Bool
  pub dropped : ℕ
  pub panics : ℕ
  pub announced : ℕ
  pub worker : Worker
  pub emitted : ℕ
  pub accepted : List CheckEvent
  pub seen : List CheckEvent
  pub notices : List CheckEvent
  pub lost : ℕ
  pub estimated : ℕ

abbrev pub default_event_queue_capacity : ℕ
default_event_queue_capacity = 128

-- `newEventDispatcher`
unfoldable pub new_event_dispatcher : Dispatcher
new_event_dispatcher = record {
  queue = [];
  closed = false;
  dropped = 0;
  panics = 0;
  announced = 0;
  worker = receiving;
  emitted = 0;
  accepted = [];
  seen = [];
  notices = [];
  lost = 0;
  estimated = 0;
}

abbrev pub lose : Dispatcher → Dispatcher
lose d = record d { dropped = u64 (d.dropped + 1); emitted = suc d.emitted; lost = suc d.lost }

-- `emit`
unfoldable pub emit : CheckEvent → Dispatcher → Dispatcher
emit event d =
    if d.closed
    then lose d
    else if ltb (length d.queue) default_event_queue_capacity
    then record d {
      queue = d.queue ++ event ∷ [];
      emitted = suc d.emitted;
      accepted = d.accepted ++ event ∷ [];
    }
    else lose d

-- `deliver` returns: a panic of the sink is counted.
unfoldable pub count_panic : Bool → Dispatcher → Dispatcher
count_panic panicked d = if panicked then record d { panics = u64 (d.panics + 1) } else d

abbrev pub after_notice : Bool → Worker
after_notice last = if last then returned else receiving

-- The notice of `deliverOverflowNotice`.
abbrev pub overflow_notice : ℕ → ℕ → CheckEvent
overflow_notice at dropped = record {
  type = delivery_overflow;
  check_id = "";
  check_name = "";
  status = warning;
  at = at;
  index = 0;
  result = none;
  dropped_events = dropped;
}

-- `deliverOverflowNotice`, up to the call of the sink.
unfoldable pub deliver_overflow_notice : ℕ → Bool → Dispatcher → Dispatcher
deliver_overflow_notice at last d =
    if eqb d.dropped d.announced then record d { worker = after_notice last } else record d {
      announced = d.dropped;
      worker = notifying last;
      notices = overflow_notice at d.dropped ∷ d.notices;
    }

-- The first part of `close`; only its first call does it.
unfoldable pub close_queue : Dispatcher → Dispatcher
close_queue d = record d { closed = true }

-- The drain timed out.
unfoldable pub give_up_drain : Dispatcher → Dispatcher
give_up_drain d = record d {
  dropped = u64 (d.dropped + (length d.queue + 1));
  estimated = d.estimated + (length d.queue + 1);
}

pub data Step (d : Dispatcher) : Dispatcher → Type 0 where
  emits : (event : CheckEvent) → Step d (emit event d)
  receives :
      (event : CheckEvent) (rest : List CheckEvent)
      → d.worker ≡ receiving
      → d.queue ≡ event ∷ rest
      → Step d (record d { worker = delivering event; queue = rest; seen = d.seen ++ event ∷ [] })
  delivers :
      (event : CheckEvent) (panicked : Bool)
      → d.worker ≡ delivering event
      → Step d (count_panic panicked (record d { worker = checking false }))
  -- The queue is closed and empty: the loop of `run` ends.
  drains :
      d.worker ≡ receiving
      → d.closed ≡ true
      → d.queue ≡ []
      → Step d (record d { worker = checking true })
  checks :
      (at : ℕ) (last : Bool) → d.worker ≡ checking last → Step d (deliver_overflow_notice at last d)
  notifies :
      (last panicked : Bool)
      → d.worker ≡ notifying last
      → Step d (count_panic panicked (record d { worker = after_notice last }))
  closes : Step d (close_queue d)
  times_out : d.closed ≡ true → Step d (give_up_drain d)

pub data Reach : Dispatcher → Type 0 where
  fresh : Reach new_event_dispatcher
  later : {d t : Dispatcher} → Reach d → Step d t → Reach t
