-- ===== src/Delivery/Examples.antt =====
-- Histories of a dispatcher, and the theorems at these.
use orynelo.Prelude.{
  ◌+◌, ◌≤◌, ◌<◌, ◌≡◌, refl, ◌↔◌, ◌⊎◌, [], ◌++◌, none, some, true, false, arith, String, length,
}
use orynelo.Model.{CheckEvent, run_started, running}
use orynelo.Delivery.Dispatcher.{
  Dispatcher, returned, new_event_dispatcher, emit, count_panic, deliver_overflow_notice,
  close_queue, default_event_queue_capacity, emits, receives, delivers, drains, checks, closes,
  Reach, fresh, later,
}
use orynelo.Delivery.Accounting.{events_accounted, drained_completely}
use orynelo.Delivery.Outcome.{finish_event_delivery, finish_event_delivery-reports, Carries}

abbrev event : CheckEvent
event = record {
  type = run_started;
  check_id = "";
  check_name = "";
  status = running;
  at = 3;
  index = 0;
  result = none;
  dropped_events = 0;
}

-- One event went to a sink that panicked, and one came after the queue was closed.
closing : (d : Dispatcher) × Reach d
unfolding new_event_dispatcher emit count_panic deliver_overflow_notice close_queue
closing = (
  _,
  later
      (later
        (later
          (later (later (later fresh (emits event)) (receives event [] refl refl))
            (delivers event true refl))
          (checks 4 false refl))
        closes)
      (emits event),
)

-- Nothing came after the queue was closed, and the worker has returned.
drained : (d : Dispatcher) × Reach d
unfolding new_event_dispatcher emit count_panic deliver_overflow_notice close_queue
drained = (
  _,
  later
      (later
        (later
          (later
            (later (later (later fresh (emits event)) (receives event [] refl refl))
              (delivers event true refl))
            (checks 4 false refl))
          closes)
        (drains refl refl refl))
      (checks 5 true refl),
)

the_late_event_is_lost : closing.0.dropped ≡ 1
unfolding closing
the_late_event_is_lost = refl

the_worker_has_returned : drained.0.worker ≡ returned
unfolding drained
the_worker_has_returned = refl

events_accounted_example :
    let d = closing.0 in
    (d.emitted ≡ length d.seen + length d.queue + d.lost)
    × (length d.queue ≤ default_event_queue_capacity)
    × (d.seen ++ d.queue ≡ d.accepted)
unfolding closing
events_accounted_example = events_accounted (omega arith) closing.1

drained_completely_example :
    (drained.0.seen ≡ drained.0.accepted)
    × (drained.0.emitted ≡ length drained.0.seen + drained.0.dropped)
unfolding drained
drained_completely_example = drained_completely (omega arith) drained.1 refl refl

finish_event_delivery-reports_example :
    let (stats, error) =
      finish_event_delivery {E = String} true (some closing.0) (some "cancelled") in
    ((stats ≡ none) ↔ ((closing.0.dropped ≡ 0) × (closing.0.panics ≡ 0) × (true ≡ false)))
    × ((closing.0.panics ≡ 0) × Carries error (some "cancelled") none
        ⊎ (0 < closing.0.panics) × Carries error (some "cancelled") (some closing.0.panics))
finish_event_delivery-reports_example =
    finish_event_delivery-reports true closing.0 (some "cancelled")
