-- ===== src/Delivery/Accounting.antt =====
-- What becomes of the events that are emitted.
use mathlib.Core.List.{append-nil}
use orynelo.Prelude.{suc, ◌+◌, ◌^◌, ◌≤◌, ◌<◌, ◌≡◌, ◌∙◌, sym, ap, inr, ◌++◌, arith, length}
use orynelo.Delivery.Dispatcher.{
  Dispatcher, returned, give_up_drain, Reach, default_event_queue_capacity,
}
use orynelo.Delivery.Invariant.{IsFalling, latest, losses, Reach-Inv}

-- While fewer than 2 ^ 64 events are lost: each call of `emit` is accounted for, as an event that
-- the sink was called with, one in the queue, or one of the lost; the queue holds at most 128; and
-- the sink gets the events that were queued in their order, each once.
pub events_accounted :
    {d : Dispatcher}
    → losses d < 2 ^ 64
    → Reach d
    → (d.emitted ≡ length d.seen + length d.queue + d.lost)
      × (length d.queue ≤ default_event_queue_capacity)
      × (d.seen ++ d.queue ≡ d.accepted)
events_accounted room r = let v = Reach-Inv room r in (v.total, v.capacity, v.in_order)

-- When the worker has returned, and no drain timed out, the sink was called with every event that
-- was queued, and `dropped` is exactly the number of those that it was not called with.
pub drained_completely :
    {d : Dispatcher}
    → losses d < 2 ^ 64
    → Reach d
    → d.worker ≡ returned
    → d.estimated ≡ 0
    → (d.seen ≡ d.accepted) × (d.emitted ≡ length d.seen + d.dropped)
drained_completely {d} room r w none_given_up =
    let v = Reach-Inv room r in
    let empty = (v.drained (inr (inr w))).0 in
    (
      sym (append-nil d.seen) ∙ cc (v.in_order, empty),
      omega (arith, v.total, v.counted, ap length empty),
    )

-- The first drain that times out reports at least every event that the sink was not called with: one
-- more than these, for the event that the sink may not have finished.
pub give_up_drain-covers :
    {d : Dispatcher}
    → losses (give_up_drain d) < 2 ^ 64
    → Reach d
    → d.estimated ≡ 0
    → (give_up_drain d).dropped + length d.seen ≡ suc d.emitted
unfolding give_up_drain
give_up_drain-covers {d} room r first =
    let v = Reach-Inv (omega arith) r in omega (arith, v.total, v.counted)

-- The overflow notices tell rising counts, none of them twice, and none above what is dropped; and
-- no more panics are counted than there were calls of the sink.
pub notices_rise :
    {d : Dispatcher}
    → losses d < 2 ^ 64
    → Reach d
    → IsFalling d.notices
      × (latest d.notices ≤ d.dropped)
      × (d.panics ≤ length d.seen + length d.notices)
notices_rise room r =
    let v = Reach-Inv room r in
    (v.falling, omega (arith, v.announced, v.behind), omega (arith, v.panicked))
