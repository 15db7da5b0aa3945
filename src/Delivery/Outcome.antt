-- ===== src/Delivery/Outcome.antt =====
-- What a diagnosis returns of its event delivery (`close` after its wait, `finishEventDelivery`).
use orynelo.Prelude.{
  ℕ, ◌<◌, ◌≡◌, ◌↔◌, ◌⊎◌, Option, none, some, Bool, false, arith, eqb, if◌then◌else◌,
}
use orynelo.Model.{EventDeliveryStats, is_empty}
use orynelo.Delivery.Dispatcher.{Dispatcher}

-- `EventDeliveryError`
pub record EventDeliveryError : Type 0 where
  pub panics : ℕ

-- The error of a diagnosis: its own, that of the delivery, or both.
pub data RunError (E : Type 0) : Type 0 where
  diagnosis_error : E → RunError E
  delivery_error : EventDeliveryError → RunError E
  joined : E → EventDeliveryError → RunError E

-- The statistics of `close`; without a sink there is no dispatcher.
unfoldable pub statistics : Bool → Option Dispatcher → EventDeliveryStats
statistics timed_out none = record { dropped = 0; consumer_panics = 0; drain_timed_out = false }
statistics timed_out (some d) = record {
  dropped = d.dropped;
  consumer_panics = d.panics;
  drain_timed_out = timed_out;
}

unfoldable pub close_error : EventDeliveryStats → Option EventDeliveryError
close_error stats =
    if eqb stats.consumer_panics 0 then none else some (record { panics = stats.consumer_panics })

unfoldable pub join_errors :
    {E : Type 0} → Option E → Option EventDeliveryError → Option (RunError E)
join_errors (some e) (some f) = some (joined e f)
join_errors none (some f) = some (delivery_error f)
join_errors (some e) none = some (diagnosis_error e)
join_errors none none = none

-- `finishEventDelivery`: the statistics that the diagnosis gets, and the error.
unfoldable pub finish_event_delivery :
    {E : Type 0}
    → Bool
    → Option Dispatcher
    → Option E
    → Option EventDeliveryStats × Option (RunError E)
unfolding statistics close_error join_errors is_empty
finish_event_delivery timed_out d err =
    let stats = statistics timed_out d in
    (if is_empty stats then none else some stats, join_errors err (close_error stats))

-- Which errors a result carries.
abbrev pub Carries : {E : Type 0} → Option (RunError E) → Option E → Option ℕ → Type 0
Carries none err panics = (err ≡ none) × (panics ≡ none)
Carries (some (diagnosis_error e)) err panics = (err ≡ some e) × (panics ≡ none)
Carries (some (delivery_error f)) err panics = (err ≡ none) × (panics ≡ some f.panics)
Carries (some (joined e f)) err panics = (err ≡ some e) × (panics ≡ some f.panics)

-- A diagnosis with a dispatcher reports statistics exactly when an event was dropped, the consumer
-- panicked or the drain timed out. Its error carries the diagnosis' own error, if any, and the
-- number of panics, if any, and nothing else.
pub finish_event_delivery-reports :
    {E : Type 0} (timed_out : Bool) (d : Dispatcher) (err : Option E)
    → let (stats, error) = finish_event_delivery timed_out (some d) err in
      ((stats ≡ none) ↔ ((d.dropped ≡ 0) × (d.panics ≡ 0) × (timed_out ≡ false)))
      × ((d.panics ≡ 0) × Carries error err none
          ⊎ (0 < d.panics) × Carries error err (some d.panics))
unfolding finish_event_delivery statistics close_error join_errors is_empty
finish_event_delivery-reports timed_out d none = ground arith
finish_event_delivery-reports timed_out d (some e) = ground arith
