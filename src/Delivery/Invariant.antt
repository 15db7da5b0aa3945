-- ===== src/Delivery/Invariant.antt =====
-- The invariant of the dispatcher.
use mathlib.Core.List.{append_assoc}
use orynelo.Prelude.{
  ℕ, suc, ◌+◌, ◌^◌, ◌≤◌, ◌<◌, ◌≡◌, refl, ◌∙◌, sym, ap, ◌⊎◌, List, [], ◌∷◌, ◌++◌, Bool, true, false,
  arith, length, length-append, ltb, eqb, u64, if_cases,
}
use orynelo.Model.{CheckEvent}
use orynelo.Delivery.Dispatcher.{
  Dispatcher, Worker, receiving, delivering, checking, notifying, returned, new_event_dispatcher,
  emit, lose, count_panic, deliver_overflow_notice, close_queue, give_up_drain, after_notice,
  overflow_notice, Step, emits, receives, delivers, drains, checks, notifies, closes, times_out,
  Reach, fresh, later, default_event_queue_capacity,
}

-- The counts of the notices, latest first, fall strictly and stay above 0.
abbrev pub IsFalling : List CheckEvent → Type 0
IsFalling [] = Unit
IsFalling (e ∷ []) = 0 < e.dropped_events
IsFalling (e ∷ f ∷ es) = (f.dropped_events < e.dropped_events) × IsFalling (f ∷ es)

-- The count of the latest notice.
abbrev pub latest : List CheckEvent → ℕ
latest [] = 0
latest (e ∷ es) = e.dropped_events

-- What the worker needs from the queue: the loop ends only when it is closed and empty.
abbrev pub IsDrained : Worker → Type 0
IsDrained w = (w ≡ checking true) ⊎ (w ≡ notifying true) ⊎ (w ≡ returned)

abbrev in_sink : Worker → ℕ
in_sink (delivering _) = 1
in_sink (notifying _) = 1
in_sink _ = 0

pub record Inv (d : Dispatcher) : Type 0 where
  pub in_order : d.seen ++ d.queue ≡ d.accepted
  pub capacity : length d.queue ≤ default_event_queue_capacity
  pub total : d.emitted ≡ length d.seen + length d.queue + d.lost
  pub counted : d.dropped ≡ d.lost + d.estimated
  pub falling : IsFalling d.notices
  pub announced : d.announced ≡ latest d.notices
  pub behind : d.announced ≤ d.dropped
  pub drained : IsDrained d.worker → (d.queue ≡ []) × (d.closed ≡ true)
  pub panicked : d.panics + in_sink d.worker ≤ length d.seen + length d.notices

-- What has been counted as dropped so far, in full.
abbrev pub losses : Dispatcher → ℕ
losses d = d.lost + d.estimated

Step-losses : {d t : Dispatcher} → Step d t → losses d ≤ losses t
unfolding emit count_panic deliver_overflow_notice close_queue give_up_drain
Step-losses {d} (emits event) = ground arith
Step-losses (receives event rest w e) = ground arith
Step-losses (delivers event panicked w) = ground arith
Step-losses (drains w c e) = ground arith
Step-losses (checks at last w) = ground arith
Step-losses (notifies last panicked w) = ground arith
Step-losses closes = ground arith
Step-losses (times_out c) = ground arith

module _ {d : Dispatcher} (v : Inv d) where
  lose-Inv : losses d + 1 < 2 ^ 64 → Inv (lose d)
  lose-Inv room = record {
    in_order = v.in_order;
    capacity = v.capacity;
    total = omega (arith, v.total);
    counted = omega (arith, v.counted);
    falling = v.falling;
    announced = v.announced;
    behind = omega (arith, v.counted, v.behind);
    drained = v.drained;
    panicked = v.panicked;
  }

  accept-Inv :
      (event : CheckEvent)
      → d.closed ≡ false
      → length d.queue < default_event_queue_capacity
      → Inv (record d {
        queue = d.queue ++ event ∷ [];
        emitted = suc d.emitted;
        accepted = d.accepted ++ event ∷ [];
      })
  accept-Inv event open_ room = record {
    in_order =
        sym (append_assoc d.seen d.queue (event ∷ [])) ∙ ap (λ q. q ++ event ∷ []) v.in_order;
    capacity = omega (arith, length-append d.queue (event ∷ []));
    total = omega (arith, v.total, length-append d.queue (event ∷ []));
    counted = v.counted;
    falling = v.falling;
    announced = v.announced;
    behind = v.behind;
    drained = λ w. cc ((v.drained w).1);
    panicked = v.panicked;
  }

  receives-Inv :
      (event : CheckEvent) (rest : List CheckEvent)
      → d.worker ≡ receiving
      → d.queue ≡ event ∷ rest
      → Inv (record d { worker = delivering event; queue = rest; seen = d.seen ++ event ∷ [] })
  receives-Inv event rest w e = record {
    in_order = append_assoc d.seen (event ∷ []) rest ∙ ap (d.seen ++◌) (sym e) ∙ v.in_order;
    capacity = omega (arith, v.capacity, ap length e);
    total = omega (arith, v.total, ap length e, length-append d.seen (event ∷ []));
    counted = v.counted;
    falling = v.falling;
    announced = v.announced;
    behind = v.behind;
    drained = λ q. ground arith;
    panicked = omega (arith, v.panicked, ap in_sink w, length-append d.seen (event ∷ []));
  }

new_event_dispatcher-Inv : Inv new_event_dispatcher
unfolding new_event_dispatcher
new_event_dispatcher-Inv = ground arith

IsFalling-cons :
    (e : CheckEvent) (es : List CheckEvent)
    → latest es < e.dropped_events
    → IsFalling es
    → IsFalling (e ∷ es)
IsFalling-cons e [] h f = h
IsFalling-cons e (x ∷ es) h f = (h, f)

emit-Inv :
    {d : Dispatcher} (event : CheckEvent)
    → Inv d
    → losses (emit event d) < 2 ^ 64
    → Inv (emit event d)
unfolding emit
emit-Inv {d} event v =
    if_cases Kept d.closed (λ _ room. lose-Inv v (omega arith))
      λ open_.
        if_cases Kept (ltb (length d.queue) default_event_queue_capacity)
          (λ few room. accept-Inv v event open_ (ground arith)) (λ _ room. lose-Inv v (omega arith))
  where
    Kept : Dispatcher → Type 0
    Kept t = losses t < 2 ^ 64 → Inv t

count_panic-Inv :
    {d : Dispatcher} (panicked : Bool) (w : Worker)
    → Inv d
    → in_sink d.worker ≡ 1
    → in_sink w ≡ 0
    → (IsDrained w → IsDrained d.worker)
    → Inv (count_panic panicked (record d { worker = w }))
unfolding count_panic
count_panic-Inv {d} panicked w v busy idle sub =
    if_cases Inv panicked (λ _. counted (u64 (d.panics + 1)) (omega (arith, v.panicked)))
      (λ _. counted d.panics (omega (arith, v.panicked)))
  where
    counted :
        (p : ℕ) → p ≤ length d.seen + length d.notices → Inv (record d { worker = w; panics = p })
    counted p few = record {
      in_order = v.in_order;
      capacity = v.capacity;
      total = v.total;
      counted = v.counted;
      falling = v.falling;
      announced = v.announced;
      behind = v.behind;
      drained = λ q. v.drained (sub q);
      panicked = omega (arith, few, idle);
    }

deliver_overflow_notice-Inv :
    {d : Dispatcher} (at : ℕ) (last : Bool)
    → Inv d
    → d.worker ≡ checking last
    → Inv (deliver_overflow_notice at last d)
unfolding deliver_overflow_notice
deliver_overflow_notice-Inv {d} at last v w =
    if_cases Inv (eqb d.dropped d.announced) (λ same. ground (arith, v.drained))
      λ other. record {
        in_order = v.in_order;
        capacity = v.capacity;
        total = v.total;
        counted = v.counted;
        falling =
            IsFalling-cons (overflow_notice at d.dropped) d.notices
              (ground (arith, v.announced, v.behind)) v.falling;
        announced = refl;
        behind = omega arith;
        drained = λ q. v.drained (ground arith);
        panicked = omega (arith, v.panicked, ap in_sink w);
      }

Step-Inv : {d t : Dispatcher} → losses t < 2 ^ 64 → Inv d → Step d t → Inv t
unfolding emit count_panic close_queue give_up_drain
Step-Inv {d} room v (emits event) = emit-Inv event v room
Step-Inv room v (receives event rest w e) = receives-Inv v event rest w e
Step-Inv {d} room v (delivers event panicked w) =
    count_panic-Inv panicked (checking false) v (ap in_sink w) refl (λ h. ground arith)
Step-Inv room v (drains w c e) = ground arith
Step-Inv room v (checks at last w) = deliver_overflow_notice-Inv at last v w
Step-Inv room v (notifies last panicked w) =
    count_panic-Inv panicked (after_notice last) v (ap in_sink w) (ground arith) (λ h. ground arith)
Step-Inv room v closes = ground arith
Step-Inv room v (times_out c) = ground arith

pub Reach-Inv : {d : Dispatcher} → losses d < 2 ^ 64 → Reach d → Inv d
Reach-Inv room fresh = new_event_dispatcher-Inv
Reach-Inv room (later r st) = Step-Inv room (Reach-Inv (omega (arith, Step-losses st)) r) st
