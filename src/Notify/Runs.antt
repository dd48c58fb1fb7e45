-- ===== src/Notify/Runs.antt =====
-- src/notify/mod.rs: runs of the dispatcher, as the daemon drives it.
pub mod Counting
pub mod Spacing
use netgraspd.Base.{ℕ, List, [], ◌∷◌, ◌++◌, Bool, true, false, ◌&&◌}
use netgraspd.Types.{MacAddr}
use netgraspd.Types.Event.{is_security}
use netgraspd.Notify.{
  RecordedEvent, Delivery, delivery_events, Dispatcher, drain, tick, verdict, offer, Ruling, off,
  security_off, undeliverable, unlisted, quiet, repeated, at_once, batched,
}

pub data Input : Type 0 where
  offered : RecordedEvent → ℕ → Input
  ticked : ℕ → Input
  drained : Input

unfoldable pub step : Dispatcher → Input → Dispatcher × List Delivery
step d (offered e now) = offer d e now
step d (ticked now) = tick d now
step d drained = drain d

unfoldable pub run : Dispatcher → List Input → Dispatcher × List Delivery
run d [] = (d, [])
run d (i ∷ rest) =
    let first = step d i in let later = run first.0 rest in (later.0, first.1 ++ later.1)

-- The events of deliveries.
abbrev pub delivered : List Delivery → List RecordedEvent
delivered [] = []
delivered (x ∷ rest) = delivery_events x ++ delivered rest

-- The events that a run is offered.
abbrev pub offers : List Input → List RecordedEvent
offers [] = []
offers (offered e now ∷ rest) = e ∷ offers rest
offers (ticked now ∷ rest) = offers rest
offers (drained ∷ rest) = offers rest

abbrev pub dropped_as : Ruling → RecordedEvent → List RecordedEvent
dropped_as at_once e = []
dropped_as batched e = []
dropped_as _ e = e ∷ []

-- The events that a run refuses.
unfoldable pub dropped : Dispatcher → List Input → List RecordedEvent
dropped d [] = []
dropped d (offered e now ∷ rest) = dropped_as (verdict d e now) e ++ dropped (offer d e now).0 rest
dropped d (ticked now ∷ rest) = dropped (tick d now).0 rest
dropped d (drained ∷ rest) = dropped (drain d).0 rest
