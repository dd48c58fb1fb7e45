-- ===== src/Notify.antt =====
-- src/notify/mod.rs: the dispatcher, which decides what is delivered and when. A fixed offset from
-- UTC is its seconds to the east, modulo a day.
pub mod Runs
pub mod Batches
mod Tests
use netgraspd.Base.{
  ℕ, suc, ◌+◌, ◌-◌, ◌*◌, ◌/◌, ◌%◌, Bool, true, false, ◌&&◌, ◌||◌, not, List, [], ◌∷◌, ◌++◌, Option,
  none, some, String, string_eq, ◌==◌, ltb, leb, if◌then◌else◌, length, map, contains,
}
use netgraspd.Base.Assoc.{lookup, insert}
use netgraspd.Config.Notifying.{NotifyConfig, SecurityNotifyConfig, QuietHours, is_quiet}
use netgraspd.Device.Effect.{DeviceEvent, deliverable}
use netgraspd.Time.{second}
use netgraspd.Types.{MacAddr, mac_eq}
use netgraspd.Types.Event.{event_as_str, is_security, is_person}

-- device/persist.rs: an event and the id of its row.
pub record RecordedEvent : Type 0 where
  pub id : ℕ
  pub event : DeviceEvent

pub data Delivery : Type 0 where
  single : RecordedEvent → Delivery
  summary : List RecordedEvent → Delivery

-- `Delivery::events`
unfoldable pub delivery_events : Delivery → List RecordedEvent
delivery_events (single e) = e ∷ []
delivery_events (summary events) = events

pub record SuppressionCounts : Type 0 where
  pub disabled : ℕ
  pub not_deliverable : ℕ
  pub wrong_type : ℕ
  pub quiet_hours : ℕ
  pub debounced : ℕ
  pub security_disabled : ℕ

unfoldable pub total : SuppressionCounts → ℕ
total c =
    c.disabled + c.not_deliverable + c.wrong_type + c.quiet_hours + c.debounced
    + c.security_disabled

pub record Dispatcher : Type 0 where
  pub config : NotifyConfig
  pub security : SecurityNotifyConfig
  pub offset : ℕ
  pub last_accepted : List (MacAddr × ℕ)
  pub pending : List RecordedEvent
  pub window_opened_at : Option ℕ
  pub suppressed : SuppressionCounts

abbrev pub no_counts : SuppressionCounts
no_counts = record {
  disabled = 0;
  not_deliverable = 0;
  wrong_type = 0;
  quiet_hours = 0;
  debounced = 0;
  security_disabled = 0;
}

unfoldable pub new_dispatcher : NotifyConfig → SecurityNotifyConfig → ℕ → Dispatcher
new_dispatcher config security offset = record {
  config = config;
  security = security;
  offset = offset;
  last_accepted = [];
  pending = [];
  window_opened_at = none;
  suppressed = no_counts;
}

-- What is pending as deliveries.
unfoldable pub deliveries_of : ℕ → List RecordedEvent → List Delivery
deliveries_of threshold [] = []
deliveries_of threshold (e ∷ pending) =
    if ltb 0 threshold && leb threshold (length (e ∷ pending))
    then summary (e ∷ pending) ∷ []
    else map single (e ∷ pending)

unfoldable pub drain : Dispatcher → Dispatcher × List Delivery
drain d = (
  record d { window_opened_at = none; pending = [] },
  deliveries_of d.config.batch_threshold d.pending,
)

tick_window : Option ℕ → Dispatcher → ℕ → Dispatcher × List Delivery
tick_window none d now = (d, [])
tick_window (some opened) d now =
    if ltb (now - opened) d.config.batch_window then (d, []) else drain d

unfoldable pub tick : Dispatcher → ℕ → Dispatcher × List Delivery
unfolding tick_window
tick d now = tick_window d.window_opened_at d now

-- The minute of the local day.
unfoldable pub local_minute : ℕ → ℕ → ℕ
local_minute offset now =
    let seconds = (now / second + offset) % 86_400 in (seconds / 3_600) * 60 + (seconds / 60) % 60

quiet_at : Option QuietHours → ℕ → Bool
quiet_at none minute = false
quiet_at (some quiet) minute = is_quiet quiet minute

unfoldable pub in_quiet_hours : Dispatcher → ℕ → Bool
unfolding quiet_at
in_quiet_hours d now = quiet_at d.config.quiet_hours (local_minute d.offset now)

-- `.is_some_and(|previous| now - previous < debounce)`, where a negative difference counts as none.
sooner_than : Option ℕ → ℕ → ℕ → Bool
sooner_than none now debounce = false
sooner_than (some previous) now debounce = ltb (now - previous) debounce

unfoldable pub too_soon : Dispatcher → RecordedEvent → ℕ → Bool
unfolding sooner_than
too_soon d e now = sooner_than (lookup e.event.mac d.last_accepted) now d.config.debounce

-- What the dispatcher does with an event. The counters are those that go up by one.
pub data Ruling : Type 0 where
  off security_off undeliverable unlisted quiet repeated at_once batched : Ruling

-- The conditions of `offer`, in order.
unfoldable pub verdict : Dispatcher → RecordedEvent → ℕ → Ruling
verdict d e now =
    let security = is_security e.event.event_type in
    if not d.config.enabled
    then off
    else if security && not d.security.enabled
    then security_off
    else if not (deliverable e.event)
    then undeliverable
    else if not security
        && (not (is_person e.event.event_type)
            && not (contains d.config.event_types (event_as_str e.event.event_type)))
    then unlisted
    else if not (security && d.security.bypass_quiet_hours) && in_quiet_hours d now
    then quiet
    else if not (security && d.security.bypass_debounce) && too_soon d e now
    then repeated
    else if security && d.security.bypass_batch_window
    then at_once
    else batched

-- `get_or_insert`
opened_by : Option ℕ → ℕ → Option ℕ
opened_by none now = some now
opened_by (some opened) now = some opened

unfoldable pub accept : Dispatcher → RecordedEvent → ℕ → Dispatcher
unfolding opened_by
accept d e now = record d {
  last_accepted = insert e.event.mac now d.last_accepted;
  pending = d.pending ++ (e ∷ []);
  window_opened_at = opened_by d.window_opened_at now;
}

unfoldable pub counted : Dispatcher → SuppressionCounts → Dispatcher
counted d c = record d { suppressed = c }

unfoldable pub send_now : Dispatcher × List Delivery → RecordedEvent → Dispatcher × List Delivery
send_now (d, deliveries) e = (d, deliveries ++ (single e ∷ []))

-- What `offer` does in each case.
unfoldable pub settle : Ruling → Dispatcher → RecordedEvent → ℕ → Dispatcher × List Delivery
settle off d e now =
    let c = d.suppressed in tick (counted d (record c { disabled = suc c.disabled })) now
settle security_off d e now =
    let c = d.suppressed in
    tick (counted d (record c { security_disabled = suc c.security_disabled })) now
settle undeliverable d e now =
    let c = d.suppressed in
    tick (counted d (record c { not_deliverable = suc c.not_deliverable })) now
settle unlisted d e now =
    let c = d.suppressed in tick (counted d (record c { wrong_type = suc c.wrong_type })) now
settle quiet d e now =
    let c = d.suppressed in tick (counted d (record c { quiet_hours = suc c.quiet_hours })) now
settle repeated d e now =
    let c = d.suppressed in tick (counted d (record c { debounced = suc c.debounced })) now
settle at_once d e now = send_now (tick d now) e
settle batched d e now = tick (accept d e now) now

unfoldable pub offer : Dispatcher → RecordedEvent → ℕ → Dispatcher × List Delivery
offer d e now = settle (verdict d e now) d e now
