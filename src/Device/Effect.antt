-- ===== src/Device/Effect.antt =====
-- src/device/mod.rs: what the state machine decides, for the persistence layer to apply. The
-- JSON detail of an event is a data type with a constructor for each event that carries one.
use netgraspd.Base.{ℕ, Bool, true, ◌&&◌, not, Option, none, some, Text, String, if◌then◌else◌}
use netgraspd.Types.{MacAddr, Signal, trim, is_blank}
use netgraspd.Types.Event.{DeviceState, EventType, EventPriority, is_security}
use netgraspd.Identity.Scorer.{Identity}

pub data Details : Type 0 where
  -- source, interface
  seen : String → Text → Details
  -- previous address, new address, interface
  readdressed : Option Text → Text → Text → Details
  -- previous name, its source, the new source, the new confidence where it is reported
  renamed : Text → String → String → Option ℕ → Details
  -- source, interface, learning
  discovered : String → Text → Bool → Details
  -- last sighting, whole seconds of silence
  silent : ℕ → ℕ → Details
  -- access point, location, the previous ones, movement, edge, telemetry as it came
  placed : Text → Text → Option Text → Option Text → String → Bool → Option Text → Details
  -- details that another component built, marked as a security event or not, with a priority
  foreign : Text → Option String → Details

pub record DeviceEvent : Type 0 where
  pub event_type : EventType
  pub mac : MacAddr
  pub display_name : Text
  pub vendor : Option Text
  pub ip : Option Text
  pub interface : Option Text
  pub at : ℕ
  pub baseline : Bool
  pub during_learning : Bool
  pub notify : Bool
  pub priority : EventPriority
  pub details : Details

unfoldable pub deliverable : DeviceEvent → Bool
deliverable e = if is_security e.event_type then true else e.notify && not e.during_learning

pub record DeviceSnapshot : Type 0 where
  pub mac : MacAddr
  pub state : DeviceState
  pub last_ip : Option Text
  pub last_ipv6 : Option Text
  pub last_interface : Option Text
  pub first_seen_at : ℕ
  pub last_seen_at : ℕ
  pub baseline : Bool
  pub identity : Identity
  pub display_name : Option Text
  pub hostname : Option Text
  pub mdns_name : Option Text
  pub vendor : Option Text
  pub device_type : Option Text
  pub device_type_confidence : Option ℕ
  pub os_family : Option Text
  pub current_ap : Option Text
  pub current_location : Option Text
  pub observations_since_flush : ℕ

display_or : Option Text → Text → Text
display_or none fallback = fallback
display_or (some n) fallback = if is_blank n then fallback else trim n

-- `DeviceSnapshot::display`
unfoldable pub display : DeviceSnapshot → Text
unfolding display_or
display s = display_or s.display_name s.identity.display_name

pub data Effect : Type 0 where
  discovered : DeviceSnapshot → Effect
  event : DeviceEvent → Effect
  signal : MacAddr → Signal → ℕ → Effect
  address : MacAddr → Text → Text → ℕ → Effect
  presence_opened : MacAddr → Text → Option Text → ℕ → Effect
  presence_closed : MacAddr → ℕ → Effect
  location_changed : MacAddr → Option Text → Text → ℕ → Effect
  location_closed : MacAddr → ℕ → Effect
