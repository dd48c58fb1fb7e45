-- ===== src/Analyze/Detector.antt =====
-- src/analyze/mod.rs: what the detectors share: the context, the cooldown and the exemption.
use netgraspd.Base.{ℕ, Bool, true, not, Option, none, some, List, [], ◌∷◌, Text, contains, keep_if}
use netgraspd.Time.{elapsed, at_least}
use netgraspd.Types.Mac.{MacAddr, mac_eq}
use netgraspd.Types.Event.{EventType, EventPriority}
use netgraspd.Types.Observed.{Observation}
use netgraspd.Analyze.Gateway.{GatewayTracker}
use netgraspd.Device.Manager.Feeds.{SecurityAlert}

pub record Context : Type 0 where
  pub gateway : GatewayTracker
  pub exempt : List MacAddr
  pub priority : EventPriority
  pub max_tracked : ℕ

unfoldable pub is_exempt : Context → MacAddr → Bool
is_exempt c m = contains c.exempt m

-- `SecurityAlert::new`
unfoldable pub new_alert : EventType → MacAddr → ℕ → EventPriority → Text → SecurityAlert
new_alert event_type m at priority details = record {
  event_type = event_type;
  mac = m;
  ip = none;
  interface = none;
  at = at;
  priority = priority;
  details = details;
}

unfoldable pub with_ip : SecurityAlert → Text → SecurityAlert
with_ip a ip = record a { ip = some ip }

unfoldable pub with_interface : SecurityAlert → Text → SecurityAlert
with_interface a interface = record a { interface = some interface }

-- `if let Some(ip)` and `if let Some(interface)`
unfoldable pub with_ip_if : Option Text → SecurityAlert → SecurityAlert
with_ip_if none a = a
with_ip_if (some ip) a = with_ip a ip

unfoldable pub with_interface_if : Option Text → SecurityAlert → SecurityAlert
with_interface_if none a = a
with_interface_if (some interface) a = with_interface a interface

unfoldable pub cooled_down : Option ℕ → ℕ → ℕ → Bool
cooled_down none now cooldown = true
cooled_down (some last) now cooldown = at_least (elapsed last now) cooldown

-- The end of `Chain::run`.
unfoldable pub retain : Context → List SecurityAlert → List SecurityAlert
retain c alerts = keep_if (λ a. not (is_exempt c a.mac)) alerts

-- What some traffic, newest first, consists of.
abbrev pub heard : List (Context × Observation) → List Observation
heard [] = []
heard ((c, o) ∷ earlier) = o ∷ heard earlier
