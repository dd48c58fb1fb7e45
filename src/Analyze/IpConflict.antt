-- ===== src/Analyze/IpConflict.antt =====
-- src/analyze/ip_conflict.rs: two devices on one address. `render` is the JSON text of an alert's
-- details, which serde_json writes, and `show` the standard library's text of an address.
pub mod Claimants
use netgraspd.Base.{
  ℕ, ◌+◌, ◌-◌, ◌*◌, ◌/◌, ◌≤◌, Bool, true, false, ◌&&◌, ◌||◌, not, Option, none, some, List, [], ◌∷◌,
  String, Text, nat_eq, leb, ltb, if◌then◌else◌, is_some, ◌==◌,
}
use netgraspd.Base.Assoc.{lookup}
use netgraspd.Time.{second, elapsed, at_most}
use netgraspd.Types.Mac.{MacAddr, mac_eq}
use netgraspd.Types.Net.{IpAddr, v4, v4_unspecified, v4_broadcast, v4_multicast}
use netgraspd.Types.Event.{ip_conflict}
use netgraspd.Types.Observed.{Observation}
use netgraspd.Device.Manager.Feeds.{SecurityAlert}
use netgraspd.Analyze.Gateway.{proxy_arp_for, v4_of}
use netgraspd.Analyze.Window.{BoundedMap, new_map, make_room, update_at, value_or}
use netgraspd.Analyze.Detector.{Context, new_alert, with_ip, with_interface, cooled_down}

abbrev pub cooldown : ℕ
cooldown = 600 * second

pub record Users : Type 0 where
  pub latest : MacAddr × ℕ
  pub previous : Option (MacAddr × ℕ)
  pub last_alert : Option ℕ

pub record IpConflict : Type 0 where
  pub active_within : ℕ
  pub addresses : BoundedMap ℕ Users

unfoldable pub new_conflict : ℕ → ℕ → IpConflict
new_conflict active_within max_tracked = record {
  active_within = active_within;
  addresses = new_map max_tracked;
}

pub record ConflictDetails : Type 0 where
  pub address : ℕ
  pub other_mac : MacAddr
  pub seconds_apart : ℕ
  pub active_within_secs : ℕ
  pub source : String

abbrev pub first_user : Observation → Users
first_user o = record { latest = (o.mac, o.observed_at); previous = none; last_alert = none }

-- What is held of the address when the reference to its entry is taken.
unfoldable pub users_of : Observation → ℕ → IpConflict → Users
users_of o x a = value_or (first_user o) (lookup x (make_room x a.addresses).entries)

unfoldable pub simultaneous : Observation → Users → IpConflict → Bool
simultaneous o u a = at_most (elapsed u.latest.1 o.observed_at) a.active_within

-- The entry after the observation: the same device again, or another that displaces it.
unfoldable pub used_by : Observation → Bool → Users → Users
used_by o fires u =
    if u.latest.0 == o.mac then record u { latest = (u.latest.0, o.observed_at) } else record {
      latest = (o.mac, o.observed_at);
      previous = some u.latest;
      last_alert = if fires then some o.observed_at else u.last_alert;
    }

-- An address that no one device has.
unfoldable pub is_shared : ℕ → Bool
is_shared x = v4_unspecified x || (v4_broadcast x || v4_multicast x)

module _ (show : IpAddr → Text) (render : ConflictDetails → Text) where
  unfoldable pub conflict_alert : Context → Observation → ℕ → Users → IpConflict → SecurityAlert
  conflict_alert c o x u a =
      with_interface
        (with_ip
          (new_alert ip_conflict o.mac o.observed_at c.priority (
            render (record {
              address = x;
              other_mac = u.latest.0;
              seconds_apart = (o.observed_at - u.latest.1) / second;
              active_within_secs = a.active_within / second;
              source = o.source;
            })))
          (show (v4 x)))
        o.interface

  unfoldable pub use_address :
      Context → Observation → ℕ → IpConflict → IpConflict × List SecurityAlert
  use_address c o x a =
      let u : Users = users_of o x a in
      let fires : Bool =
        not (u.latest.0 == o.mac)
        && (simultaneous o u a && cooled_down u.last_alert o.observed_at cooldown) in
      (
        record a {
          addresses = update_at x o.observed_at (first_user o) (λ w. used_by o fires u) a.addresses;
        },
        if fires then conflict_alert c o x u a ∷ [] else [],
      )

  conflict_at : Context → Observation → Option ℕ → IpConflict → IpConflict × List SecurityAlert
  unfolding use_address
  conflict_at c o none a = (a, [])
  conflict_at c o (some x) a =
      if is_shared x || is_some (proxy_arp_for c.gateway o) then (a, []) else use_address c o x a

  -- `IpConflict::analyze`, on an observation.
  unfoldable pub conflict : Context → Observation → IpConflict → IpConflict × List SecurityAlert
  unfolding conflict_at
  conflict c o a = conflict_at c o (v4_of o.ip) a
