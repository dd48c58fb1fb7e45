-- ===== src/People/Presence.antt =====
-- src/people/mod.rs: what a device that comes online, goes offline or moves does to its owner.
pub mod Change
pub mod InStep
pub mod Runs
use netgraspd.Base.{
  ℕ, ◌+◌, ◌-◌, ◌*◌, Bool, true, false, ◌&&◌, ◌||◌, not, List, [], ◌∷◌, Option, none, some, Text,
  ◌==◌, list_eq, nat_eq, option_eq, ltb, leb, eqb, is_some, contains, if◌then◌else◌, ◌>>=◌, map,
  keep_if, any,
}
use netgraspd.Base.Assoc.{lookup, insert, contains_key}
use netgraspd.Config.Timeouts.{unwrap_or}
use netgraspd.Location.{Place, Movement}
use netgraspd.Time.{second}
use netgraspd.Types.{MacAddr, mac_eq}
use netgraspd.Types.Event.{person_arrived, person_departed, person_location_changed}
use netgraspd.People.{
  PersonState, home, away, is_home, Person, update_of, PersonEvent, Outcome, nothing, merge,
  DeviceView, default_view, Registry,
}
use netgraspd.People.Views.{
  view_of, set_view, set_person, any_online, location_of_person, edge_evidence,
  edge_evidence_for_person,
}

-- What the registry tells `json!` of an event.
pub data Story : Type 0 where
  -- person, item id, device, location, via
  arrival : Text → Text → MacAddr → Option Text → Option Text → Story
  -- person, item id, device, via
  departure : Text → Text → MacAddr → Option Text → Story
  -- person, item id, device, previous location, location
  move : Text → Text → MacAddr → Option Text → Option Text → Story

unfoldable pub online_view : DeviceView → ℕ → DeviceView
online_view v at = record v { online = true; last_active = some at }

-- Where an offline device is, is nowhere.
unfoldable pub offline_view : DeviceView → DeviceView
offline_view v = record v { online = false; ap_name = none; location = none }

unfoldable pub placed_view : DeviceView → Place → ℕ → DeviceView
placed_view v place at = record v {
  ap_name = some place.ap_name;
  location = some place.location;
  last_active = some at;
  last_edge = if place.edge then some (place.ap_name, at) else v.last_edge;
}

arrived : Person → Option Text → ℕ → Person
arrived p location at = record p {
  state = home;
  last_arrived_at = some at;
  current_location = location;
}

departed : Person → ℕ → Person
departed p at = record p { state = away; last_departed_at = some at; current_location = none }

module _ (json : Story → Text) where
  location_events : Person → Text → MacAddr → Option Text → ℕ → List PersonEvent
  location_events p item trigger none at = []
  location_events p item trigger (some place) at =
      record {
        event_type = person_location_changed;
        item_id = item;
        name = p.name;
        mac = trigger;
        at = at;
        notify = false;
        details = json (move p.name item trigger p.current_location (some place));
      }
      ∷ []

  relocate : Registry → Text → Person → MacAddr → Option Text → ℕ → Registry × Outcome
  relocate r item p trigger location at =
      let p' = record p { current_location = location } in
      (
        set_person r item p',
        record { events = location_events p item trigger location at; updates = update_of p' ∷ [] },
      )

  refresh_known : Option Person → Registry → Text → MacAddr → ℕ → Registry × Outcome
  refresh_known none r item trigger at = (r, nothing)
  refresh_known (some p) r item trigger at =
      let location = location_of_person r item in
      if not (is_home p.state) || p.current_location == location
      then (r, nothing)
      else relocate r item p trigger location at

  unfoldable pub refresh_location : Registry → Text → MacAddr → ℕ → Registry × Outcome
  unfolding refresh_known relocate location_events
  refresh_location r item trigger at = refresh_known (lookup item r.people) r item trigger at

  merged : Registry × Outcome → Registry × Outcome
  merged (r, o) = (r, merge nothing o)

  arrive : PersonState → Person → Registry → Text → MacAddr → ℕ → Registry × Outcome
  arrive home p r item mac at = merged (refresh_location r item mac at)
  arrive away p r item mac at =
      let location = location_of_person r item in
      let p' = arrived p location at in
      (
        set_person r item p',
        record {
          events =
              record {
                event_type = person_arrived;
                item_id = item;
                name = p.name;
                mac = mac;
                at = at;
                notify = p.notify_arrive;
                details = json (arrival p.name item mac location (edge_evidence r mac at));
              }
              ∷ [];
          updates = update_of p' ∷ [];
        },
      )

  online_for : Option Person → Registry → Text → MacAddr → ℕ → Registry × Outcome
  online_for none r item mac at = (r, nothing)
  online_for (some p) r item mac at = arrive p.state p r item mac at

  online_owned : Option Text → Registry → MacAddr → ℕ → Registry × Outcome
  online_owned none r mac at = (r, nothing)
  online_owned (some item) r mac at =
      let r1 = set_view r mac (online_view (view_of r mac) at) in
      online_for (lookup item r1.people) r1 item mac at

  unfoldable pub device_online : Registry → MacAddr → ℕ → Registry × Outcome
  unfolding online_for arrive arrived merged online_owned
  device_online r mac at = online_owned (lookup mac r.owner) r mac at

  depart : PersonState → Person → Registry → Text → MacAddr → ℕ → Registry × Outcome
  depart away p r item mac at = (r, nothing)
  depart home p r item mac at =
      let p' = departed p at in
      (
        set_person r item p',
        record {
          events =
              record {
                event_type = person_departed;
                item_id = item;
                name = p.name;
                mac = mac;
                at = at;
                notify = p.notify_depart;
                details = json (departure p.name item mac (edge_evidence_for_person r item));
              }
              ∷ [];
          updates = update_of p' ∷ [];
        },
      )

  offline_for : Option Person → Registry → Text → MacAddr → ℕ → Registry × Outcome
  offline_for none r item mac at = (r, nothing)
  offline_for (some p) r item mac at =
      if any_online r item
      then merged (refresh_location r item mac at)
      else depart p.state p r item mac at

  offline_owned : Option Text → Registry → MacAddr → ℕ → Registry × Outcome
  offline_owned none r mac at = (r, nothing)
  offline_owned (some item) r mac at =
      let r1 = set_view r mac (offline_view (view_of r mac)) in
      offline_for (lookup item r1.people) r1 item mac at

  unfoldable pub device_offline : Registry → MacAddr → ℕ → Registry × Outcome
  unfolding offline_for depart departed merged offline_owned
  device_offline r mac at = offline_owned (lookup mac r.owner) r mac at

  moved_owned : Option Text → Registry → MacAddr → Place → Movement → ℕ → Registry × Outcome
  moved_owned none r mac place movement at = (r, nothing)
  moved_owned (some item) r mac place movement at =
      let r1 = set_view r mac (placed_view (view_of r mac) place at) in
      if contains_key item r1.people then refresh_location r1 item mac at else (r1, nothing)

  -- The movement is only logged.
  unfoldable pub device_moved : Registry → MacAddr → Place → Movement → ℕ → Registry × Outcome
  unfolding moved_owned
  device_moved r mac place movement at = moved_owned (lookup mac r.owner) r mac place movement at
