-- ===== src/People.antt =====
-- src/people/mod.rs: the people, the devices they own, and what a change to them produces. The
-- order of the map of people, which only the listing of people and the order of the removals of a
-- reconcile show, is left open. The JSON detail of an event is the text that `json!` makes.
pub mod Views
pub mod Presence
pub mod Merging
pub mod Reconcile
pub mod Latest
pub mod Whereabouts
pub mod Owned
mod Tests
use netgraspd.Base.{
  ℕ, Bool, true, false, List, [], ◌∷◌, ◌++◌, Option, none, some, Text, String, string_eq, ◌==◌,
  list_eq, nat_eq, if◌then◌else◌,
}
use netgraspd.Types.{MacAddr}
use netgraspd.Types.Event.{EventType}

pub data PersonState : Type 0 where
  home away : PersonState

unfoldable pub person_as_str : PersonState → String
person_as_str home = "home"
person_as_str away = "away"

unfoldable pub person_from_db : String → PersonState
person_from_db s = if s == "home" then home else away

abbrev pub is_home : PersonState → Bool
is_home home = true
is_home away = false

pub record Person : Type 0 where
  pub item_id : Text
  pub name : Text
  pub notify_arrive : Bool
  pub notify_depart : Bool
  pub state : PersonState
  pub current_location : Option Text
  pub last_arrived_at : Option ℕ
  pub last_departed_at : Option ℕ

pub record PersonUpdate : Type 0 where
  pub item_id : Text
  pub state : PersonState
  pub current_location : Option Text
  pub last_arrived_at : Option ℕ
  pub last_departed_at : Option ℕ

abbrev pub update_of : Person → PersonUpdate
update_of p = record {
  item_id = p.item_id;
  state = p.state;
  current_location = p.current_location;
  last_arrived_at = p.last_arrived_at;
  last_departed_at = p.last_departed_at;
}

pub record PersonEvent : Type 0 where
  pub event_type : EventType
  pub item_id : Text
  pub name : Text
  pub mac : MacAddr
  pub at : ℕ
  pub notify : Bool
  pub details : Text

pub record Outcome : Type 0 where
  pub events : List PersonEvent
  pub updates : List PersonUpdate

-- `Outcome::default()`
abbrev pub nothing : Outcome
nothing = record { events = []; updates = [] }

-- One step of the loop of `merge`: the first update of the same person is replaced in place.
unfoldable pub merge_update : List PersonUpdate → PersonUpdate → List PersonUpdate
merge_update [] u = u ∷ []
merge_update (held ∷ rest) u =
    let later = merge_update rest u in if held.item_id == u.item_id then u ∷ rest else held ∷ later

unfoldable pub merge_updates : List PersonUpdate → List PersonUpdate → List PersonUpdate
merge_updates held [] = held
merge_updates held (u ∷ rest) = merge_updates (merge_update held u) rest

unfoldable pub merge : Outcome → Outcome → Outcome
merge o other = record {
  events = o.events ++ other.events;
  updates = merge_updates o.updates other.updates;
}

pub record DeviceView : Type 0 where
  pub online : Bool
  pub ap_name : Option Text
  pub location : Option Text
  pub last_active : Option ℕ
  pub last_edge : Option (Text × ℕ)

abbrev pub default_view : DeviceView
default_view = record {
  online = false;
  ap_name = none;
  location = none;
  last_active = none;
  last_edge = none;
}

pub record Registry : Type 0 where
  pub people : List (Text × Person)
  pub owner : List (MacAddr × Text)
  pub config_owner : List (MacAddr × Text)
  pub devices : List (MacAddr × DeviceView)
