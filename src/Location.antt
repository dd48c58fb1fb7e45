-- ===== src/Location.antt =====
-- src/location/mod.rs: the operator's map from access points to places, and what a crossing from
-- one to another means. `str::to_lowercase` is the standard library's, over the tables of Unicode,
-- and is a parameter.
pub mod Crossing
mod Tests
use netgraspd.Base.{
  ℕ, Bool, true, false, not, ◌&&◌, List, [], ◌∷◌, Option, none, some, Text, ◌==◌, list_eq, nat_eq,
  contains, if◌then◌else◌, keep_if, map, String, length,
}
use netgraspd.Base.Assoc.{lookup, insert}
use netgraspd.Types.{trim, is_blank, is_empty}
use netgraspd.Config.Timeouts.{unwrap_or}

pub data Movement : Type 0 where
  arriving departing roaming unknown : Movement

unfoldable pub movement_as_str : Movement → String
movement_as_str arriving = "arriving"
movement_as_str departing = "departing"
movement_as_str roaming = "roaming"
movement_as_str unknown = "unknown"

pub record Place : Type 0 where
  pub ap_name : Text
  pub location : Text
  pub edge : Bool

pub record LocationMap : Type 0 where
  pub locations : List (Text × Text)
  pub edge_aps : List Text

module _ (to_lowercase : Text → Text) where
  unfoldable pub key : Text → Text
  key ap = to_lowercase (trim ap)

  add_locations : List (Text × Text) → List (Text × Text) → List (Text × Text)
  add_locations [] m = m
  add_locations ((ap, location) ∷ rest) m =
      add_locations rest (if is_blank location then m else insert (key ap) (trim location) m)

  -- `cfg.locations` and `cfg.edge_aps` of the UniFi configuration.
  unfoldable pub from_unifi : List (Text × Text) → List Text → LocationMap
  unfolding add_locations
  from_unifi locations edge_aps = record {
    locations = add_locations locations [];
    edge_aps = keep_if (λ ap. not (is_empty ap)) (map key edge_aps);
  }

  unfoldable pub is_edge : LocationMap → Text → Bool
  is_edge m ap = contains m.edge_aps (key ap)

  unfoldable pub location_of : LocationMap → Text → Text
  location_of m ap = unwrap_or (lookup (key ap) m.locations) (trim ap)

  unfoldable pub place : LocationMap → Text → Place
  unfolding location_of is_edge
  place m ap = record { ap_name = trim ap; location = location_of m ap; edge = is_edge m ap }

  crossing : Bool → Bool → Movement
  crossing true false = arriving
  crossing false true = departing
  crossing false false = roaming
  crossing true true = roaming

  unfoldable pub movement : LocationMap → Option Text → Text → Movement
  unfolding crossing is_edge
  movement m none current = unknown
  movement m (some previous) current =
      if key previous == key current
      then roaming
      else crossing (is_edge m previous) (is_edge m current)
