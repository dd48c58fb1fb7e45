-- ===== src/Analyze/IdentityChange.antt =====
-- src/analyze/identity_change.rs: a device that turned into something else. `render` is the JSON
-- text of an alert's details.
use netgraspd.Base.{
  ℕ, ◌*◌, Bool, not, Option, List, [], ◌∷◌, String, Text, if◌then◌else◌, ◌==◌, list_eq, nat_eq, map,
}
use netgraspd.Base.Assoc.{lookup}
use netgraspd.Time.{second}
use netgraspd.Types.Mac.{MacAddr, mac_eq}
use netgraspd.Types.Evidence.{trim}
use netgraspd.Types.Event.{EventPriority, normal, identity_change}
use netgraspd.Config.Duration.{to_ascii_lowercase}
use netgraspd.Identity.Classification.{changed_category, changed_at_all}
use netgraspd.Device.Manager.{Reclassification}
use netgraspd.Device.Manager.Feeds.{SecurityAlert}
use netgraspd.Analyze.Detector.{Context, new_alert, with_interface_if, cooled_down}
use netgraspd.Analyze.RogueDhcp.{record_alert}

abbrev pub change_cooldown : ℕ
change_cooldown = 3_600 * second

abbrev pub max_changed : ℕ
max_changed = 512

pub data Sensitivity : Type 0 where
  category any_change : Sensitivity

unfoldable pub parse_sensitivity : Text → Sensitivity
parse_sensitivity raw =
    if map to_ascii_lowercase (trim raw) == b'a' ∷ b'n' ∷ b'y' ∷ [] then any_change else category

unfoldable pub sensitivity_as_str : Sensitivity → String
sensitivity_as_str category = "category"
sensitivity_as_str any_change = "any"

pub record IdentityChange : Type 0 where
  pub sensitivity : Sensitivity
  pub alerted : List (MacAddr × ℕ)

-- `IdentityChange::new`, of the configured sensitivity.
unfoldable pub new_identity_change : Text → IdentityChange
new_identity_change sensitivity = record {
  sensitivity = parse_sensitivity sensitivity;
  alerted = [];
}

pub record ChangeDetails : Type 0 where
  pub sensitivity : String
  pub category_change : Bool
  pub previous_device_type : Option Text
  pub device_type : Option Text
  pub previous_os_family : Option Text
  pub os_family : Option Text
  pub confidence : ℕ
  pub reason : Option Text

unfoldable pub is_worth : Sensitivity → Reclassification → Bool
is_worth category x = changed_category x.current x.previous
is_worth any_change x = changed_at_all x.current x.previous

module _ (render : ChangeDetails → Text) where
  -- `build_alert`
  unfoldable pub change_alert :
      Reclassification → Sensitivity → Bool → EventPriority → SecurityAlert
  change_alert x s is_category priority = with_interface_if x.interface (
      new_alert identity_change x.mac x.at priority (
        render (record {
          sensitivity = sensitivity_as_str s;
          category_change = is_category;
          previous_device_type = x.previous.device_type;
          device_type = x.current.device_type;
          previous_os_family = x.previous.os_family;
          os_family = x.current.os_family;
          confidence = x.current.confidence;
          reason = x.current.reason;
        })))

  -- `IdentityChange::analyze`, on a reclassification.
  unfoldable pub identity_changed :
      Context → Reclassification → IdentityChange → IdentityChange × List SecurityAlert
  identity_changed c x a =
      if not (is_worth a.sensitivity x)
      then (a, [])
      else if not (cooled_down (lookup x.mac a.alerted) x.at change_cooldown)
      then (a, [])
      else (
        record a { alerted = record_alert max_changed x.mac x.at a.alerted },
        change_alert x a.sensitivity (changed_category x.current x.previous)
              (if changed_category x.current x.previous then c.priority else normal)
            ∷ [],
      )
