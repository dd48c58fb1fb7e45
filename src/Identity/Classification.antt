-- ===== src/Identity/Classification.antt =====
-- src/identity/classify.rs: what the classifier is given and what it concludes. A confidence is
-- in hundredths.
use netgraspd.Base.{
  ℕ, Bool, false, ◌||◌, not, List, Option, none, some, Text, ◌==◌, list_eq, nat_eq, option_eq,
}
use netgraspd.Types.{MacAddr, Signal}

pub record ClassifyInput : Type 0 where
  pub mac : MacAddr
  pub signals : List Signal
  pub vendor : Option Text
  pub always_on : Bool

pub record Classification : Type 0 where
  pub device_type : Option Text
  pub os_family : Option Text
  pub confidence : ℕ
  pub reason : Option Text

abbrev pub unclassified : Classification
unclassified = record { device_type = none; os_family = none; confidence = 0; reason = none }

abbrev pub always_on_hours : ℕ
always_on_hours = 24

unfoldable pub changed_at_all : Classification → Classification → Bool
changed_at_all c previous =
    not (previous.device_type == c.device_type) || not (previous.os_family == c.os_family)

-- A known value became a different known value.
changed : Option Text → Option Text → Bool
changed none after = false
changed (some b) none = false
changed (some b) (some a) = not (b == a)

unfoldable pub changed_category : Classification → Classification → Bool
unfolding changed
changed_category c previous =
    changed previous.device_type c.device_type || changed previous.os_family c.os_family
