-- ===== src/Location/Crossing.antt =====
-- What a crossing reads as, and from which side.
use netgraspd.Base.{
  true, false, ◌≡◌, refl, ◌↔◌, Option, some, none, Text, list_eq, nat_eq, arith, list_beq_iff,
}
use netgraspd.Types.{trim}
use netgraspd.Location.{LocationMap, arriving, departing, is_edge, key, movement}

-- A crossing is an arrival exactly when its reverse is a departure: walking back along the same
-- two access points never reads as a second arrival.
pub movement_reverse :
    (to_lowercase : Text → Text) (m : LocationMap) (a b : Text)
    → (movement to_lowercase m (some a) b ≡ arriving)
      ↔ (movement to_lowercase m (some b) a ≡ departing)
unfolding movement key
movement_reverse to_lowercase m a b = ground (
  arith,
  list_beq_iff (to_lowercase (trim a)) (to_lowercase (trim b)),
  list_beq_iff (to_lowercase (trim b)) (to_lowercase (trim a)),
)

-- A crossing is an arrival exactly when the device was on an edge access point before and is on
-- an interior one now.
pub movement-arriving_iff :
    (to_lowercase : Text → Text) (m : LocationMap) (previous : Option Text) (current : Text)
    → (movement to_lowercase m previous current ≡ arriving) ↔ (
        (p : Text) × (previous ≡ some p)
        × (is_edge to_lowercase m p ≡ true)
        × (is_edge to_lowercase m current ≡ false))
unfolding movement is_edge key
movement-arriving_iff to_lowercase m none current =
    (λ h. absurd (ground arith), λ t. absurd (ground arith))
movement-arriving_iff to_lowercase m (some p) current = (
  λ h. (p, refl, ground arith, ground arith),
  λ t. ground (arith, list_beq_iff (to_lowercase (trim p)) (to_lowercase (trim current))),
)
