-- ===== src/Location/Tests.antt =====
-- A map with one access point at the edge, where the names are in lower case already.
use netgraspd.Base.{◌≡◌, refl, some, Text, [], ◌∷◌, list_eq, nat_eq}
use netgraspd.Location.{LocationMap, movement, departing}

abbrev drive : Text
drive = b'd' ∷ []

abbrev hall : Text
hall = b'h' ∷ []

abbrev house : LocationMap
house = record { locations = []; edge_aps = drive ∷ [] }

abbrev same_text : Text → Text
same_text t = t

leaves : movement same_text house (some hall) drive ≡ departing
unfolding movement netgraspd.Location.key netgraspd.Types.Evidence.trim
    netgraspd.Types.Evidence.is_whitespace
leaves = refl
