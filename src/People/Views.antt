-- ===== src/People/Views.antt =====
-- src/people/mod.rs: what the registry reads off the devices of a person: whether one
-- is online, where the latest is, and the edge it crossed; and the two changes without events.
use netgraspd.Base.{
  ℕ, ◌-◌, ◌*◌, Bool, true, false, ◌&&◌, List, [], ◌∷◌, Option, none, some, Text, ◌==◌, list_eq,
  nat_eq, option_eq, ltb, leb, eqb, is_some, if◌then◌else◌, ◌>>=◌, keep_if, any,
}
use netgraspd.Base.Assoc.{lookup, insert, contains_key}
use netgraspd.Config.Timeouts.{unwrap_or}
use netgraspd.Time.{second}
use netgraspd.Types.{MacAddr, mac_eq}
use netgraspd.People.{Person, DeviceView, default_view, Registry}

-- `TimeDelta::minutes(15)`
abbrev pub edge_evidence_window : ℕ
edge_evidence_window = 15 * 60 * second

-- `HashMap::entry(mac).or_default()`
abbrev pub view_of : Registry → MacAddr → DeviceView
view_of r mac = unwrap_or (lookup mac r.devices) default_view

abbrev pub set_view : Registry → MacAddr → DeviceView → Registry
set_view r mac view = record r { devices = insert mac view r.devices }

-- `Some(person) = self.people.get_mut(item_id)`, written through.
abbrev pub set_person : Registry → Text → Person → Registry
set_person r item p = record r { people = insert item p r.people }

unfoldable pub seen_view : Option DeviceView → List DeviceView → List DeviceView
seen_view none views = views
seen_view (some v) views = v ∷ views

-- The views of the devices that a person owns.
unfoldable pub owned_views :
    List (MacAddr × DeviceView) → Text → List (MacAddr × Text) → List DeviceView
owned_views devices item [] = []
owned_views devices item ((mac, owner) ∷ rest) =
    let views = owned_views devices item rest in
    if owner == item then seen_view (lookup mac devices) views else views

unfoldable pub any_online : Registry → Text → Bool
any_online r item = any (λ v. v.online) (owned_views r.devices item r.owner)

-- The order of strings, by code point.
unfoldable pub text_leb : Text → Text → Bool
text_leb [] ys = true
text_leb (x ∷ xs) [] = false
text_leb (x ∷ xs) (y ∷ ys) = let rest = text_leb xs ys in if eqb x y then rest else ltb x y

-- The order of options, `None` first, on times and on strings.
unfoldable pub time_leb : Option ℕ → Option ℕ → Bool
time_leb none b = true
time_leb (some a) none = false
time_leb (some a) (some b) = leb a b

unfoldable pub place_leb : Option Text → Option Text → Bool
place_leb none b = true
place_leb (some a) none = false
place_leb (some a) (some b) = text_leb a b

-- `a` is not after `b`: by last activity, then by location.
unfoldable pub view_leb : DeviceView → DeviceView → Bool
view_leb a b =
    if a.last_active == b.last_active
    then place_leb a.location b.location
    else time_leb a.last_active b.last_active

unfoldable pub max_from {ℓ} : {A : Type ℓ} → (A → A → Bool) → A → List A → A
max_from le best [] = best
max_from le best (y ∷ ys) = max_from le (if le best y then y else best) ys

-- `Iterator::max_by`, the last of the greatest elements.
unfoldable pub max_by {ℓ} : {A : Type ℓ} → (A → A → Bool) → List A → Option A
max_by le [] = none
max_by le (x ∷ xs) = some (max_from le x xs)

unfoldable pub is_located : DeviceView → Bool
is_located v = v.online && is_some v.location

unfoldable pub location_of_person : Registry → Text → Option Text
location_of_person r item =
    max_by view_leb (keep_if is_located (owned_views r.devices item r.owner)) >>= λ v. v.location

-- `(ap, when)` where the crossing explains a time.
recent : Option (Text × ℕ) → ℕ → Option (Text × ℕ)
recent none time = none
recent (some (ap, crossed)) time =
    if leb crossed time && leb (time - crossed) edge_evidence_window
    then some (ap, crossed)
    else none

unfoldable pub edge_evidence : Registry → MacAddr → ℕ → Option Text
unfolding recent
edge_evidence r mac at =
    recent (lookup mac r.devices >>= λ v. v.last_edge) at >>= λ crossing. some crossing.0

crossings : List DeviceView → List (Text × ℕ)
crossings [] = []
crossings (v ∷ rest) = elim (v.last_active >>= recent v.last_edge) [
  | none ↦ crossings rest
  | some crossing ↦ crossing ∷ crossings rest
]

unfoldable pub edge_evidence_for_person : Registry → Text → Option Text
unfolding crossings recent
edge_evidence_for_person r item =
    max_by (λ a b. leb a.1 b.1) (crossings (owned_views r.devices item r.owner)) >>= λ crossing.
    some crossing.0

-- `Registry::device_seen`
abbrev pub is_later : ℕ → Option ℕ → Bool
is_later at none = true
is_later at (some previous) = ltb previous at

unfoldable pub hear_at : DeviceView → ℕ → DeviceView
hear_at v at = if is_later at v.last_active then record v { last_active = some at } else v

unfoldable pub device_seen : Registry → MacAddr → ℕ → Registry
device_seen r mac at =
    if contains_key mac r.owner then set_view r mac (hear_at (view_of r mac) at) else r

unfoldable pub restore_device : Registry → MacAddr → Bool → ℕ → Registry
restore_device r mac online at =
    set_view r mac (record (view_of r mac) { online = online; last_active = some at })
