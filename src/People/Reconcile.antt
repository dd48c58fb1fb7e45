-- ===== src/People/Reconcile.antt =====
-- src/people/mod.rs: folding the plugin's half of the tables back in, and building the registry
-- from a roster. A `column=value` pair of an edit is a data type with a constructor for each column.
pub mod Kept
pub mod Again
pub mod Startup
use netgraspd.Base.{
  ℕ, Bool, true, false, ◌&&◌, ◌||◌, not, List, [], ◌∷◌, ◌++◌, Option, none, some, Text, ◌==◌,
  list_eq, nat_eq, bool_eq, option_eq, if◌then◌else◌, contains, any, map,
}
use netgraspd.Base.Assoc.{lookup, insert, remove, contains_key}
use netgraspd.Types.{MacAddr, mac_eq, is_empty}
use netgraspd.People.{Person, Registry}

pub data Field : Type 0 where
  name_is : Text → Field
  notify_arrive_is notify_depart_is : Bool → Field

pub data RegistryChange : Type 0 where
  person_added : Text → Text → RegistryChange
  person_edited : Text → Text → List Field → RegistryChange
  person_removed : Text → Text → RegistryChange
  owner_changed : MacAddr → Option Text → Option Text → RegistryChange

-- The three columns of the plugin.
unfoldable pub edit_name : Person → Person → Person × List Field
edit_name known row =
    if known.name == row.name
    then (known, [])
    else (record known { name = row.name }, name_is row.name ∷ [])

unfoldable pub edit_arrive : Person → Person → Person × List Field
edit_arrive known row = if known.notify_arrive == row.notify_arrive then (known, []) else (
  record known { notify_arrive = row.notify_arrive },
  notify_arrive_is row.notify_arrive ∷ [],
)

unfoldable pub edit_depart : Person → Person → Person × List Field
edit_depart known row = if known.notify_depart == row.notify_depart then (known, []) else (
  record known { notify_depart = row.notify_depart },
  notify_depart_is row.notify_depart ∷ [],
)

edit_changes : Person → List Field → List RegistryChange
edit_changes row [] = []
edit_changes row (f ∷ fields) = person_edited row.item_id row.name (f ∷ fields) ∷ []

unfoldable pub edit : Person → Person → Person × List RegistryChange
unfolding edit_changes
edit known row =
    let named = edit_name known row in
    let arrive = edit_arrive named.0 row in
    let depart = edit_depart arrive.0 row in
    (depart.0, edit_changes row (named.1 ++ (arrive.1 ++ depart.1)))

known_or_new : Option Person → Person → Person × List RegistryChange
known_or_new none row = (row, person_added row.item_id row.name ∷ [])
known_or_new (some known) row = edit known row

-- One person of the mirror.
unfoldable pub take_person :
    List (Text × Person) → Person → List (Text × Person) × List RegistryChange
unfolding known_or_new
take_person people row =
    let taken = known_or_new (lookup row.item_id people) row in
    (insert row.item_id taken.0 people, taken.1)

unfoldable pub take_people :
    List (Text × Person) → List Person → List (Text × Person) × List RegistryChange
take_people people [] = (people, [])
take_people people (row ∷ rest) =
    let first = take_person people row in
    let later = take_people first.0 rest in (later.0, first.1 ++ later.1)

unfoldable pub retain_people :
    List Text → List (Text × Person) → List (Text × Person) × List RegistryChange
retain_people present [] = ([], [])
retain_people present ((item, p) ∷ people) =
    let rest = retain_people present people in
    if contains present item
    then ((item, p) ∷ rest.0, rest.1)
    else (rest.0, person_removed item p.name ∷ rest.1)

-- `Option::or_else`
unfoldable pub or_else : Option Text → Option Text → Option Text
or_else none o = o
or_else (some a) o = some a

set_or_clear : MacAddr → Option Text → List (MacAddr × Text) → List (MacAddr × Text)
set_or_clear mac none owner = remove mac owner
set_or_clear mac (some item) owner = insert mac item owner

-- One row of the column of owners.
unfoldable pub take_owner :
    List (MacAddr × Text)
    → List (MacAddr × Text)
    → MacAddr × Option Text
    → List (MacAddr × Text) × List RegistryChange
unfolding set_or_clear
take_owner config owner (mac, stored) =
    let wanted = or_else stored (lookup mac config) in
    let current = lookup mac owner in
    if current == wanted
    then (owner, [])
    else (set_or_clear mac wanted owner, owner_changed mac current wanted ∷ [])

unfoldable pub take_owners :
    List (MacAddr × Text)
    → List (MacAddr × Text)
    → List (MacAddr × Option Text)
    → List (MacAddr × Text) × List RegistryChange
take_owners config owner [] = (owner, [])
take_owners config owner (row ∷ rest) =
    let first = take_owner config owner row in
    let later = take_owners config first.0 rest in (later.0, first.1 ++ later.1)

unfoldable pub reconcile :
    Registry → List Person → List (MacAddr × Option Text) → Registry × List RegistryChange
reconcile r people owners =
    let taken = take_people r.people people in
    let kept = retain_people (map (λ p. p.item_id) people) taken.0 in
    let owned = take_owners r.config_owner r.owner owners in
    (record r { people = kept.0; owner = owned.0 }, taken.1 ++ (kept.1 ++ owned.1))

unfoldable pub insert_person : Registry → Person → Registry
insert_person r p = record r { people = insert p.item_id p r.people }

-- An owner whose person is not present is remembered anyway.
unfoldable pub set_owner : Registry → MacAddr → Text → Registry
set_owner r mac item = record r { owner = insert mac item r.owner }

unfoldable pub set_config_owner : Registry → MacAddr → Text → Registry
set_config_owner r mac item = record r {
  config_owner = insert mac item r.config_owner;
  owner = insert mac item r.owner;
}

-- `Registry::is_active`
unfoldable pub is_active : Registry → Bool
is_active r = not (is_empty r.people) && any (λ o. contains_key o.1 r.people) r.owner

pub record Roster : Type 0 where
  pub people : List Person
  pub owners : List (MacAddr × Text)
  pub config_owners : List (MacAddr × Text)

insert_people : Registry → List Person → Registry
insert_people r [] = r
insert_people r (p ∷ rest) = insert_people (insert_person r p) rest

-- Owners are kept where their person is in the roster.
set_known :
    (Registry → MacAddr → Text → Registry) → List Text → Registry → List (MacAddr × Text) → Registry
set_known set known r [] = r
set_known set known r ((mac, item) ∷ rest) =
    set_known set known (if contains known item then set r mac item else r) rest

unfoldable pub into_registry : Roster → Registry
unfolding insert_people set_known
into_registry roster =
    let known = map (λ p. p.item_id) roster.people in
    let peopled =
      insert_people (record { people = []; owner = []; config_owner = []; devices = [] })
        roster.people in
    set_known set_owner known (set_known set_config_owner known peopled roster.config_owners)
      roster.owners
