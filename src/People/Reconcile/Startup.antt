-- ===== src/People/Reconcile/Startup.antt =====
-- src/people/mod.rs: the registry that a roster makes is one on which the runs are specified.
use netgraspd.Base.{
  Bool, true, false, List, [], ◌∷◌, some, Text, list_eq, nat_eq, ◌≡◌, refl, ◌∙◌, Bool-cases, inl,
  inr, arith, if◌then◌else◌, contains, map, ==_iff, subst,
}
use netgraspd.Base.Assoc.{lookup, insert, lookup-insert, Distinct, insert-Distinct}
use netgraspd.Types.{MacAddr, mac_eq}
use netgraspd.People.{Person, Registry}
use netgraspd.People.Reconcile.{
  insert_person, insert_people, set_owner, set_config_owner, set_known, Roster, into_registry,
}
use netgraspd.People.Presence.Runs.Mirror.{Keyed}

-- One owner of each device, somebody known.
unfoldable pub Owned : List Text → Registry → Type 0
Owned known r =
    Distinct r.owner
    × ((mac : MacAddr) (item : Text) → lookup mac r.owner ≡ some item → contains known item ≡ true)

insert_person-Keyed : (p : Person) (r : Registry) → Keyed r → Keyed (insert_person r p)
unfolding Keyed insert_person
insert_person-Keyed p r k q x e =
    ground (arith, lookup-insert p.item_id q p r.people, k q x, ==_iff p.item_id q)

insert_people-Keyed : (ps : List Person) (r : Registry) → Keyed r → Keyed (insert_people r ps)
unfolding insert_people
insert_people-Keyed [] r k = k
insert_people-Keyed (p ∷ rest) r k =
    insert_people-Keyed rest (insert_person r p) (insert_person-Keyed p r k)

insert_people-owner : (ps : List Person) (r : Registry) → (insert_people r ps).owner ≡ r.owner
unfolding insert_people insert_person
insert_people-owner [] r = refl
insert_people-owner (p ∷ rest) r = insert_people-owner rest (insert_person r p)

-- What both ways of recording an owner do to the map of owners, and to the people.
abbrev Sets : (Registry → MacAddr → Text → Registry) → Type 0
Sets set =
    (r : Registry) (mac : MacAddr) (item : Text)
    → ((set r mac item).owner ≡ insert mac item r.owner) × ((set r mac item).people ≡ r.people)

module _ (set : Registry → MacAddr → Text → Registry) (sets : Sets set) (known : List Text) where
  set-Owned :
      (r : Registry) (mac : MacAddr) (item : Text)
      → contains known item ≡ true
      → Owned known r
      → Owned known (set r mac item)
  unfolding Owned
  set-Owned r mac item h (d, o) = rw ((sets r mac item).0) (
    insert-Distinct mac item r.owner d,
    λ j owner e. ground (arith, lookup-insert mac j item r.owner, o j owner),
  )

  set_known-Owned :
      (os : List (MacAddr × Text)) (r : Registry)
      → Owned known r
      → Owned known (set_known set known r os)
  unfolding set_known
  set_known-Owned [] r h = h
  set_known-Owned ((mac, item) ∷ rest) r h = elim (Bool-cases (contains known item)) [
    | inl e ↦ rw e (set_known-Owned rest (set r mac item) (set-Owned r mac item e h))
    | inr e ↦ rw e (set_known-Owned rest r h)
  ]

  set_if-people :
      (b : Bool) (r : Registry) (mac : MacAddr) (item : Text)
      → (if b then set r mac item else r).people ≡ r.people
  set_if-people true r mac item = (sets r mac item).1
  set_if-people false r mac item = refl

  set_known-people :
      (os : List (MacAddr × Text)) (r : Registry) → (set_known set known r os).people ≡ r.people
  unfolding set_known
  set_known-people [] r = refl
  set_known-people ((mac, item) ∷ rest) r =
      set_known-people rest (if contains known item then set r mac item else r)
      ∙ set_if-people (contains known item) r mac item

set_owner-Sets : Sets set_owner
unfolding set_owner
set_owner-Sets r mac item = (refl, refl)

set_config_owner-Sets : Sets set_config_owner
unfolding set_config_owner
set_config_owner-Sets r mac item = (refl, refl)

abbrev empty : Registry
empty = record { people = []; owner = []; config_owner = []; devices = [] }

empty-Owned : (known : List Text) → Owned known empty
unfolding Owned Distinct lookup
empty-Owned known = (tt, λ mac item e. absurd (ground arith))

empty-Keyed : Keyed empty
unfolding Keyed lookup
empty-Keyed q p e = absurd (ground arith)

Keyed-people : (r s : Registry) → s.people ≡ r.people → Keyed r → Keyed s
unfolding Keyed
Keyed-people r s h k q p e = k q p (subst (λ m. lookup q m ≡ some p) h e)

-- The registry that a roster makes keeps people under their own item ids, has one owner of each
-- device, and no owner who is not one of the people of the roster.
pub into_registry-Owned :
    (roster : Roster)
    → Keyed (into_registry roster)
      × Distinct (into_registry roster).owner
      × ((mac : MacAddr) (item : Text)
          → lookup mac (into_registry roster).owner ≡ some item
          → contains (map (λ p. p.item_id) roster.people) item ≡ true)
unfolding into_registry Owned
into_registry-Owned roster =
    let known : List Text = map (λ p. p.item_id) roster.people in
    let peopled : Registry = insert_people empty roster.people in
    let configured : Registry = set_known set_config_owner known peopled roster.config_owners in
    let owned = set_known-Owned set_owner set_owner-Sets known roster.owners configured (
      set_known-Owned set_config_owner set_config_owner-Sets known roster.config_owners peopled
        (rw (insert_people-owner roster.people empty) (empty-Owned known))) in
    (
      Keyed-people peopled (set_known set_owner known configured roster.owners)
          (set_known-people set_owner set_owner-Sets known roster.owners configured
            ∙ set_known-people set_config_owner set_config_owner-Sets known roster.config_owners
                peopled)
          (insert_people-Keyed roster.people empty empty-Keyed),
      owned.0,
      owned.1,
    )
