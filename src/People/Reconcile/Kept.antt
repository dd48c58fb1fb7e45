-- ===== src/People/Reconcile/Kept.antt =====
-- src/people/mod.rs: what a reconcile leaves of the people, and of the owners of devices.
use netgraspd.Base.{
  false, List, [], ◌∷◌, Option, none, some, Text, ◌==◌, list_eq, nat_eq, bool_eq, option_eq, ◌≡◌,
  refl, Bool-cases, inl, inr, arith, if◌then◌else◌, contains, map, Fresh, is_some, ◌>>=◌, ==_iff,
  bool_beq_iff,
}
use netgraspd.Base.Assoc.{
  lookup, lookup-insert, lookup-remove, Distinct, insert-Distinct, remove-Distinct,
}
use netgraspd.Types.{MacAddr, mac_eq}
use netgraspd.People.{Person, Registry}
use netgraspd.People.Reconcile.{
  edit_name, edit_arrive, edit_depart, edit, known_or_new, take_person, take_people, retain_people,
  or_else, set_or_clear, take_owner, take_owners, reconcile,
}

-- A known person with the columns that the plugin owns from a row, the others as they are, and a
-- new one whole.
abbrev pub taken : Option Person → Person → Person
taken none row = row
taken (some known) row = record known {
  name = row.name;
  notify_arrive = row.notify_arrive;
  notify_depart = row.notify_depart;
}

-- The row of one person in the mirror.
abbrev pub row_of : Text → List Person → Option Person
row_of q [] = none
row_of q (row ∷ rest) = if row.item_id == q then some row else row_of q rest

abbrev pub ids : List Person → List Text
ids = map (λ p. p.item_id)

edit_name-taken : (known row : Person) → (edit_name known row).0 ≡ record known { name = row.name }
unfolding edit_name
edit_name-taken known row = ground (arith, ==_iff known.name row.name)

edit_arrive-taken :
    (known row : Person)
    → (edit_arrive known row).0 ≡ record known { notify_arrive = row.notify_arrive }
unfolding edit_arrive
edit_arrive-taken known row = ground (arith, bool_beq_iff known.notify_arrive row.notify_arrive)

edit_depart-taken :
    (known row : Person)
    → (edit_depart known row).0 ≡ record known { notify_depart = row.notify_depart }
unfolding edit_depart
edit_depart-taken known row = ground (arith, bool_beq_iff known.notify_depart row.notify_depart)

known_or_new-taken : (o : Option Person) (row : Person) → (known_or_new o row).0 ≡ taken o row
unfolding known_or_new edit
known_or_new-taken none row = refl
known_or_new-taken (some known) row =
    rw (edit_name-taken known row) rw (edit_arrive-taken (record known { name = row.name }) row)
      (edit_depart-taken (record known { name = row.name; notify_arrive = row.notify_arrive }) row)

take_person_lem :
    (people : List (Text × Person)) (row : Person) (q : Text)
    → lookup q (take_person people row).0
      ≡ (if row.item_id == q then some (taken (lookup q people) row) else lookup q people)
unfolding take_person
take_person_lem people row q =
    rw (known_or_new-taken (lookup row.item_id people) row) rw
      (lookup-insert row.item_id q (taken (lookup row.item_id people) row) people) ground
      (arith, ==_iff row.item_id q)

abbrev after_row : Option Person → Option Person → Option Person
after_row o none = o
after_row o (some row) = some (taken o row)

row_of-absent :
    (q : Text) (rows : List Person) → contains (ids rows) q ≡ false → row_of q rows ≡ none
row_of-absent q [] h = refl
row_of-absent q (row ∷ rest) h = ground (arith, row_of-absent q rest)

row_of-present : (q : Text) (rows : List Person) → contains (ids rows) q ≡ is_some (row_of q rows)
row_of-present q [] = refl
row_of-present q (row ∷ rest) = ground (arith, row_of-present q rest)

take_people_lem :
    (people : List (Text × Person)) (rows : List Person) (q : Text)
    → Fresh (ids rows)
    → lookup q (take_people people rows).0 ≡ after_row (lookup q people) (row_of q rows)
unfolding take_people
take_people_lem people [] q f = refl
take_people_lem people (row ∷ rest) q f = elim (Bool-cases (row.item_id == q)) [
  | inl e ↦ ground (
    arith,
    take_people_lem (take_person people row).0 rest q f.1,
    take_person_lem people row q,
    row_of-absent q rest,
    ==_iff row.item_id q,
  )
  | inr e ↦
      ground
        (arith, take_people_lem (take_person people row).0 rest q f.1, take_person_lem people row q)
]

retain_people_lem :
    (present : List Text) (people : List (Text × Person)) (q : Text)
    → lookup q (retain_people present people).0
      ≡ (if contains present q then lookup q people else none)
unfolding retain_people lookup
retain_people_lem present [] q = ground arith
retain_people_lem present ((item, p) ∷ people) q = elim (Bool-cases (contains present item)) [
  | inl e ↦ rw e ground (arith, retain_people_lem present people q, ==_iff item q)
  | inr e ↦ rw e ground (arith, retain_people_lem present people q, ==_iff item q)
]

kept_row :
    (o row : Option Person)
    → (if is_some row then after_row o row else none) ≡ (row >>= λ x. some (taken o x))
kept_row o none = refl
kept_row o (some row) = refl

-- A reconcile with at most one row for each person leaves exactly the people of the rows. Somebody
-- known keeps all that the daemon owns of them and takes the name and the two flags of the row;
-- somebody new is taken whole; somebody without a row is dropped.
pub reconcile-people :
    (r : Registry) (rows : List Person) (owners : List (MacAddr × Option Text)) (q : Text)
    → Fresh (ids rows)
    → lookup q (reconcile r rows owners).0.people
      ≡ (row_of q rows >>= λ row. some (taken (lookup q r.people) row))
unfolding reconcile
reconcile-people r rows owners q f =
    rw (retain_people_lem (ids rows) (take_people r.people rows).0 q) rw (row_of-present q rows) rw
      (take_people_lem r.people rows q f) (kept_row (lookup q r.people) (row_of q rows))

set_or_clear_lem :
    (mac j : MacAddr) (wanted : Option Text) (owner : List (MacAddr × Text))
    → Distinct owner
    → Distinct (set_or_clear mac wanted owner)
      × (lookup j (set_or_clear mac wanted owner) ≡ (if mac == j then wanted else lookup j owner))
unfolding set_or_clear
set_or_clear_lem mac j none owner d = (remove-Distinct mac owner d, lookup-remove mac j owner d)
set_or_clear_lem mac j (some item) owner d =
    (insert-Distinct mac item owner d, lookup-insert mac j item owner)

take_owner_lem :
    (config owner : List (MacAddr × Text)) (mac j : MacAddr) (stored : Option Text)
    → Distinct owner
    → Distinct (take_owner config owner (mac, stored)).0
      × (lookup j (take_owner config owner (mac, stored)).0
          ≡ (if mac == j then or_else stored (lookup mac config) else lookup j owner))
unfolding take_owner
take_owner_lem config owner mac j stored d =
    let wanted : Option Text = or_else stored (lookup mac config) in
    elim (Bool-cases (lookup mac owner == wanted)) [
      | inl e ↦ rw e (d, ground (arith, ==_iff (lookup mac owner) wanted, mac_eq.beq_iff mac j))
      | inr e ↦ rw e (set_or_clear_lem mac j wanted owner d)
    ]

-- Who owns a device after a row of the column, or without one.
abbrev pub owner_after : Option (Option Text) → Option Text → Option Text → Option Text
owner_after none config current = current
owner_after (some stored) config current = or_else stored config

take_owners_lem :
    (config owner : List (MacAddr × Text)) (rows : List (MacAddr × Option Text)) (j : MacAddr)
    → Distinct owner
    → Distinct rows
    → Distinct (take_owners config owner rows).0
      × (lookup j (take_owners config owner rows).0
          ≡ owner_after (lookup j rows) (lookup j config) (lookup j owner))
unfolding take_owners Distinct lookup
take_owners_lem config owner [] j d f = (d, refl)
take_owners_lem config owner ((mac, stored) ∷ rest) j d f =
    let (d1, first) = take_owner_lem config owner mac j stored d in
    let (d2, later) =
      take_owners_lem config (take_owner config owner (mac, stored)).0 rest j d1 f.1 in
    (
      d2,
      elim (Bool-cases (mac == j)) [
        | inl e ↦ ground (arith, mac_eq.beq_iff mac j)
        | inr e ↦ ground arith
      ],
    )

-- A reconcile with at most one row for each device gives each device with a row the owner that
-- its row names, or that the configuration names where the row has none, and leaves the owner of
-- every other device. No device has two entries of an owner then, if none had before.
pub reconcile-owner :
    (r : Registry) (rows : List Person) (owners : List (MacAddr × Option Text)) (mac : MacAddr)
    → Distinct r.owner
    → Distinct owners
    → Distinct (reconcile r rows owners).0.owner
      × (lookup mac (reconcile r rows owners).0.owner
          ≡ owner_after (lookup mac owners) (lookup mac r.config_owner) (lookup mac r.owner))
unfolding reconcile
reconcile-owner r rows owners mac d f = take_owners_lem r.config_owner r.owner owners mac d f
