-- ===== src/People/Reconcile/Again.antt =====
-- src/people/mod.rs: a reconcile with what was just reconciled.
use netgraspd.Base.{
  false, List, [], ◌∷◌, Option, none, some, Text, list_eq, nat_eq, bool_eq, option_eq, ◌≡◌, refl,
  ◌∙◌, Bool-cases, inl, inr, arith, contains, Fresh, ==_iff, ==_refl, ==_iff, bool_beq_iff, All,
}
use netgraspd.Base.Assoc.{lookup, insert-same, Distinct}
use netgraspd.Types.{MacAddr, mac_eq}
use netgraspd.People.{Person, Registry}
use netgraspd.People.Reconcile.{
  edit_name, edit_arrive, edit_depart, edit, edit_changes, known_or_new, take_person, take_people,
  retain_people, or_else, take_owner, take_owners, reconcile,
}
use netgraspd.People.Reconcile.Kept.{taken, ids, row_of, reconcile-people, reconcile-owner}

-- A person with the columns of a row.
abbrev Agrees : Person → Person → Type 0
Agrees k row =
    (k.name ≡ row.name)
    × (k.notify_arrive ≡ row.notify_arrive)
    × (k.notify_depart ≡ row.notify_depart)

edit-same : (k row : Person) → Agrees k row → edit k row ≡ (k, [])
unfolding edit edit_name edit_arrive edit_depart edit_changes
edit-same k row (n, a, d) =
    rw ((==_iff k.name row.name).1 n) rw ((bool_beq_iff k.notify_arrive row.notify_arrive).1 a) rw
      ((bool_beq_iff k.notify_depart row.notify_depart).1 d) refl

abbrev Knows : List (Text × Person) → Person → Type 0
Knows people row = (k : Person) × (lookup row.item_id people ≡ some k) × Agrees k row

take_person-same :
    (people : List (Text × Person)) (row : Person)
    → Knows people row
    → take_person people row ≡ (people, [])
unfolding take_person known_or_new
take_person-same people row (k, found, agrees) =
    rw found rw (edit-same k row agrees) rw (insert-same row.item_id k people found) refl

take_people-same :
    (people : List (Text × Person)) (rows : List Person)
    → All (Knows people) rows
    → take_people people rows ≡ (people, [])
unfolding take_people
take_people-same people [] h = refl
take_people-same people (row ∷ rest) h =
    rw (take_person-same people row h.0) rw (take_people-same people rest h.1) refl

retain_people-again :
    (present : List Text) (people : List (Text × Person))
    → retain_people present (retain_people present people).0
      ≡ ((retain_people present people).0, [])
unfolding retain_people
retain_people-again present [] = refl
retain_people-again present ((item, p) ∷ people) = elim (Bool-cases (contains present item)) [
  | inl e ↦ rw e rw e rw (retain_people-again present people) refl
  | inr e ↦ rw e (retain_people-again present people)
]

Holds : List (MacAddr × Text) → List (MacAddr × Text) → MacAddr × Option Text → Type 0
Holds config owner (mac, stored) = lookup mac owner ≡ or_else stored (lookup mac config)

take_owners-same :
    (config owner : List (MacAddr × Text)) (rows : List (MacAddr × Option Text))
    → All (Holds config owner) rows
    → take_owners config owner rows ≡ (owner, [])
unfolding take_owners take_owner Holds
take_owners-same config owner [] h = refl
take_owners-same config owner ((mac, stored) ∷ rest) h =
    rw ((==_iff (lookup mac owner) (or_else stored (lookup mac config))).1 h.0) rw
      (take_owners-same config owner rest h.1) refl

-- The row of a person among rows that are all of different people.
skip_row :
    (row : Person) (rows xs : List Person)
    → contains (ids xs) row.item_id ≡ false
    → All (λ x. row_of x.item_id rows ≡ some x) xs
    → All (λ x. row_of x.item_id (row ∷ rows) ≡ some x) xs
skip_row row rows [] h a = tt
skip_row row rows (x ∷ xs) h a = (
  ground (arith, a.0, ==_iff row.item_id x.item_id, ==_iff x.item_id row.item_id),
  skip_row row rows xs (ground arith) a.1,
)

row_of-own :
    (rows : List Person) → Fresh (ids rows) → All (λ x. row_of x.item_id rows ≡ some x) rows
row_of-own [] f = tt
row_of-own (row ∷ rest) f =
    (rw (==_refl row.item_id) refl, skip_row row rest rest f.0 (row_of-own rest f.1))

skip_owner :
    (mac : MacAddr) (o : Option Text) (rows xs : List (MacAddr × Option Text))
    → lookup mac xs ≡ none
    → All (λ x. lookup x.0 rows ≡ some x.1) xs
    → All (λ x. lookup x.0 ((mac, o) ∷ rows) ≡ some x.1) xs
unfolding lookup
skip_owner mac o rows [] h a = tt
skip_owner mac o rows ((j, w) ∷ xs) h a = (
  ground (arith, a.0, mac_eq.beq_iff mac j, mac_eq.beq_iff j mac),
  skip_owner mac o rows xs (ground arith) a.1,
)

lookup-own :
    (rows : List (MacAddr × Option Text))
    → Distinct rows
    → All (λ x. lookup x.0 rows ≡ some x.1) rows
unfolding lookup Distinct
lookup-own [] d = tt
lookup-own ((mac, o) ∷ rest) d =
    (rw (==_refl mac) refl, skip_owner mac o rest rest d.0 (lookup-own rest d.1))

module _ (r : Registry) (rows : List Person) (owners : List (MacAddr × Option Text))
    (f : Fresh (ids rows)) (d : Distinct r.owner) (o : Distinct owners) where
  reconcile-Knows :
      (xs : List Person)
      → All (λ x. row_of x.item_id rows ≡ some x) xs
      → All (Knows (reconcile r rows owners).0.people) xs
  reconcile-Knows [] a = tt
  reconcile-Knows (x ∷ xs) a = (
    (
      taken (lookup x.item_id r.people) x,
      reconcile-people r rows owners x.item_id f ∙ rw (a.0) refl,
      agrees (lookup x.item_id r.people) x,
    ),
    reconcile-Knows xs a.1,
  )
    where
      agrees : (old : Option Person) (row : Person) → Agrees (taken old row) row
      agrees none row = (refl, refl, refl)
      agrees (some k) row = (refl, refl, refl)

  reconcile-Holds :
      (xs : List (MacAddr × Option Text))
      → All (λ x. lookup x.0 owners ≡ some x.1) xs
      → All (Holds r.config_owner (reconcile r rows owners).0.owner) xs
  unfolding Holds
  reconcile-Holds [] a = tt
  reconcile-Holds ((mac, stored) ∷ xs) a =
      ((reconcile-owner r rows owners mac d o).1 ∙ rw (a.0) refl, reconcile-Holds xs a.1)

  -- A second reconcile with the same rows, at most one for each person and for each device, reports
  -- no change and leaves the registry as the first one left it.
  pub reconcile-again :
      reconcile (reconcile r rows owners).0 rows owners ≡ ((reconcile r rows owners).0, [])
  unfolding reconcile
  reconcile-again =
      let people : List (Text × Person) = (take_people r.people rows).0 in
      let kept : List (Text × Person) = (retain_people (ids rows) people).0 in
      let owner : List (MacAddr × Text) = (take_owners r.config_owner r.owner owners).0 in
      rw (take_people-same kept rows (reconcile-Knows rows (row_of-own rows f))) rw
        (retain_people-again (ids rows) people) rw
        (take_owners-same r.config_owner owner owners
          (reconcile-Holds owners (lookup-own owners o)))
        refl
