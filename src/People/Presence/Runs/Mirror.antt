-- ===== src/People/Presence/Runs/Mirror.antt =====
-- src/people/mod.rs: the rows of `ng_people` that the updates of a run leave behind.
use netgraspd.Base.{
  List, [], ◌∷◌, ◌++◌, some, Text, list_eq, nat_eq, ◌≡◌, refl, sym, ◌∙◌, arith, ==_iff,
}
use netgraspd.Base.Assoc.{lookup, insert, lookup-insert}
use netgraspd.People.{Person, PersonUpdate, update_of, Outcome, Registry}
use netgraspd.People.Views.{set_person}
use netgraspd.People.Presence.{Story}
use netgraspd.People.Presence.Change.{Change, quiet, moved, came, left}
use netgraspd.People.Presence.Runs.{Sighting, apply, run, Caused, apply-Caused}

-- The writes of updates, in order, each to the row of its person.
unfoldable pub write : List PersonUpdate → List (Text × PersonUpdate) → List (Text × PersonUpdate)
write [] rows = rows
write (u ∷ rest) rows = write rest (insert u.item_id u rows)

write-append :
    (us vs : List PersonUpdate) (rows : List (Text × PersonUpdate))
    → write (us ++ vs) rows ≡ write vs (write us rows)
unfolding write
write-append [] vs rows = refl
write-append (u ∷ us) vs rows = write-append us vs (insert u.item_id u rows)

-- People are kept under their own item ids.
unfoldable pub Keyed : Registry → Type 0
Keyed r = (q : Text) (p : Person) → lookup q r.people ≡ some p → p.item_id ≡ q

-- The rows hold what the registry holds of each person.
unfoldable pub Mirrors : List (Text × PersonUpdate) → Registry → Type 0
Mirrors rows r =
    (q : Text) (p : Person) → lookup q r.people ≡ some p → lookup q rows ≡ some (update_of p)

module _ (r : Registry) (rows : List (Text × PersonUpdate)) (k : Keyed r) (m : Mirrors rows r) where
  abbrev Follows : Registry × List PersonUpdate → Type 0
  Follows result = Keyed result.0 × Mirrors (write result.1 rows) result.0

  set_person-Mirrors :
      (item : Text) (p' : Person)
      → p'.item_id ≡ item
      → Mirrors (write (update_of p' ∷ []) rows) (set_person r item p')
  unfolding Mirrors write
  set_person-Mirrors item p' i q x e = ground (
    arith,
    lookup-insert item q p' r.people,
    lookup-insert p'.item_id q (update_of p') rows,
    m q x,
  )

  set_person-Follows :
      (item : Text) (p p' : Person)
      → lookup item r.people ≡ some p
      → p'.item_id ≡ p.item_id
      → Follows (set_person r item p', update_of p' ∷ [])
  unfolding Keyed
  set_person-Follows item p p' h i = (
    λ q x e. ground (arith, lookup-insert item q p' r.people, k q x, k item p h, ==_iff item q),
    set_person-Mirrors item p' (i ∙ k item p h),
  )

  Change-Follows :
      (item : Text) {result : Registry × Outcome}
      → Change r item result
      → Follows (result.0, result.1.updates)
  unfolding write
  Change-Follows item quiet = (k, m)
  Change-Follows item (moved p p' events h s i a) = set_person-Follows item p p' h i
  Change-Follows item (came p p' e h s s' i t n) = set_person-Follows item p p' h i
  Change-Follows item (left p p' e h s s' i t n) = set_person-Follows item p p' h i

module _ (json : Story → Text) where
  apply-Follows :
      (r : Registry) (rows : List (Text × PersonUpdate)) (s : Sighting)
      → Keyed r
      → Mirrors rows r
      → Keyed (apply json r s).0
        × Mirrors (write (apply json r s).1.updates rows) (apply json r s).0
  unfolding Caused Keyed Mirrors
  apply-Follows r rows s k m =
      let (r1, item, people, owner, change) = apply-Caused json r s in
      Change-Follows r1 rows (λ q p e. k q p (rw (sym people) e))
        (λ q p e. m q p (rw (sym people) e)) item change

  -- Where the rows of people mirror the registry, and people are kept under their own item ids,
  -- the rows that the updates of any run of sightings leave mirror the registry after it: the
  -- database never lags behind by a column that the daemon owns.
  pub run-Mirrors :
      (ss : List Sighting) (r : Registry) (rows : List (Text × PersonUpdate))
      → Keyed r
      → Mirrors rows r
      → Mirrors (write (run json r ss).updates rows) (run json r ss).registry
  unfolding run write
  run-Mirrors [] r rows k m = m
  run-Mirrors (s ∷ rest) r rows k m =
      let (k', m') = apply-Follows r rows s k m in
      rw (write-append (apply json r s).1.updates (run json (apply json r s).0 rest).updates rows)
        (run-Mirrors rest (apply json r s).0 (write (apply json r s).1.updates rows) k' m')
