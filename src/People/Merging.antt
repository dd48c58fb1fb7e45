-- ===== src/People/Merging.antt =====
-- src/people/mod.rs: what is written of two outcomes that are folded into one.
use netgraspd.Base.{
  false, ◌||◌, List, [], ◌∷◌, Option, some, Text, ◌==◌, list_eq, nat_eq, ◌≡◌, refl, sym, Bool-cases,
  inl, inr, arith, if◌then◌else◌, Fresh, contains, ==_iff,
}
use netgraspd.Base.Assoc.{lookup, insert, lookup-insert}
use netgraspd.People.{PersonUpdate, Outcome, merge, merge_update, merge_updates}
use netgraspd.People.Presence.Runs.Mirror.{write}

abbrev pub ids : List PersonUpdate → List Text
ids [] = []
ids (u ∷ rest) = u.item_id ∷ ids rest

-- What the writes leave in the row of one person.
abbrev last_of : Text → List PersonUpdate → Option PersonUpdate → Option PersonUpdate
last_of q [] row = row
last_of q (u ∷ rest) row = last_of q rest (if u.item_id == q then some u else row)

lookup-write :
    (q : Text) (us : List PersonUpdate) (rows : List (Text × PersonUpdate))
    → lookup q (write us rows) ≡ last_of q us (lookup q rows)
unfolding write
lookup-write q [] rows = refl
lookup-write q (u ∷ us) rows =
    rw (sym (lookup-insert u.item_id q u rows)) (lookup-write q us (insert u.item_id u rows))

last_of-absent :
    (q : Text) (us : List PersonUpdate) (row : Option PersonUpdate)
    → contains (ids us) q ≡ false
    → last_of q us row ≡ row
last_of-absent q [] row h = refl
last_of-absent q (u ∷ us) row h = ground (arith, last_of-absent q us row)

last_of-merge_update :
    (q : Text) (held : List PersonUpdate) (u : PersonUpdate) (row : Option PersonUpdate)
    → Fresh (ids held)
    → last_of q (merge_update held u) row ≡ (if u.item_id == q then some u else last_of q held row)
unfolding merge_update
last_of-merge_update q [] u row f = refl
last_of-merge_update q (h ∷ held) u row f = elim (Bool-cases (h.item_id == u.item_id)) [
  | inl e ↦
      rw e ground
        (arith, last_of-absent q held (some u), ==_iff h.item_id u.item_id, ==_iff u.item_id q)
  | inr e ↦
      rw e ground
        (arith, last_of-merge_update q held u (if h.item_id == q then some h else row) f.1)
]

contains-merge_update :
    (q : Text) (held : List PersonUpdate) (u : PersonUpdate)
    → contains (ids (merge_update held u)) q ≡ (contains (ids held) q || (u.item_id == q))
unfolding merge_update
contains-merge_update q [] u = ground arith
contains-merge_update q (h ∷ held) u = elim (Bool-cases (h.item_id == u.item_id)) [
  | inl e ↦ rw e ground (arith, ==_iff h.item_id u.item_id)
  | inr e ↦ rw e ground (arith, contains-merge_update q held u)
]

merge_update-Fresh :
    (held : List PersonUpdate) (u : PersonUpdate)
    → Fresh (ids held)
    → Fresh (ids (merge_update held u))
unfolding merge_update
merge_update-Fresh [] u f = (refl, tt)
merge_update-Fresh (h ∷ held) u f = elim (Bool-cases (h.item_id == u.item_id)) [
  | inl e ↦ rw e ground (arith, ==_iff h.item_id u.item_id)
  | inr e ↦ rw e ground (
    arith,
    merge_update-Fresh held u f.1,
    contains-merge_update h.item_id held u,
    ==_iff h.item_id u.item_id,
    ==_iff u.item_id h.item_id,
  )
]

merge_updates_lem :
    (held us : List PersonUpdate) (q : Text) (row : Option PersonUpdate)
    → Fresh (ids held)
    → Fresh (ids (merge_updates held us))
      × (last_of q (merge_updates held us) row ≡ last_of q us (last_of q held row))
unfolding merge_updates
merge_updates_lem held [] q row f = (f, refl)
merge_updates_lem held (u ∷ us) q row f =
    rw (sym (last_of-merge_update q held u row f))
      (merge_updates_lem (merge_update held u) us q row (merge_update-Fresh held u f))

-- Folding an outcome into one that has at most one update of each person leaves at most one of
-- each, and writes the same rows as the updates of the two outcomes one after the other.
pub merge-write :
    (o other : Outcome) (rows : List (Text × PersonUpdate)) (q : Text)
    → Fresh (ids o.updates)
    → Fresh (ids (merge o other).updates)
      × (lookup q (write (merge o other).updates rows)
          ≡ lookup q (write other.updates (write o.updates rows)))
unfolding merge
merge-write o other rows q f =
    let (fresh, same) = merge_updates_lem o.updates other.updates q (lookup q rows) f in
    (
      fresh,
      rw (lookup-write q (merge_updates o.updates other.updates) rows) rw
          (lookup-write q other.updates (write o.updates rows)) rw (lookup-write q o.updates rows)
          same,
    )
