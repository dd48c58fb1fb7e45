-- ===== src/People/Presence/Change.antt =====
-- src/people/mod.rs: the four ways in which a device changes its owner, as a step relation, and
-- which of them each operation takes.
use netgraspd.Base.{
  ℕ, false, not, ◌||◌, List, [], ◌∷◌, Option, none, some, Text, ◌==◌, list_eq, nat_eq, option_eq,
  ◌≡◌, refl, Bool-cases, inl, inr, arith, All,
}
use netgraspd.Base.Assoc.{lookup, lookup-insert, contains_key}
use netgraspd.Location.{Place, Movement}
use netgraspd.Types.{MacAddr, mac_eq}
use netgraspd.Types.Event.{person_arrived, person_departed, person_location_changed}
use netgraspd.People.{
  PersonState, home, away, is_home, Person, update_of, PersonEvent, Outcome, nothing, merge,
  merge_updates, merge_update, Registry,
}
use netgraspd.People.Views.{view_of, set_view, set_person, any_online, location_of_person}
use netgraspd.People.Presence.{
  Story, relocate, refresh_known, refresh_location, merged, arrive, online_for, device_online,
  depart, offline_for, device_offline, device_moved, location_events, online_view, offline_view,
  placed_view, arrived, departed,
}

-- What a departure does not look like, nor an arrival.
abbrev pub IsMove : PersonEvent → Type 0
IsMove e = e.event_type ≡ person_location_changed

pub data Change (r : Registry) (item : Text) : Registry × Outcome → Type 0 where
  quiet : Change r item (r, nothing)
  moved :
      (p p' : Person) (events : List PersonEvent)
      → lookup item r.people ≡ some p
      → p'.state ≡ p.state
      → p'.item_id ≡ p.item_id
      → All IsMove events
      → Change r item
          (set_person r item p', record { events = events; updates = update_of p' ∷ [] })
  came :
      (p p' : Person) (e : PersonEvent)
      → lookup item r.people ≡ some p
      → p.state ≡ away
      → p'.state ≡ home
      → p'.item_id ≡ p.item_id
      → e.event_type ≡ person_arrived
      → e.item_id ≡ item
      → Change r item
          (set_person r item p', record { events = e ∷ []; updates = update_of p' ∷ [] })
  left :
      (p p' : Person) (e : PersonEvent)
      → lookup item r.people ≡ some p
      → p.state ≡ home
      → p'.state ≡ away
      → p'.item_id ≡ p.item_id
      → e.event_type ≡ person_departed
      → e.item_id ≡ item
      → Change r item
          (set_person r item p', record { events = e ∷ []; updates = update_of p' ∷ [] })

module _ (json : Story → Text) where
  location_events-IsMove :
      (p : Person) (item : Text) (trigger : MacAddr) (location : Option Text) (at : ℕ)
      → All IsMove (location_events json p item trigger location at)
  unfolding location_events
  location_events-IsMove p item trigger none at = tt
  location_events-IsMove p item trigger (some place) at = (refl, tt)

  refresh_known-Change :
      (o : Option Person) (r : Registry) (item : Text) (trigger : MacAddr) (at : ℕ)
      → lookup item r.people ≡ o
      → Change r item (refresh_known json o r item trigger at)
  unfolding refresh_known relocate
  refresh_known-Change none r item trigger at h = quiet
  refresh_known-Change (some p) r item trigger at h =
      elim (Bool-cases (not (is_home p.state) || p.current_location == location_of_person r item)) [
        | inl e ↦ rw e quiet
        | inr e ↦ rw e (
            moved p (record p { current_location = location_of_person r item })
              (location_events json p item trigger (location_of_person r item) at) h refl refl
              (location_events-IsMove p item trigger (location_of_person r item) at))
      ]

  refresh_location-Change :
      (r : Registry) (item : Text) (trigger : MacAddr) (at : ℕ)
      → Change r item (refresh_location json r item trigger at)
  unfolding refresh_location
  refresh_location-Change r item trigger at =
      refresh_known-Change (lookup item r.people) r item trigger at refl

  merged-Change :
      (r : Registry) (item : Text) {result : Registry × Outcome}
      → Change r item result
      → Change r item (merged json result)
  unfolding merged merge merge_updates merge_update
  merged-Change r item quiet = quiet
  merged-Change r item (moved p p' events h s i m) = moved p p' events h s i m
  merged-Change r item (came p p' e h s s' i t n) = came p p' e h s s' i t n
  merged-Change r item (left p p' e h s s' i t n) = left p p' e h s s' i t n

  arrive-Change :
      (s : PersonState) (p : Person) (r : Registry) (item : Text) (mac : MacAddr) (at : ℕ)
      → lookup item r.people ≡ some p
      → p.state ≡ s
      → Change r item (arrive json s p r item mac at)
  unfolding arrive arrived
  arrive-Change home p r item mac at h s =
      merged-Change r item (refresh_location-Change r item mac at)
  arrive-Change away p r item mac at h s =
      came p (arrived p (location_of_person r item) at) _ h s refl refl refl refl

  online_for-Change :
      (o : Option Person) (r : Registry) (item : Text) (mac : MacAddr) (at : ℕ)
      → lookup item r.people ≡ o
      → Change r item (online_for json o r item mac at)
  unfolding online_for
  online_for-Change none r item mac at h = quiet
  online_for-Change (some p) r item mac at h = arrive-Change p.state p r item mac at h refl

  depart-Change :
      (s : PersonState) (p : Person) (r : Registry) (item : Text) (mac : MacAddr) (at : ℕ)
      → lookup item r.people ≡ some p
      → p.state ≡ s
      → Change r item (depart json s p r item mac at)
  unfolding depart departed
  depart-Change away p r item mac at h s = quiet
  depart-Change home p r item mac at h s = left p (departed p at) _ h s refl refl refl refl

  offline_for-Change :
      (o : Option Person) (r : Registry) (item : Text) (mac : MacAddr) (at : ℕ)
      → lookup item r.people ≡ o
      → Change r item (offline_for json o r item mac at)
  unfolding offline_for
  offline_for-Change none r item mac at h = quiet
  offline_for-Change (some p) r item mac at h = elim (Bool-cases (any_online r item)) [
    | inl e ↦ rw e (merged-Change r item (refresh_location-Change r item mac at))
    | inr e ↦ rw e (depart-Change p.state p r item mac at h refl)
  ]

  module _ (r : Registry) (mac : MacAddr) (at : ℕ) (item : Text)
      (owned : lookup mac r.owner ≡ some item) where
    pub device_online-Change :
        Change (set_view r mac (online_view (view_of r mac) at)) item (device_online json r mac at)
    unfolding device_online
    device_online-Change = rw owned (
        online_for-Change (lookup item r.people) (set_view r mac (online_view (view_of r mac) at))
          item mac at refl)

    pub device_offline-Change :
        Change (set_view r mac (offline_view (view_of r mac))) item (device_offline json r mac at)
    unfolding device_offline
    device_offline-Change = rw owned (
        offline_for-Change (lookup item r.people) (set_view r mac (offline_view (view_of r mac)))
          item mac at refl)

    pub device_moved-Change :
        (place : Place) (movement : Movement)
        → Change
            (set_view r mac (placed_view (view_of r mac) place at))
            item
            (device_moved json r mac place movement at)
    unfolding device_moved
    device_moved-Change place movement = elim (Bool-cases (contains_key item r.people)) [
      | inl e ↦ rw owned rw e (
          refresh_location-Change (set_view r mac (placed_view (view_of r mac) place at)) item mac
            at)
      | inr e ↦ rw owned rw e quiet
    ]

module _ (r : Registry) (item : Text) where
  -- A change to a person leaves the devices and their owners alone.
  pub Change-frame :
      {result : Registry × Outcome}
      → Change r item result
      → (result.0.owner ≡ r.owner) × (result.0.devices ≡ r.devices)
  Change-frame quiet = (refl, refl)
  Change-frame (moved p p' events h s i m) = (refl, refl)
  Change-frame (came p p' e h s s' i t n) = (refl, refl)
  Change-frame (left p p' e h s s' i t n) = (refl, refl)

  -- And the other people.
  pub Change-others :
      (q : Text) {result : Registry × Outcome}
      → Change r item result
      → (item == q) ≡ false
      → lookup q result.0.people ≡ lookup q r.people
  Change-others q quiet n = refl
  Change-others q (moved p p' events h s i m) n = ground (arith, lookup-insert item q p' r.people)
  Change-others q (came p p' e h s s' i t k) n = ground (arith, lookup-insert item q p' r.people)
  Change-others q (left p p' e h s s' i t k) n = ground (arith, lookup-insert item q p' r.people)
