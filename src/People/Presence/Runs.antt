-- ===== src/People/Presence/Runs.antt =====
-- src/people/mod.rs: runs of the operations that devices cause, as the daemon calls them, and what
-- their events and their rows tell a reader.
pub mod Replay
pub mod Mirror
use netgraspd.Base.{
  ℕ, Bool, List, [], ◌∷◌, ◌++◌, Option, none, some, Text, ◌≡◌, refl, sym, ◌∙◌, Option-cases, inl,
  inr, list_eq, nat_eq, subst, if◌then◌else◌, true, false,
}
use netgraspd.Base.Assoc.{lookup, Distinct, contains_key}
use netgraspd.Location.{Place, Movement}
use netgraspd.Types.{MacAddr, mac_eq}
use netgraspd.People.{Outcome, nothing, Registry, PersonEvent, PersonUpdate}
use netgraspd.People.Views.{view_of, set_view, device_seen, hear_at}
use netgraspd.People.Presence.{
  Story, device_online, device_offline, device_moved, online_view, offline_view, placed_view,
  online_owned, offline_owned, moved_owned,
}
use netgraspd.People.Presence.Change.{
  Change, quiet, Change-frame, device_online-Change, device_offline-Change, device_moved-Change,
}
use netgraspd.People.Presence.InStep.{InStep}
use netgraspd.People.Presence.InStep.Kept.{
  device_seen-InStep, device_online-InStep, device_offline-InStep, device_moved-InStep,
}

pub data Sighting : Type 0 where
  heard came_online went_offline : MacAddr → ℕ → Sighting
  moved_to : MacAddr → Place → Movement → ℕ → Sighting

-- The registry, the events and the updates of a run.
pub record Log : Type 0 where
  pub registry : Registry
  pub events : List PersonEvent
  pub updates : List PersonUpdate

module _ (json : Story → Text) where
  unfoldable pub apply : Registry → Sighting → Registry × Outcome
  apply r (heard mac at) = (device_seen r mac at, nothing)
  apply r (came_online mac at) = device_online json r mac at
  apply r (went_offline mac at) = device_offline json r mac at
  apply r (moved_to mac place movement at) = device_moved json r mac place movement at

  unfoldable pub run : Registry → List Sighting → Log
  run r [] = record { registry = r; events = []; updates = [] }
  run r (s ∷ rest) =
      let (r1, o) = apply r s in
      let later = run r1 rest in
      record {
        registry = later.registry;
        events = o.events ++ later.events;
        updates = o.updates ++ later.updates;
      }

  -- Every operation is a change to one person, on a registry whose people are as before.
  pub Caused : Registry → Registry × Outcome → Type 0
  Caused r result =
      (r1 : Registry) × (item : Text) × (r1.people ≡ r.people)
      × (r1.owner ≡ r.owner)
      × Change r1 item result

  online_owned-Caused :
      (r : Registry) (mac : MacAddr) (at : ℕ) (o : Option Text)
      → lookup mac r.owner ≡ o
      → Caused r (device_online json r mac at)
  unfolding Caused device_online online_owned
  online_owned-Caused r mac at none h = rw h (r, [], refl, refl, quiet)
  online_owned-Caused r mac at (some item) h = (
    set_view r mac (online_view (view_of r mac) at),
    item,
    refl,
    refl,
    device_online-Change json r mac at item h,
  )

  offline_owned-Caused :
      (r : Registry) (mac : MacAddr) (at : ℕ) (o : Option Text)
      → lookup mac r.owner ≡ o
      → Caused r (device_offline json r mac at)
  unfolding Caused device_offline offline_owned
  offline_owned-Caused r mac at none h = rw h (r, [], refl, refl, quiet)
  offline_owned-Caused r mac at (some item) h = (
    set_view r mac (offline_view (view_of r mac)),
    item,
    refl,
    refl,
    device_offline-Change json r mac at item h,
  )

  moved_owned-Caused :
      (r : Registry) (mac : MacAddr) (place : Place) (movement : Movement) (at : ℕ)
      (o : Option Text)
      → lookup mac r.owner ≡ o
      → Caused r (device_moved json r mac place movement at)
  unfolding Caused device_moved moved_owned
  moved_owned-Caused r mac place movement at none h = rw h (r, [], refl, refl, quiet)
  moved_owned-Caused r mac place movement at (some item) h = (
    set_view r mac (placed_view (view_of r mac) place at),
    item,
    refl,
    refl,
    device_moved-Change json r mac at item h place movement,
  )

  choose_view-Caused :
      (b : Bool) (r r1 : Registry)
      → r1.people ≡ r.people
      → r1.owner ≡ r.owner
      → Caused r (if b then r1 else r, nothing)
  unfolding Caused
  choose_view-Caused true r r1 h k = (r1, [], h, k, quiet)
  choose_view-Caused false r r1 h k = (r, [], refl, refl, quiet)

  pub apply-Caused : (r : Registry) (s : Sighting) → Caused r (apply r s)
  unfolding apply device_seen
  apply-Caused r (heard mac at) =
      choose_view-Caused (contains_key mac r.owner) r (set_view r mac (hear_at (view_of r mac) at))
        refl refl
  apply-Caused r (came_online mac at) = online_owned-Caused r mac at (lookup mac r.owner) refl
  apply-Caused r (went_offline mac at) = offline_owned-Caused r mac at (lookup mac r.owner) refl
  apply-Caused r (moved_to mac place movement at) =
      moved_owned-Caused r mac place movement at (lookup mac r.owner) refl

  apply-owner : (r : Registry) (s : Sighting) → (apply r s).0.owner ≡ r.owner
  unfolding Caused
  apply-owner r s = let c = apply-Caused r s in (Change-frame c.0 c.1 c.4).0 ∙ c.3

  apply-InStep : (r : Registry) (s : Sighting) → Distinct r.owner → InStep r → InStep (apply r s).0
  unfolding apply
  apply-InStep r (heard mac at) d i = device_seen-InStep json r d i mac at
  apply-InStep r (came_online mac at) d i =
      device_online-InStep json r d i mac (lookup mac r.owner) at refl
  apply-InStep r (went_offline mac at) d i =
      device_offline-InStep json r d i mac (lookup mac r.owner) at refl
  apply-InStep r (moved_to mac place movement at) d i =
      device_moved-InStep json r d i mac (lookup mac r.owner) place movement at refl

  -- A registry in which each person is home exactly while a device that they own is online, and in
  -- which no device has two entries of an owner, is still in step after any run of sightings.
  pub run-InStep :
      (ss : List Sighting) (r : Registry) → Distinct r.owner → InStep r → InStep (run r ss).registry
  unfolding run
  run-InStep [] r d i = i
  run-InStep (s ∷ rest) r d i =
      run-InStep rest (apply r s).0 (subst Distinct (sym (apply-owner r s)) d)
        (apply-InStep r s d i)
