-- ===== src/People/Tests.antt =====
-- Two people: one with a phone and a laptop, who comes home through the driveway and leaves again.
use netgraspd.Base.{
  ℕ, ◌≡◌, refl, true, false, List, [], ◌∷◌, Option, none, some, Text, ◌>>=◌, arith, ==_iff, Fresh,
  list_eq, nat_eq,
}
use netgraspd.Base.Assoc.{lookup, Distinct}
use netgraspd.Location.{Place, arriving}
use netgraspd.Types.{MacAddr, mac_eq}
use netgraspd.People.{
  Person, PersonState, home, away, Registry, PersonUpdate, update_of, DeviceView,
}
use netgraspd.People.Views.{
  time_leb, is_located, location_of_person, any_online, owned_views, seen_view,
}
use netgraspd.People.Presence.{Story}
use netgraspd.People.Presence.InStep.{InStep, person_state}
use netgraspd.People.Presence.Runs.{
  Sighting, came_online, went_offline, moved_to, heard, run, run-InStep,
}
use netgraspd.People.Presence.Runs.Replay.{follow, follow-run}
use netgraspd.People.Presence.Runs.Mirror.{write, Keyed, Mirrors, run-Mirrors}
use netgraspd.People.Latest.{location_of_person_lem}
use netgraspd.People.Reconcile.{reconcile}
use netgraspd.People.Reconcile.Kept.{taken, row_of, reconcile-people}
use netgraspd.People.Reconcile.Again.{reconcile-again}

abbrev mac_at : ℕ → MacAddr
mac_at n = record { o0 = 60; o1 = 34; o2 = 251; o3 = 0; o4 = 0; o5 = n }

abbrev ann : Text
ann = 1 ∷ []

abbrev bob : Text
bob = 2 ∷ []

abbrev person : Text → Person
person item = record {
  item_id = item;
  name = item;
  notify_arrive = true;
  notify_depart = false;
  state = away;
  current_location = none;
  last_arrived_at = none;
  last_departed_at = none;
}

abbrev household : Registry
household = record {
  people = (ann, person ann) ∷ ((bob, person bob) ∷ []);
  owner = (mac_at 1, ann) ∷ ((mac_at 2, ann) ∷ ((mac_at 3, bob) ∷ []));
  config_owner = (mac_at 3, bob) ∷ [];
  devices = [];
}

abbrev driveway : Place
driveway = record { ap_name = 7 ∷ []; location = 7 ∷ []; edge = true }

abbrev evening : List Sighting
evening =
    moved_to (mac_at 1) driveway arriving 100
    ∷ (came_online (mac_at 1) 200
        ∷ (came_online (mac_at 2) 250
            ∷ (heard (mac_at 1) 260
                ∷ (went_offline (mac_at 1) 300 ∷ (went_offline (mac_at 2) 400 ∷ [])))))

abbrev no_json : Story → Text
no_json s = []

household-Distinct : Distinct household.owner
unfolding Distinct lookup netgraspd.Types.mac_beq
household-Distinct = (refl, (refl, (refl, tt)))

household-InStep : InStep household
unfolding InStep any_online owned_views seen_view lookup
household-InStep q s h = ground arith

household-Keyed : Keyed household
unfolding Keyed lookup
household-Keyed q p h = ground (arith, ==_iff ann q, ==_iff bob q)

abbrev rows : List (Text × PersonUpdate)
rows = (ann, update_of (person ann)) ∷ ((bob, update_of (person bob)) ∷ [])

household-Mirrors : Mirrors rows household
unfolding Mirrors lookup
household-Mirrors q p h = ground arith

run-InStep_example : InStep (run no_json household evening).registry
run-InStep_example = run-InStep no_json evening household household-Distinct household-InStep

follow-run_example :
    (t : PersonState) × (person_state (run no_json household evening).registry ann ≡ some t)
    × (follow ann away (run no_json household evening).events ≡ some t)
unfolding lookup
follow-run_example = follow-run no_json evening household ann away refl

run-Mirrors_example :
    Mirrors
      (write (run no_json household evening).updates rows)
      (run no_json household evening).registry
run-Mirrors_example = run-Mirrors no_json evening household rows household-Keyed household-Mirrors

-- The phone in the kitchen spoke after the laptop in the office.
abbrev indoors : Registry
indoors = record household {
  devices =
      (
        mac_at 1,
        record {
          online = true;
          ap_name = none;
          location = some (8 ∷ []);
          last_active = some 90;
          last_edge = none;
        },
      )
      ∷ ((
        mac_at 2,
        record {
          online = true;
          ap_name = none;
          location = some (9 ∷ []);
          last_active = some 80;
          last_edge = none;
        },
      )
          ∷ []);
}

location_of_person_lem_example :
    (mac : MacAddr) × (v : DeviceView) × (lookup mac indoors.owner ≡ some ann)
    × (lookup mac indoors.devices ≡ some v)
    × (v.online ≡ true)
    × (v.location ≡ some (8 ∷ []))
    × ((j : MacAddr) (w : DeviceView)
        → lookup j indoors.owner ≡ some ann
        → lookup j indoors.devices ≡ some w
        → is_located w ≡ true
        → time_leb w.last_active v.last_active ≡ true)
unfolding location_of_person netgraspd.People.Views.max_by owned_views seen_view lookup
    netgraspd.Types.mac_beq is_located netgraspd.People.Views.max_from
    netgraspd.People.Views.view_leb time_leb
location_of_person_lem_example = location_of_person_lem indoors ann (8 ∷ []) household-Distinct refl

abbrev mirror : List Person
mirror = record (person ann) { name = 5 ∷ []; state = home } ∷ []

abbrev owners : List (MacAddr × Option Text)
owners = (mac_at 1, none) ∷ ((mac_at 3, none) ∷ [])

mirror-Fresh : Fresh (ann ∷ [])
mirror-Fresh = (refl, tt)

owners-Distinct : Distinct owners
unfolding Distinct lookup netgraspd.Types.mac_beq
owners-Distinct = (refl, (refl, tt))

reconcile-people_example :
    lookup ann (reconcile household mirror owners).0.people
    ≡ (row_of ann mirror >>= λ row. some (taken (lookup ann household.people) row))
reconcile-people_example = reconcile-people household mirror owners ann mirror-Fresh

reconcile-again_example :
    reconcile (reconcile household mirror owners).0 mirror owners
    ≡ ((reconcile household mirror owners).0, [])
reconcile-again_example =
    reconcile-again household mirror owners mirror-Fresh household-Distinct owners-Distinct
