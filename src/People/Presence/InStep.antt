-- ===== src/People/Presence/InStep.antt =====
-- src/people/mod.rs: the rule of the module. A person is home exactly while a device that they
-- own is online.
pub mod Kept
use netgraspd.Base.{
  ℕ, Bool, true, false, not, ◌||◌, List, [], ◌∷◌, Option, none, some, Text, ◌==◌, list_eq, nat_eq,
  option_eq, ◌≡◌, refl, sym, ◌∙◌, ap, subst, Bool-cases, Option-cases, inl, inr, arith, ◌⊎◌,
  if◌then◌else◌, ◌>>=◌, ==_iff, ==_refl,
}
use netgraspd.Base.Assoc.{lookup, insert, lookup-insert, Distinct}
use netgraspd.Location.{Place, Movement}
use netgraspd.Types.{MacAddr, mac_eq}
use netgraspd.People.{
  PersonState, home, away, is_home, Person, Outcome, merge, Registry, DeviceView,
}
use netgraspd.People.Owned.{others_lem, same_lem, on_lem, off_lem}
use netgraspd.People.Views.{
  view_of, set_view, set_person, any_online, location_of_person, device_seen, owned_views,
}
use netgraspd.People.Presence.{
  Story, relocate, refresh_known, refresh_location, merged, arrive, online_for, device_online,
  depart, offline_for, device_offline, device_moved, online_view, offline_view, placed_view,
  arrived, departed, online_owned,
}
use netgraspd.People.Presence.Change.{
  Change, Change-frame, Change-others, device_online-Change, device_offline-Change,
  device_moved-Change,
}

abbrev pub person_state : Registry → Text → Option PersonState
person_state r item = lookup item r.people >>= λ p. some p.state

unfoldable pub InStep : Registry → Type 0
InStep r = (q : Text) (s : PersonState) → person_state r q ≡ some s → is_home s ≡ any_online r q

module _ (json : Story → Text) where
  set_person-state :
      (r : Registry) (item : Text) (p p' : Person)
      → lookup item r.people ≡ some p
      → p'.state ≡ p.state
      → person_state (set_person r item p') item ≡ person_state r item
  set_person-state r item p p' h s =
      rw (lookup-insert item item p' r.people) ground (arith, ==_refl item)

  refresh_known-state :
      (o : Option Person) (r : Registry) (item : Text) (trigger : MacAddr) (at : ℕ)
      → lookup item r.people ≡ o
      → person_state (refresh_known json o r item trigger at).0 item ≡ person_state r item
  unfolding refresh_known relocate
  refresh_known-state none r item trigger at h = refl
  refresh_known-state (some p) r item trigger at h =
      elim (Bool-cases (not (is_home p.state) || p.current_location == location_of_person r item)) [
        | inl e ↦ rw e refl
        | inr e ↦ rw e (
            set_person-state r item p (record p { current_location = location_of_person r item }) h
              refl)
      ]

  refresh_location-state :
      (r : Registry) (item : Text) (trigger : MacAddr) (at : ℕ)
      → person_state (merged json (refresh_location json r item trigger at)).0 item
        ≡ person_state r item
  unfolding refresh_location merged
  refresh_location-state r item trigger at =
      refresh_known-state (lookup item r.people) r item trigger at refl

  arrive-home :
      (s : PersonState) (r : Registry) (item : Text) (p : Person) (mac : MacAddr) (at : ℕ)
      → lookup item r.people ≡ some p
      → p.state ≡ s
      → person_state (arrive json s p r item mac at).0 item ≡ some home
  unfolding arrive arrived
  arrive-home home r item p mac at h e = refresh_location-state r item mac at ∙ rw h rw e refl
  arrive-home away r item p mac at h e =
      rw (lookup-insert item item (arrived p (location_of_person r item) at) r.people) ground
        (arith, ==_refl item)

  -- A person whose device comes online is home, whatever they were.
  pub device_online-home :
      (r : Registry) (mac : MacAddr) (at : ℕ) (item : Text) (p : Person)
      → lookup mac r.owner ≡ some item
      → lookup item r.people ≡ some p
      → person_state (device_online json r mac at).0 item ≡ some home
  unfolding device_online online_owned online_for
  device_online-home r mac at item p owned known = rw owned rw known (
      arrive-home p.state (set_view r mac (online_view (view_of r mac) at)) item p mac at known
        refl)

  depart-away :
      (s : PersonState) (r : Registry) (item : Text) (p : Person) (mac : MacAddr) (at : ℕ)
      → lookup item r.people ≡ some p
      → p.state ≡ s
      → person_state (depart json s p r item mac at).0 item ≡ some away
  unfolding depart departed
  depart-away away r item p mac at h e = rw h rw e refl
  depart-away home r item p mac at h e =
      rw (lookup-insert item item (departed p at) r.people) ground (arith, ==_refl item)

  -- A person whose device goes offline is away if it was the last one, and as before if not.
  offline_for-state :
      (r : Registry) (item : Text) (p : Person) (mac : MacAddr) (at : ℕ)
      → lookup item r.people ≡ some p
      → person_state (offline_for json (some p) r item mac at).0 item
        ≡ (if any_online r item then some p.state else some away)
  unfolding offline_for
  offline_for-state r item p mac at h = elim (Bool-cases (any_online r item)) [
    | inl e ↦ rw e (refresh_location-state r item mac at ∙ rw h refl)
    | inr e ↦ rw e (depart-away p.state r item p mac at h refl)
  ]

-- The view of one device that one person owns.
module _ (r : Registry) (mac : MacAddr) (v : DeviceView) (item : Text) (d : Distinct r.owner)
    (owned : lookup mac r.owner ≡ some item) where
  Change-any_online :
      {result : Registry × Outcome} (q : Text)
      → Change (set_view r mac v) item result
      → any_online result.0 q ≡ any_online (set_view r mac v) q
  unfolding any_online
  Change-any_online q c = let f = Change-frame (set_view r mac v) item c in rw (f.0) rw (f.1) refl

  set_view-others :
      (q : Text) → (item == q) ≡ false → any_online (set_view r mac v) q ≡ any_online r q
  unfolding any_online
  set_view-others q n = others_lem r.devices mac v item q r.owner d owned n

  Change-InStep :
      (result : Registry × Outcome)
      → Change (set_view r mac v) item result
      → InStep r
      → ((s : PersonState)
          → person_state result.0 item ≡ some s
          → is_home s ≡ any_online (set_view r mac v) item)
      → InStep result.0
  unfolding InStep
  Change-InStep result c i h q s e = rw (Change-any_online q c) elim (Bool-cases (item == q)) [
    | inl same ↦
        let q_is : item ≡ q = (list_eq.beq_iff item q).0 same in
        subst (λ x. is_home s ≡ any_online (set_view r mac v) x) q_is
          (h s (subst (λ x. person_state result.0 x ≡ some s) (sym q_is) e))
    | inr other ↦
        i q s (
          ap (λ o. o >>= λ p. some p.state) (sym (Change-others (set_view r mac v) item q c other))
          ∙ e)
        ∙ sym (set_view-others q other)
  ]
