-- ===== src/People/Presence/InStep/Kept.antt =====
-- src/people/mod.rs: every operation that a device causes keeps people in step with their devices,
-- and so does a run of them.
use netgraspd.Base.{
  ℕ, Bool, true, false, Option, none, some, Text, list_eq, nat_eq, option_eq, ◌≡◌, refl, sym, ◌∙◌,
  Bool-cases, inl, inr, arith, if◌then◌else◌,
}
use netgraspd.Base.Assoc.{lookup, contains_key, Distinct}
use netgraspd.Location.{Place, Movement}
use netgraspd.Types.{MacAddr, mac_eq}
use netgraspd.People.{PersonState, away, is_home, Person, Registry, DeviceView}
use netgraspd.People.Owned.{same_lem, on_lem, off_lem}
use netgraspd.People.Views.{view_of, set_view, any_online, device_seen, hear_at}
use netgraspd.People.Presence.{
  Story, merged, online_for, device_online, offline_for, device_offline, device_moved, online_view,
  offline_view, placed_view, online_owned, offline_owned, moved_owned,
}
use netgraspd.People.Presence.Change.{
  device_online-Change, device_offline-Change, device_moved-Change,
}
use netgraspd.People.Presence.InStep.{
  person_state, InStep, Change-InStep, device_online-home, offline_for-state,
  refresh_location-state,
}

module _ (json : Story → Text) (r : Registry) (d : Distinct r.owner) (i : InStep r)
    (mac : MacAddr) where
  -- A view that is as much online as before.
  same_any_online :
      (v : DeviceView) (q : Text)
      → v.online ≡ (view_of r mac).online
      → any_online (set_view r mac v) q ≡ any_online r q
  unfolding any_online
  same_any_online v q h = same_lem r.devices mac v q r.owner h

  hear_at-online : (v : DeviceView) (at : ℕ) → (hear_at v at).online ≡ v.online
  unfolding hear_at
  hear_at-online v at = ground arith

  set_view-InStep :
      (b : Bool) (v : DeviceView)
      → v.online ≡ (view_of r mac).online
      → InStep (if b then set_view r mac v else r)
  unfolding InStep
  set_view-InStep true v h q s e = i q s e ∙ sym (same_any_online v q h)
  set_view-InStep false v h q s e = i q s e

  pub device_seen-InStep : (at : ℕ) → InStep (device_seen r mac at)
  unfolding device_seen
  device_seen-InStep at =
      set_view-InStep (contains_key mac r.owner) (hear_at (view_of r mac) at)
        (hear_at-online (view_of r mac) at)

  module _ (at : ℕ) (item : Text) (owned : lookup mac r.owner ≡ some item) where
    online_view-any : any_online (set_view r mac (online_view (view_of r mac) at)) item ≡ true
    unfolding any_online online_view
    online_view-any = on_lem r.devices mac (online_view (view_of r mac) at) item r.owner owned refl

    device_online-settled :
        (o : Option Person) (s : PersonState)
        → lookup item r.people ≡ o
        → person_state (device_online json r mac at).0 item ≡ some s
        → is_home s ≡ any_online (set_view r mac (online_view (view_of r mac) at)) item
    unfolding device_online online_owned online_for
    device_online-settled none s h e = absurd (ground arith)
    device_online-settled (some p) s h e =
        rw online_view-any ground (arith, device_online-home json r mac at item p owned h)

    offline_view-any :
        any_online (set_view r mac (offline_view (view_of r mac))) item ≡ true
        → any_online r item ≡ true
    unfolding any_online offline_view
    offline_view-any = off_lem r.devices mac (offline_view (view_of r mac)) item r.owner refl

    device_offline-settled :
        (o : Option Person) (s : PersonState)
        → lookup item r.people ≡ o
        → person_state (device_offline json r mac at).0 item ≡ some s
        → is_home s ≡ any_online (set_view r mac (offline_view (view_of r mac))) item
    unfolding device_offline offline_owned offline_for InStep
    device_offline-settled none s h e = absurd (ground arith)
    device_offline-settled (some p) s h e =
        let r1 : Registry = set_view r mac (offline_view (view_of r mac)) in
        let now : person_state (device_offline json r mac at).0 item
            ≡ (if any_online r1 item then some p.state else some away) =
          rw owned rw h (offline_for-state json r1 item p mac at h) in
        elim (Bool-cases (any_online r1 item)) [
          | inl on ↦ rw on (i item s (rw h ground arith) ∙ offline_view-any on)
          | inr off ↦ rw off ground arith
        ]

    device_moved-state :
        (place : Place) (movement : Movement)
        → person_state (device_moved json r mac place movement at).0 item ≡ person_state r item
    unfolding device_moved moved_owned merged
    device_moved-state place movement = elim (Bool-cases (contains_key item r.people)) [
      | inl e ↦ rw owned rw e (
          refresh_location-state json (set_view r mac (placed_view (view_of r mac) place at)) item
            mac at)
      | inr e ↦ rw owned rw e refl
    ]

  pub device_online-InStep :
      (o : Option Text) (at : ℕ) → lookup mac r.owner ≡ o → InStep (device_online json r mac at).0
  unfolding device_online online_owned
  device_online-InStep none at h = rw h i
  device_online-InStep (some item) at h =
      Change-InStep r mac (online_view (view_of r mac) at) item d h (device_online json r mac at)
        (device_online-Change json r mac at item h) i
        (λ s. device_online-settled at item h (lookup item r.people) s refl)

  pub device_offline-InStep :
      (o : Option Text) (at : ℕ) → lookup mac r.owner ≡ o → InStep (device_offline json r mac at).0
  unfolding device_offline offline_owned
  device_offline-InStep none at h = rw h i
  device_offline-InStep (some item) at h =
      Change-InStep r mac (offline_view (view_of r mac)) item d h (device_offline json r mac at)
        (device_offline-Change json r mac at item h) i
        (λ s. device_offline-settled at item h (lookup item r.people) s refl)

  placed_view-online :
      (place : Place) (at : ℕ)
      → (placed_view (view_of r mac) place at).online ≡ (view_of r mac).online
  unfolding placed_view
  placed_view-online place at = refl

  pub device_moved-InStep :
      (o : Option Text) (place : Place) (movement : Movement) (at : ℕ)
      → lookup mac r.owner ≡ o
      → InStep (device_moved json r mac place movement at).0
  unfolding device_moved moved_owned InStep
  device_moved-InStep none place movement at h = rw h i
  device_moved-InStep (some item) place movement at h =
      let v : DeviceView = placed_view (view_of r mac) place at in
      Change-InStep r mac v item d h (device_moved json r mac place movement at)
        (device_moved-Change json r mac at item h place movement) i
        (λ s e.
          i item s (sym (device_moved-state at item h place movement) ∙ e)
          ∙ sym (same_any_online v item (placed_view-online place at)))
