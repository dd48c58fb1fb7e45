-- ===== src/Device/Learning.antt =====
-- The learning window: what it holds back, and what it does not.
pub mod Silence
pub mod Notices
use netgraspd.Base.{
  ℕ, ◌≡◌, refl, ◌∙◌, Bool, true, false, ◌||◌, not, List, [], ◌∷◌, ◌++◌, Option, none, some, Text,
  any, any-append, keep_if, map, arith, Option-cases, Bool-cases, inl, inr, if◌then◌else◌, ◌+◌,
  option_eq, list_eq, nat_eq,
}
use netgraspd.Base.Assoc.{lookup, insert, contains_key}
use netgraspd.Location.{Place, Movement}
use netgraspd.Config.Timeouts.{StateConfig}
use netgraspd.Types.{
  MacAddr, mac_eq, is_group, is_zero, is_blank, IpAddr, v4, v6, Signal, Observation,
}
use netgraspd.Types.Event.{EventType, is_security}
use netgraspd.People.{PersonEvent}
use netgraspd.Identity.Scorer.{Identity}
use netgraspd.Device.Effect.{DeviceEvent, deliverable, Effect, event, signal}
use netgraspd.Device.Entry.{Env, Entry, record_signals, rescore}
use netgraspd.Device.Manager.{Manager, Attributed, attribute, entry_event, take_reclassifications}
use netgraspd.Device.Manager.Observe.{
  discover, touch, revive, move_address, rename_effects, rename_new, hear, observe_entry,
  add_signal_entry, add_signal, add_others, index_address, observe_in, observe_known, observe,
}
use netgraspd.Device.Manager.Sweep.{
  leave, go_offline, sweep_entry, sweep_devices, sweep, take_dirty,
}
use netgraspd.Device.Manager.Feeds.{
  person_event, security_event, apply_user_settings, UserSettings, apply_settings, place_entry,
  set_location,
}
use netgraspd.Device.Machine.{
  Input, observed, signalled, swept, moved, edited, flushed, drained, learned, visited, alerted,
  step, run,
}
use netgraspd.Device.Learning.Notices.{
  reports, notices, due_of, due, notices-append, Silent-notices, event_notices,
}
use netgraspd.Device.Learning.Silence.{
  announced, Silent, Silent-append, Silent-signals, Silent-rename, Silent-revive,
  Silent-move_address, Silent-if, Silent-hear, Silent-observe_entry, Silent-rename_new,
  Silent-add_signal_entry, Silent-sweep_entry, Silent-sweep_devices, Silent-place_entry,
}

-- A learning manager stays one, and announces nothing.
record Hushed (r : Manager × List Effect) : Type 0 where
  learns : r.0.learning ≡ true
  silence : Silent r.1

add_signal-Hushed :
    (env : Env) (m : Manager) (mac : MacAddr) (s : Signal) (at : ℕ)
    → m.learning ≡ true
    → Hushed (add_signal env m mac s at)
unfolding add_signal
add_signal-Hushed env m mac s at h = elim (Bool-cases (is_blank s.value)) [
  | inl b ↦ rw b (record { learns = h; silence = refl })
  | inr b ↦ rw b (elim (Option-cases (lookup mac m.devices)) [
    | inl g ↦ rw (g, add_signal) (record { learns = h; silence = refl })
    | inr (e, g) ↦
        rw (g, add_signal)
          (record { learns = h; silence = rw h (Silent-add_signal_entry env s at e) })
  ])
]

add_others-Hushed :
    (env : Env) (m : Manager) (others : List (MacAddr × Signal)) (at : ℕ)
    → m.learning ≡ true
    → Hushed (add_others env m others at)
unfolding add_others
add_others-Hushed env m [] at h = record { learns = h; silence = refl }
add_others-Hushed env m ((mac, s) ∷ rest) at h =
    let a = add_signal-Hushed env m mac s at h in
    let m1 = (add_signal env m mac s at).0 in
    let b = add_others-Hushed env m1 rest at a.learns in
    record {
      learns = b.learns;
      silence =
          Silent-append (add_signal env m mac s at).1 (add_others env m1 rest at).1 a.silence
            b.silence;
    }

observe_in-Hushed :
    (env : Env) (m : Manager) (obs : Observation) (known : Bool) (about : Attributed)
    → m.learning ≡ true
    → Hushed (observe_in env m obs known about)
unfolding observe_in
observe_in-Hushed env m obs known about h = elim (Option-cases (lookup obs.mac m.devices)) [
  | inl g ↦ rw (g, observe_in) (record { learns = h; silence = refl })
  | inr (e, g) ↦
      let r = observe_entry env known m.learning obs about.mine e in
      let m1 : Manager = record m {
        devices = insert obs.mac r.0 m.devices;
        reclassifications = m.reclassifications ++ r.2;
      } in
      let a = add_others-Hushed env m1 about.others obs.observed_at h in
      rw (g, observe_in)
        (record {
          learns = a.learns;
          silence =
              Silent-append r.1 (add_others env m1 about.others obs.observed_at).1
                (rw h (Silent-observe_entry env known obs about.mine e)) a.silence;
        })
]

learning-index_address :
    (m : Manager) (mac : MacAddr) (ip : Option IpAddr)
    → (index_address m mac ip).learning ≡ m.learning
learning-index_address m mac none = refl
learning-index_address m mac (some ip) = ground arith

observe_known-Hushed :
    (env : Env) (m : Manager) (obs : Observation) (known : Bool)
    → m.learning ≡ true
    → Hushed (observe_known env m obs known)
unfolding observe_known
observe_known-Hushed env m obs known h =
    let indexed = index_address m obs.mac obs.ip in
    let about = attribute env indexed obs in
    observe_in-Hushed env
      (record indexed { unattributed_claims = indexed.unattributed_claims + about.unattributed })
      obs known about (learning-index_address m obs.mac obs.ip ∙ h)

-- A device that appears is announced exactly if no learning window is open: the event that its
-- discovery records is deliverable outside a window and not inside one.
pub discover-announced :
    (env : Env) (m : Manager) (obs : Observation)
    → any announced (discover env m obs).1 ≡ not m.learning
unfolding discover deliverable is_security
discover-announced env m obs = ground arith

observe-Hushed :
    (env : Env) (m : Manager) (obs : Observation) → m.learning ≡ true → Hushed (observe env m obs)
unfolding observe
observe-Hushed env m obs h = elim (Bool-cases (is_group obs.mac || is_zero obs.mac)) [
  | inl group ↦ rw group (record { learns = h; silence = refl })
  | inr device ↦ rw device (elim (Bool-cases (contains_key obs.mac m.devices)) [
    | inl old ↦ rw old (observe_known-Hushed env m obs true h)
    | inr new ↦
        let d = discover env m obs in
        let a = observe_known-Hushed env d.0 obs false (unfold discover in h) in
        rw new (record {
          learns = a.learns;
          silence =
              Silent-append d.1 (observe_known env d.0 obs false).1
                (discover-announced env m obs ∙ rw h) a.silence;
        })
  ])
]

set_location-Hushed :
    (m : Manager) (mac : MacAddr) (p : Place) (movement : Movement) (telemetry : Option Text)
    (at : ℕ)
    → m.learning ≡ true
    → Hushed (set_location m mac p movement telemetry at)
unfolding set_location
set_location-Hushed m mac p movement telemetry at h = elim (Option-cases (lookup mac m.devices)) [
  | inl g ↦ rw (g, set_location) (record { learns = h; silence = refl })
  | inr (e, g) ↦
      rw (g, set_location)
        (record { learns = h; silence = rw h (Silent-place_entry mac p movement telemetry at e) })
]

learning-apply_user_settings :
    (m : Manager) (settings : List UserSettings)
    → (apply_user_settings m settings).0.learning ≡ m.learning
unfolding apply_user_settings
learning-apply_user_settings m [] = refl
learning-apply_user_settings m (s ∷ rest) = elim (Option-cases (lookup s.mac m.devices)) [
  | inl g ↦ rw (g, apply_user_settings) (learning-apply_user_settings m rest)
  | inr (e, g) ↦
      rw (g, apply_user_settings)
        (learning-apply_user_settings
          (record m { devices = insert s.mac (apply_settings e s).0 m.devices }) rest)
]

-- The input that ends the window.
abbrev pub ends_learning : Input → Bool
ends_learning i = elim i [ learned ↦ true | _ ↦ false ]

step-Hushed :
    (env : Env) (m : Manager) (i : Input)
    → m.learning ≡ true
    → ends_learning i ≡ false
    → reports i ≡ false
    → Hushed (step env m i)
unfolding step sweep take_dirty take_reclassifications
step-Hushed env m (observed obs) h k r = observe-Hushed env m obs h
step-Hushed env m (signalled mac s at) h k r = add_signal-Hushed env m mac s at h
step-Hushed env m (swept now) h k r = record {
  learns = h;
  silence = rw h (Silent-sweep_devices m.config m.devices now);
}
step-Hushed env m (moved mac p movement telemetry at) h k r =
    set_location-Hushed m mac p movement telemetry at h
step-Hushed env m (edited settings) h k r = record {
  learns = learning-apply_user_settings m settings ∙ h;
  silence = refl;
}
step-Hushed env m flushed h k r = record { learns = h; silence = refl }
step-Hushed env m drained h k r = record { learns = h; silence = refl }
step-Hushed env m learned h k r = absurd (ground arith)
step-Hushed env m (visited p) h k r = absurd (ground arith)
step-Hushed env m (alerted a) h k r = absurd (ground arith)

-- What a step tells a notifier while the window is open.
record Tells (i : Input) (r : Manager × List Effect) : Type 0 where
  learns : r.0.learning ≡ true
  told : notices r.1 ≡ due_of i

step-Tells :
    (env : Env) (m : Manager) (i : Input)
    → m.learning ≡ true
    → ends_learning i ≡ false
    → Tells i (step env m i)
unfolding step person_event security_event
step-Tells env m (visited p) h k = record { learns = h; told = event_notices _ refl }
step-Tells env m (alerted a) h k = record { learns = h; told = event_notices _ refl }
step-Tells env m i h k =
    let q = step-Hushed env m i h k refl in
    record { learns = q.learns; told = Silent-notices (step env m i).1 q.silence }

-- A learning window is quiet about devices and only about them: as long as it is not ended, a
-- notifier may be told, whatever the devices do, of exactly the attacks that the analyzers report
-- and the events of people whose notifications are on, or whose kind is that of an attack, each
-- once and in their order.
pub run_quiet :
    (env : Env) (m : Manager) (is : List Input)
    → m.learning ≡ true
    → any ends_learning is ≡ false
    → notices (run env m is).1 ≡ due is
unfolding run notices due
run_quiet env m [] h k = refl
run_quiet env m (i ∷ is) h k =
    let a = step-Tells env m i h (ground arith) in
    let m1 = (step env m i).0 in
    notices-append (step env m i).1 (run env m1 is).1
    ∙ rw (a.told, run_quiet env m1 is a.learns (ground arith)) refl
