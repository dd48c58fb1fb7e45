-- ===== src/Device/Learning/Silence.antt =====
-- src/device/mod.rs: which effects of one entry a learning window holds back.
use netgraspd.Base.{
  ℕ, ◌≡◌, refl, ◌∙◌, Bool, true, false, not, List, [], ◌∷◌, ◌++◌, Option, none, some, Text, any,
  any-append, keep_if, map, arith, if◌then◌else◌, option_eq, list_eq, nat_eq,
}
use netgraspd.Location.{Place, Movement}
use netgraspd.Config.Timeouts.{StateConfig}
use netgraspd.Types.{MacAddr, mac_eq, is_blank, IpAddr, v4, v6, Signal, Observation}
use netgraspd.Types.Event.{is_security}
use netgraspd.Identity.Scorer.{Identity}
use netgraspd.Device.Effect.{deliverable, Effect, event, signal}
use netgraspd.Device.Entry.{Env, Entry, record_signals, rescore}
use netgraspd.Device.Manager.{entry_event}
use netgraspd.Device.Manager.Observe.{
  touch, revive, move_address, rename_effects, rename_new, hear, observe_entry, add_signal_entry,
}
use netgraspd.Device.Manager.Sweep.{leave, go_offline, sweep_entry, sweep_devices}
use netgraspd.Device.Manager.Feeds.{place_entry}

-- An effect that a notifier may be told of.
abbrev pub announced : Effect → Bool
announced x = elim x [ event e ↦ deliverable e | _ ↦ false ]

abbrev pub Silent : List Effect → Type 0
Silent xs = any announced xs ≡ false

pub Silent-append : (xs ys : List Effect) → Silent xs → Silent ys → Silent (xs ++ ys)
Silent-append xs ys a b = any-append announced xs ys ∙ (rw (a, b))

pub Silent-signals :
    (mac : MacAddr) (at : ℕ) (ss : List Signal) → Silent (map (λ s. signal mac s at) ss)
Silent-signals mac at [] = refl
Silent-signals mac at (s ∷ ss) = Silent-signals mac at ss

pub Silent-rename :
    (e : Entry) (o : Option Identity) (i : Option Text) (at : ℕ) (c : Option ℕ)
    → Silent (rename_effects true e o i at c)
unfolding deliverable entry_event is_security
Silent-rename e none i at c = refl
Silent-rename e (some p) i at c = ground arith

pub Silent-revive : (env : Env) (obs : Observation) (e : Entry) → Silent (revive env true obs e).1
unfolding revive deliverable entry_event is_security
Silent-revive env obs e = ground arith

pub Silent-move_address :
    (env : Env) (obs : Observation) (e : Entry) (ip : Option IpAddr)
    → Silent (move_address env true obs e ip).1
unfolding move_address deliverable entry_event is_security
Silent-move_address env obs e none = refl
Silent-move_address env obs e (some (v4 a)) = ground arith
Silent-move_address env obs e (some (v6 a)) = ground arith

pub Silent-if : (b : Bool) (xs : List Effect) → Silent xs → Silent (if b then xs else [])
Silent-if true xs h = h
Silent-if false xs h = refl

pub Silent-hear :
    (env : Env) (known : Bool) (obs : Observation) (usable : List Signal) (e : Entry)
    → Silent (hear env known true obs usable e).1
unfolding hear
Silent-hear env known obs usable e =
    let r = rescore (record_signals e usable).0 obs.observed_at in
    let c = some r.0.identity.confidence in
    Silent-append (map (λ s. signal e.mac s obs.observed_at) usable)
      (if known then rename_effects true r.0 r.1 (some obs.interface) obs.observed_at c else [])
      (Silent-signals e.mac obs.observed_at usable)
      (Silent-if known (rename_effects true r.0 r.1 (some obs.interface) obs.observed_at c)
        (Silent-rename r.0 r.1 (some obs.interface) obs.observed_at c))

pub Silent-observe_entry :
    (env : Env) (known : Bool) (obs : Observation) (mine : List Signal) (e : Entry)
    → Silent (observe_entry env known true obs mine e).1
unfolding observe_entry
Silent-observe_entry env known obs mine e =
    let r = revive env true obs (touch obs e) in
    let m = move_address env true obs r.0 obs.ip in
    let f : Entry = record (m.0) { last_interface = some obs.interface } in
    let usable = keep_if (λ s. not (is_blank s.value)) obs.signals ++ mine in
    Silent-append r.1 (m.1 ++ (hear env known true obs usable f).1)
      (Silent-revive env obs (touch obs e))
      (Silent-append m.1 (hear env known true obs usable f).1
        (Silent-move_address env obs r.0 obs.ip) (Silent-hear env known obs usable f))

pub Silent-rename_new :
    (is_new : Bool) (e : Entry) (at : ℕ) → Silent (rename_new true is_new e at).1
unfolding rename_new
Silent-rename_new true e at = Silent-rename _ _ _ at none
Silent-rename_new false e at = refl

pub Silent-add_signal_entry :
    (env : Env) (s : Signal) (at : ℕ) (e : Entry) → Silent (add_signal_entry env true s at e).1
unfolding add_signal_entry
Silent-add_signal_entry env s at e = Silent-rename_new (record_signals e (s ∷ [])).1 _ at

pub Silent-sweep_entry :
    (config : StateConfig) (e : Entry) (now : ℕ) → Silent (sweep_entry config true e now).1
unfolding sweep_entry go_offline leave deliverable entry_event is_security
Silent-sweep_entry config e now = ground arith

pub Silent-sweep_devices :
    (config : StateConfig) (d : List (MacAddr × Entry)) (now : ℕ)
    → Silent (sweep_devices config true d now).1
unfolding sweep_devices
Silent-sweep_devices config [] now = refl
Silent-sweep_devices config ((k, e) ∷ rest) now =
    Silent-append (sweep_entry config true e now).1 _ (Silent-sweep_entry config e now)
      (Silent-sweep_devices config rest now)

pub Silent-place_entry :
    (mac : MacAddr) (p : Place) (movement : Movement) (telemetry : Option Text) (at : ℕ) (e : Entry)
    → Silent (place_entry true mac p movement telemetry at e).1
unfolding place_entry deliverable entry_event is_security
Silent-place_entry mac p movement telemetry at e = ground arith
