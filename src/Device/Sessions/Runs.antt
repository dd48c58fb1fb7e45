-- ===== src/Device/Sessions/Runs.antt =====
-- The inputs other than observations and sweeps, and whole runs.
use netgraspd.Base.{
  ℕ, Bool, ◌≡◌, refl, sym, ap, List, [], ◌∷◌, Option, none, some, Text, arith, Option-cases, inl,
  inr, option_eq, list_eq, nat_eq,
}
use netgraspd.Base.Assoc.{lookup, insert, Distinct}
use netgraspd.Location.{Place, Movement}
use netgraspd.Config.Timeouts.{StateConfig}
use netgraspd.Types.{MacAddr, mac_eq, mac_beq_iff}
use netgraspd.Device.Entry.{Env, Entry}
use netgraspd.Device.Manager.{Manager, new_manager, take_reclassifications, end_learning}
use netgraspd.Device.Manager.Sweep.{sweep, flush_entry, flush_devices, take_dirty}
use netgraspd.Device.Manager.Feeds.{
  person_event, security_event, UserSettings, apply_display_name, apply_notify, apply_settings,
  apply_user_settings, place_entry, set_location,
}
use netgraspd.Device.Machine.{
  Input, observed, signalled, swept, moved, edited, flushed, drained, learned, visited, alerted,
  step, run,
}
use netgraspd.Device.Effect.{DeviceEvent, event}
use netgraspd.Device.Sessions.{closed, apply, replay, session_of, session_in, Tracks}
use netgraspd.Device.Sessions.Table.{IsTable, mac_of_lookup}
use netgraspd.Device.Sessions.Steps.{sweep_devices-IsTable, sweep_devices-Follows}
use netgraspd.Device.Sessions.Steps.Updates.{
  Good, Good-refl, Good-trans, Good-update, add_signal-Good, observe-Good,
}

sweep-Good :
    (m : Manager) (now : ℕ)
    → IsTable m.devices
    → Good m.devices (sweep m now).1 (sweep m now).0.devices
unfolding sweep
sweep-Good m now t = record {
  table = sweep_devices-IsTable m.config m.learning m.devices now t;
  follows = sweep_devices-Follows m.config m.learning m.devices now t;
}

place_entry-Tracks :
    (learning : Bool) (mac : MacAddr) (p : Place) (movement : Movement) (telemetry : Option Text)
    (at : ℕ) (e : Entry)
    → e.mac ≡ mac
    → Tracks e
        (place_entry learning mac p movement telemetry at e).1
        (place_entry learning mac p movement telemetry at e).0
unfolding place_entry replay session_of
place_entry-Tracks learning mac p movement telemetry at e h = record {
  same_mac = ground arith;
  own = ground (arith, mac_beq_iff mac e.mac);
  other = λ k t a. ground (arith, mac_beq_iff mac k, mac_beq_iff e.mac k);
}

set_location-Good :
    (m : Manager) (mac : MacAddr) (p : Place) (movement : Movement) (telemetry : Option Text)
    (at : ℕ)
    → IsTable m.devices
    → Good m.devices
        (set_location m mac p movement telemetry at).1
        (set_location m mac p movement telemetry at).0.devices
unfolding set_location
set_location-Good m mac p movement telemetry at t = elim (Option-cases (lookup mac m.devices)) [
  | inl h ↦ rw (h, set_location) (Good-refl m.devices t)
  | inr (e, h) ↦
      rw (h, set_location)
        (Good-update mac e _ _ m.devices t h (
          place_entry-Tracks m.learning mac p movement telemetry at e
            (mac_of_lookup mac e m.devices t.keyed h)))
]

apply_settings-Tracks : (e : Entry) (s : UserSettings) → Tracks e [] (apply_settings e s).0
unfolding apply_settings apply_display_name apply_notify replay session_of
apply_settings-Tracks e s = record {
  same_mac = ground arith;
  own = ground arith;
  other = λ mac t k. refl;
}

apply_user_settings-Good :
    (m : Manager) (settings : List UserSettings)
    → IsTable m.devices
    → Good m.devices [] (apply_user_settings m settings).0.devices
unfolding apply_user_settings
apply_user_settings-Good m [] t = Good-refl m.devices t
apply_user_settings-Good m (s ∷ rest) t = elim (Option-cases (lookup s.mac m.devices)) [
  | inl h ↦ rw (h, apply_user_settings) (apply_user_settings-Good m rest t)
  | inr (e, h) ↦
      let g = Good-update s.mac e _ [] m.devices t h (apply_settings-Tracks e s) in
      let m1 : Manager = record m { devices = insert s.mac (apply_settings e s).0 m.devices } in
      rw (h, apply_user_settings)
        (Good-trans m.devices m1.devices _ [] [] g (apply_user_settings-Good m1 rest g.table))
]

lookup-flush_devices :
    (d : List (MacAddr × Entry)) (mac : MacAddr)
    → lookup mac d ≡ none
    → lookup mac (flush_devices d).0 ≡ none
unfolding lookup flush_devices
lookup-flush_devices [] mac h = refl
lookup-flush_devices ((k, e) ∷ rest) mac h = ground (arith, lookup-flush_devices rest mac)

flush_devices-IsTable : (d : List (MacAddr × Entry)) → IsTable d → IsTable (flush_devices d).0
unfolding flush_devices flush_entry Distinct
flush_devices-IsTable [] t = t
flush_devices-IsTable ((k, e) ∷ rest) t =
    let r = flush_devices-IsTable rest (record { keyed = t.keyed.1; distinct = t.distinct.1 }) in
    record { keyed = ground arith; distinct = ground (arith, lookup-flush_devices rest k) }

session_in-flush_devices :
    (d : List (MacAddr × Entry)) (mac : MacAddr)
    → session_in (flush_devices d).0 mac ≡ session_in d mac
unfolding lookup flush_devices flush_entry session_in session_of
session_in-flush_devices [] mac = refl
session_in-flush_devices ((k, e) ∷ rest) mac = ground (arith, session_in-flush_devices rest mac)

take_dirty-Good : (m : Manager) → IsTable m.devices → Good m.devices [] (take_dirty m).0.devices
unfolding take_dirty replay
take_dirty-Good m t = record {
  table = flush_devices-IsTable m.devices t;
  follows = λ mac. ap some (sym (session_in-flush_devices m.devices mac));
}

-- An event needs no row: one of a person or of an attack may be about a device that has none.
event-Good : (d : List (MacAddr × Entry)) (e : DeviceEvent) → IsTable d → Good d (event e ∷ []) d
unfolding replay apply
event-Good d e t = record { table = t; follows = λ mac. refl }

pub step-Good :
    (env : Env) (m : Manager) (i : Input)
    → IsTable m.devices
    → Good m.devices (step env m i).1 (step env m i).0.devices
unfolding step take_reclassifications end_learning person_event security_event
step-Good env m (observed obs) t = observe-Good env m obs t
step-Good env m (signalled mac s at) t = add_signal-Good env m mac s at t
step-Good env m (swept now) t = sweep-Good m now t
step-Good env m (moved mac p movement telemetry at) t =
    set_location-Good m mac p movement telemetry at t
step-Good env m (edited settings) t = apply_user_settings-Good m settings t
step-Good env m flushed t = take_dirty-Good m t
step-Good env m drained t = Good-refl m.devices t
step-Good env m learned t = Good-refl m.devices t
step-Good env m (visited p) t = event-Good m.devices _ t
step-Good env m (alerted a) t = event-Good m.devices _ t

run-Good :
    (env : Env) (m : Manager) (is : List Input)
    → IsTable m.devices
    → Good m.devices (run env m is).1 (run env m is).0.devices
unfolding run
run-Good env m [] t = Good-refl m.devices t
run-Good env m (i ∷ is) t =
    let g = step-Good env m i t in
    let m1 = (step env m i).0 in Good-trans _ m1.devices _ _ _ g (run-Good env m1 is g.table)

-- From an empty table, after any run of inputs, each device stands in the table once, under its
-- own address, and the effects in their order are ones that the database can apply: a device is
-- discovered exactly once, before any effect that needs its row; no presence session is opened
-- while one is open, and none closed while none is, nor a location stay; and what is open at the
-- end is a session for each device that is not offline and a stay for each that has a place.
pub run_sessions :
    (env : Env) (config : StateConfig) (learning : Bool) (is : List Input) (mac : MacAddr)
    → let r = run env (new_manager config learning) is in
      IsTable r.0.devices × (replay mac closed r.1 ≡ some (session_in r.0.devices mac))
unfolding new_manager session_in lookup
run_sessions env config learning is mac =
    let empty : IsTable [] = record { keyed = tt; distinct = unfold Distinct in tt } in
    let g = run-Good env (new_manager config learning) is empty in (g.table, g.follows mac)
