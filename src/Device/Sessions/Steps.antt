-- ===== src/Device/Sessions/Steps.antt =====
-- src/device/mod.rs: the sweep, seen from the sessions and stays of the database.
pub mod Updates
use netgraspd.Base.{
  ℕ, ◌+◌, subst, Bool, true, false, ◌||◌, ◌≡◌, refl, ap, ◌∙◌, List, [], ◌∷◌, ◌++◌, Option, none,
  some, ◌==◌, arith, Option-cases, Bool-cases, inl, inr, if◌then◌else◌, option_eq, list_eq, nat_eq,
}
use netgraspd.Base.Assoc.{lookup, insert, Distinct, contains_key}
use netgraspd.Config.Timeouts.{StateConfig}
use netgraspd.Types.{
  MacAddr, mac_eq, mac_beq_iff, is_group, is_zero, is_blank, IpAddr, Signal, Observation,
}
use netgraspd.Device.Effect.{Effect, signal}
use netgraspd.Device.Entry.{Env, Entry, snapshot}
use netgraspd.Device.Manager.{Manager, Attributed, attribute}
use netgraspd.Device.Manager.Observe.{
  new_entry, discover, observe_entry, add_signal, add_others, index_address, observe_in,
  observe_known, observe,
}
use netgraspd.Device.Manager.Sweep.{sweep_entry, sweep_devices}
use netgraspd.Device.Sessions.{Session, replay, replay-append, session_of, session_in, Tracks}
use netgraspd.Device.Sessions.Entries.{
  observe_entry-Tracks, add_signal_entry-Tracks, sweep_entry-Tracks,
}
use netgraspd.Device.Sessions.Table.{
  Keyed, IsTable, mac_of_lookup, insert-IsTable, Follows, session_in-insert, session_in-lookup,
  Follows-update,
}
use netgraspd.Device.Sessions.Steps.Updates.{
  Good-refl, Good-trans, Good-update, Good-signal, add_signal-Good, add_others-Good,
  devices-index_address, observe_in-Good, observe_known-Good, discover-Good, observe-Good, Good,
}

lookup-sweep_devices :
    (config : StateConfig) (learning : Bool) (d : List (MacAddr × Entry)) (now : ℕ) (mac : MacAddr)
    → lookup mac d ≡ none
    → lookup mac (sweep_devices config learning d now).0 ≡ none
unfolding lookup sweep_devices
lookup-sweep_devices config learning [] now mac h = refl
lookup-sweep_devices config learning ((k, e) ∷ rest) now mac h =
    ground (arith, lookup-sweep_devices config learning rest now mac)

pub sweep_devices-IsTable :
    (config : StateConfig) (learning : Bool) (d : List (MacAddr × Entry)) (now : ℕ)
    → IsTable d
    → IsTable (sweep_devices config learning d now).0
unfolding sweep_devices Distinct
sweep_devices-IsTable config learning [] now t = record { keyed = tt; distinct = tt }
sweep_devices-IsTable config learning ((k, e) ∷ rest) now t =
    let r =
      sweep_devices-IsTable config learning rest now
        (record { keyed = t.keyed.1; distinct = t.distinct.1 }) in
    record {
      keyed = ((sweep_entry-Tracks config learning e now).same_mac ∙ t.keyed.0, r.keyed);
      distinct = (lookup-sweep_devices config learning rest now k t.distinct.0, r.distinct);
    }

-- A device that is not in the table has no part in a sweep.
sweep_devices_quiet :
    (config : StateConfig) (learning : Bool) (d : List (MacAddr × Entry)) (now : ℕ) (mac : MacAddr)
    (s : Session)
    → Keyed d
    → lookup mac d ≡ none
    → replay mac s (sweep_devices config learning d now).1 ≡ some s
unfolding sweep_devices lookup replay
sweep_devices_quiet config learning [] now mac s t h = refl
sweep_devices_quiet config learning ((k, e) ∷ rest) now mac s t h = elim (Bool-cases (k == mac)) [
  | inl here ↦ absurd (ground arith)
  | inr away ↦
      replay-append mac s s (sweep_entry config learning e now).1
        (sweep_devices config learning rest now).1
        ((sweep_entry-Tracks config learning e now).other mac s (rw t.0 away))
      ∙ sweep_devices_quiet config learning rest now mac s t.1 (ground arith)
]

session_in-cons :
    (k : MacAddr) (e : Entry) (rest : List (MacAddr × Entry)) (mac : MacAddr)
    → session_in ((k, e) ∷ rest) mac ≡ (if k == mac then session_of e else session_in rest mac)
unfolding session_in lookup
session_in-cons k e rest mac = ground arith

pub sweep_devices-Follows :
    (config : StateConfig) (learning : Bool) (d : List (MacAddr × Entry)) (now : ℕ)
    → IsTable d
    → Follows d (sweep_devices config learning d now).1 (sweep_devices config learning d now).0
unfolding sweep_devices Distinct
sweep_devices-Follows config learning [] now t mac = unfold replay in refl
sweep_devices-Follows config learning ((k, e) ∷ rest) now t mac =
    let tail : IsTable rest = record { keyed = t.keyed.1; distinct = t.distinct.1 } in
    let r = sweep_entry-Tracks config learning e now in
    let xs = (sweep_entry config learning e now).1 in
    let ys = (sweep_devices config learning rest now).1 in
    let e' = (sweep_entry config learning e now).0 in
    elim (Bool-cases (k == mac)) [
      | inl here ↦
          let same = (mac_beq_iff k mac).0 here in
          rw (session_in-cons k e rest mac, session_in-cons k e' _ mac, here)
            (replay-append mac (session_of e) (session_of e') xs ys (rw (← same, ← t.keyed.0) r.own)
              ∙ sweep_devices_quiet config learning rest now mac (session_of e') t.keyed.1
                  (rw (← same) t.distinct.0))
      | inr away ↦
          rw (session_in-cons k e rest mac, session_in-cons k e' _ mac, away)
            (replay-append mac _ _ xs ys (r.other mac _ (rw t.keyed.0 away))
              ∙ sweep_devices-Follows config learning rest now tail mac)
    ]
