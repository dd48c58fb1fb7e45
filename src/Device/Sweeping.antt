-- ===== src/Device/Sweeping.antt =====
-- Timeouts: where a sweep leaves the devices.
use netgraspd.Base.{
  ℕ, ◌-◌, ◌<◌, ◌≡◌, refl, ap, ◌∙◌, Bool, false, List, [], ◌∷◌, Option, some, Text, ◌>>=◌, arith,
  Option-cases, inl, inr, list_eq, option_eq, option_beq_iff, nat_eq,
}
use netgraspd.Base.Assoc.{lookup, insert, lookup-insert_self}
use netgraspd.Location.{Place, Movement}
use netgraspd.Config.Timeouts.{StateConfig, idle_timeout_for, offline_timeout_for}
use netgraspd.Types.{MacAddr, mac_eq}
use netgraspd.Types.Event.{online, idle, offline, is_offline}
use netgraspd.Device.Entry.{Entry}
use netgraspd.Device.Manager.{Manager}
use netgraspd.Device.Manager.Sweep.{leave, go_offline, sweep_entry, sweep_devices, sweep}
use netgraspd.Device.Manager.Feeds.{place_entry, set_location}

-- How long a device may have been silent in its state.
abbrev pub patience : StateConfig → Entry → ℕ
patience config e = elim e.state [
  | online ↦ idle_timeout_for config e.classification.device_type
  | idle ↦ offline_timeout_for config e.classification.device_type
  | offline ↦ 0
]

sweep_entry-patience :
    (config : StateConfig) (learning : Bool) (e : Entry) (now : ℕ)
    → is_offline (sweep_entry config learning e now).0.state ≡ false
    → now - (sweep_entry config learning e now).0.last_seen_at
      < patience config (sweep_entry config learning e now).0
unfolding sweep_entry go_offline leave
sweep_entry-patience config learning e now h = ground arith

lookup-sweep :
    (config : StateConfig) (learning : Bool) (d : List (MacAddr × Entry)) (now : ℕ) (k : MacAddr)
    → lookup k (sweep_devices config learning d now).0
      ≡ (lookup k d >>= λ e. some (sweep_entry config learning e now).0)
unfolding lookup sweep_devices
lookup-sweep config learning [] now k = refl
lookup-sweep config learning ((j, e) ∷ rest) now k =
    ground (arith, lookup-sweep config learning rest now k)

-- After a sweep each device that is not offline has been silent for less than the timeout of the
-- state that the sweep left it in: the idle timeout of its type while online, the offline timeout
-- while idle.
pub sweep-patience :
    (m : Manager) (now : ℕ) (k : MacAddr) (e : Entry)
    → lookup k (sweep m now).0.devices ≡ some e
    → is_offline e.state ≡ false
    → now - e.last_seen_at < patience m.config e
unfolding sweep
sweep-patience m now k e h on = elim (Option-cases (lookup k m.devices)) [
  | inl no_entry ↦ absurd (ground (arith, lookup-sweep m.config m.learning m.devices now k))
  | inr (f, found) ↦ ground (
    arith,
    lookup-sweep m.config m.learning m.devices now k,
    sweep_entry-patience m.config m.learning f now,
  )
]

sweep_entry_twice :
    (config : StateConfig) (learning : Bool) (e : Entry) (now : ℕ)
    → sweep_entry config learning (sweep_entry config learning e now).0 now
      ≡ ((sweep_entry config learning e now).0, [])
unfolding sweep_entry go_offline leave
sweep_entry_twice config learning e now = ground arith

sweep_devices_twice :
    (config : StateConfig) (learning : Bool) (d : List (MacAddr × Entry)) (now : ℕ)
    → sweep_devices config learning (sweep_devices config learning d now).0 now
      ≡ ((sweep_devices config learning d now).0, [])
unfolding sweep_devices
sweep_devices_twice config learning [] now = refl
sweep_devices_twice config learning ((k, e) ∷ rest) now =
    rw (sweep_entry_twice config learning e now, sweep_devices_twice config learning rest now)

-- A sweep decides everything in one pass: a second one at the same moment changes nothing and has
-- no effect, also where the first came so late that a device passed both timeouts.
pub sweep_twice : (m : Manager) (now : ℕ) → sweep (sweep m now).0 now ≡ ((sweep m now).0, [])
unfolding sweep
sweep_twice m now = ground (arith, sweep_devices_twice m.config m.learning m.devices now)

sweep_entry_offline :
    (config : StateConfig) (learning : Bool) (e : Entry) (now : ℕ)
    → e.state ≡ offline
    → (sweep_entry config learning e now).0 ≡ e
unfolding sweep_entry
sweep_entry_offline config learning e now h = ground arith

place_entry_offline :
    (learning : Bool) (mac : MacAddr) (p : Place) (movement : Movement) (telemetry : Option Text)
    (at : ℕ) (e : Entry)
    → e.state ≡ offline
    → ((place_entry learning mac p movement telemetry at e).0.state ≡ offline)
      × ((place_entry learning mac p movement telemetry at e).0.current_ap ≡ some p.ap_name)
unfolding place_entry
place_entry_offline learning mac p movement telemetry at e h =
    (ground arith, ground (arith, option_beq_iff e.current_ap (some p.ap_name)))

-- A place that an enricher gives to an offline device outlives every sweep: the device stays
-- offline and keeps the place.
pub sweep-set_location_offline :
    (m : Manager) (mac : MacAddr) (p : Place) (movement : Movement) (telemetry : Option Text)
    (at now : ℕ) (e : Entry)
    → lookup mac m.devices ≡ some e
    → e.state ≡ offline
    → (f : Entry) × (lookup mac (sweep (set_location m mac p movement telemetry at).0 now).0.devices
        ≡ some f)
      × (f.state ≡ offline)
      × (f.current_ap ≡ some p.ap_name)
unfolding sweep set_location
sweep-set_location_offline m mac p movement telemetry at now e h off =
    let e' = (place_entry m.learning mac p movement telemetry at e).0 in
    let kept =
      sweep_entry_offline m.config m.learning e' now
        (place_entry_offline m.learning mac p movement telemetry at e off).0 in
    let there = (place_entry_offline m.learning mac p movement telemetry at e off) in
    (
      e',
      rw (h, set_location)
          (lookup-sweep m.config m.learning (insert mac e' m.devices) now mac
            ∙ rw (lookup-insert_self mac e' m.devices) (ap some kept)),
      there.0,
      there.1,
    )
