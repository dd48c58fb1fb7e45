-- ===== src/Device/Manager/Sweep.antt =====
-- src/device/mod.rs: `Manager::sweep` and `Manager::take_dirty`.
use netgraspd.Base.{
  ℕ, suc, ◌-◌, ◌/◌, ◌^◌, Bool, true, false, ◌&&◌, List, [], ◌∷◌, ◌++◌, Option, none, some, Text,
  if◌then◌else◌, leb, min,
}
use netgraspd.Time.{second}
use netgraspd.Types.{MacAddr}
use netgraspd.Types.Event.{DeviceState, online, idle, offline, is_offline, went_offline}
use netgraspd.Config.Timeouts.{StateConfig, idle_timeout_for, offline_timeout_for}
use netgraspd.Device.Effect.{
  silent, DeviceSnapshot, Effect, event, presence_closed, location_closed,
}
use netgraspd.Device.Entry.{Entry, snapshot}
use netgraspd.Device.Manager.{Manager, entry_event}

abbrev pub u32_max : ℕ
u32_max = 2 ^ 32 - 1

-- `entry.current_ap.take()`: where an offline device is, is nowhere.
unfoldable pub leave : Entry → Option Text → ℕ → Entry × List Effect
leave e none now = (e, [])
leave e (some ap) now =
    (record e { current_ap = none; current_location = none }, location_closed e.mac now ∷ [])

unfoldable pub go_offline : Bool → Entry → ℕ → Entry × List Effect
unfolding leave
go_offline learning e now =
    let gone = record e {
      state = offline;
      dirty = true;
      offline_transitions = min (suc e.offline_transitions) u32_max;
    } in
    let (e', left) = leave gone gone.current_ap now in
    (
      e',
      presence_closed e.mac now
          ∷ (left
              ++ (event (
                    entry_event went_offline e' learning e'.last_ip e'.last_interface now
                      (silent e'.last_seen_at ((now - e'.last_seen_at) / second)))
                  ∷ [])),
    )

abbrev pub is_online : DeviceState → Bool
is_online online = true
is_online _ = false

-- One device of the loop of `Manager::sweep`. A sighting later than `now` is no silence.
unfoldable pub sweep_entry : StateConfig → Bool → Entry → ℕ → Entry × List Effect
unfolding go_offline
sweep_entry config learning e now =
    let silence = now - e.last_seen_at in
    let device_type = e.classification.device_type in
    if is_offline e.state
    then (e, [])
    else if leb (offline_timeout_for config device_type) silence
    then go_offline learning e now
    else if leb (idle_timeout_for config device_type) silence && is_online e.state
    then (record e { state = idle; dirty = true }, [])
    else (e, [])

unfoldable pub sweep_devices :
    StateConfig → Bool → List (MacAddr × Entry) → ℕ → List (MacAddr × Entry) × List Effect
sweep_devices config learning [] now = ([], [])
sweep_devices config learning ((k, e) ∷ rest) now =
    let (e', effects) = sweep_entry config learning e now in
    let (rest', later) = sweep_devices config learning rest now in
    ((k, e') ∷ rest', effects ++ later)

unfoldable pub sweep : Manager → ℕ → Manager × List Effect
sweep m now =
    let (devices, effects) = sweep_devices m.config m.learning m.devices now in
    (record m { devices = devices }, effects)

-- One device of the loop of `Manager::take_dirty`.
unfoldable pub flush_entry : Entry → Entry × List DeviceSnapshot
flush_entry e =
    if e.dirty
    then (record e { dirty = false; observations_since_flush = 0 }, snapshot e ∷ [])
    else (e, [])

unfoldable pub flush_devices : List (MacAddr × Entry) → List (MacAddr × Entry) × List DeviceSnapshot
flush_devices [] = ([], [])
flush_devices ((k, e) ∷ rest) =
    let (e', out) = flush_entry e in
    let (rest', later) = flush_devices rest in ((k, e') ∷ rest', out ++ later)

unfoldable pub take_dirty : Manager → Manager × List DeviceSnapshot
take_dirty m = let (devices, out) = flush_devices m.devices in (record m { devices = devices }, out)
