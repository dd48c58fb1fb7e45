-- ===== src/Device/Manager/Observe.antt =====
-- src/device/mod.rs: `Manager::observe`, `Manager::discover` and `Manager::add_signal`.
use netgraspd.Base.{
  ℕ, suc, ◌+◌, Bool, true, false, ◌||◌, not, List, [], ◌∷◌, ◌++◌, Option, none, some, Text, ◌==◌,
  list_eq, nat_eq, option_eq, if◌then◌else◌, keep_if, map, ltb,
}
use netgraspd.Base.Assoc.{lookup, insert, contains_key}
use netgraspd.Types.{
  MacAddr, mac_eq, is_group, is_zero, IpAddr, v4, v6, ip_eq, is_recordable, Signal, vendor,
  is_blank, kind_as_str, Observation,
}
use netgraspd.Types.Event.{
  online, idle, offline, new_device, returned, ip_changed, name_updated, normal,
}
use netgraspd.Identity.Scorer.{Identity, resolve}
use netgraspd.Identity.Classification.{Classification, unclassified}
use netgraspd.Device.Effect.{
  Details, seen, readdressed, renamed, DeviceEvent, display, Effect, event, signal, address,
  presence_opened,
}
use netgraspd.Device.Entry.{
  Env, Entry, best, snapshot, record_signals, rescore, record_ipv6, reclassify,
}
use netgraspd.Device.Manager.{
  Reclassification, Attributed, Manager, entry_event, ipv4_string, attribute,
}

abbrev vendor_signals : Option Signal → List Signal
vendor_signals none = []
vendor_signals (some s) = s ∷ []

abbrev changed_from : Option Text → Text → Bool
changed_from none new = false
changed_from (some old) new = not (old == new)

abbrev pub vendor_effects : MacAddr → Option Text → ℕ → List Effect
vendor_effects mac none at = []
vendor_effects mac (some v) at = signal mac (record { kind = vendor; value = v }) at ∷ []

-- The clock, the counter and the dirty flag.
unfoldable pub touch : Observation → Entry → Entry
touch obs e = record e {
  last_seen_at = if ltb e.last_seen_at obs.observed_at then obs.observed_at else e.last_seen_at;
  observations_since_flush = suc e.observations_since_flush;
  dirty = true;
}

abbrev pub rename_effects :
    Bool → Entry → Option Identity → Option Text → ℕ → Option ℕ → List Effect
rename_effects learning e none interface at confidence = []
rename_effects learning e (some previous) interface at confidence =
    event (
      entry_event name_updated e learning e.last_ip interface at (
        renamed previous.display_name (kind_as_str previous.source) (kind_as_str e.identity.source)
          confidence))
    ∷ []

abbrev pub reclassified : Entry → Option Classification → Option Text → ℕ → List Reclassification
reclassified e none interface at = []
reclassified e (some previous) interface at =
    record {
      mac = e.mac;
      display_name = display (snapshot e);
      previous = previous;
      current = e.classification;
      interface = interface;
      at = at;
    }
    ∷ []

unfoldable pub rename_new : Bool → Bool → Entry → ℕ → Entry × List Effect
rename_new learning is_new e at =
    let (e', previous) = rescore e at in
    if is_new then (e', rename_effects learning e' previous e'.last_interface at none) else (e, [])

abbrev pub index_address : Manager → MacAddr → Option IpAddr → Manager
index_address m mac none = m
index_address m mac (some ip) =
    if is_recordable ip then record m { addresses = insert ip mac m.addresses } else m

module _ (env : Env) where
  -- The entry that `Manager::discover` makes.
  unfoldable pub new_entry : Bool → Observation → Entry
  new_entry learning obs =
      let signals = vendor_signals (env.vendor_signal obs.mac) in
      record {
        mac = obs.mac;
        state = online;
        first_seen_at = obs.observed_at;
        last_seen_at = obs.observed_at;
        last_ip = none;
        last_ipv6 = none;
        last_interface = some obs.interface;
        signals = signals;
        identity = resolve (record { mac = obs.mac; signals = signals; device_type = none });
        pending_identity = none;
        classification = unclassified;
        display_name = none;
        current_ap = none;
        current_location = none;
        baseline = learning;
        notify = true;
        offline_transitions = 0;
        observations_since_flush = 0;
        dirty = true;
      }

  unfoldable pub discover_event : Bool → Observation → Entry → DeviceEvent
  discover_event learning obs e = record {
    event_type = new_device;
    mac = obs.mac;
    display_name = display (snapshot e);
    vendor = best e vendor;
    ip = ipv4_string env obs.ip;
    interface = some obs.interface;
    at = obs.observed_at;
    baseline = learning;
    during_learning = learning;
    notify = true;
    priority = normal;
    details = Details.discovered obs.source obs.interface learning;
  }

  unfoldable pub discover : Manager → Observation → Manager × List Effect
  unfolding discover_event
  discover m obs =
      let e = new_entry m.learning obs in
      (
        record m { devices = insert obs.mac e m.devices },
        Effect.discovered (snapshot e)
            ∷ (vendor_effects obs.mac (best e vendor) obs.observed_at
                ++ (presence_opened obs.mac obs.interface (ipv4_string env obs.ip) obs.observed_at
                    ∷ event (discover_event m.learning obs e)
                    ∷ [])),
      )

  -- A device that had gone offline or idle is back.
  unfoldable pub revive : Bool → Observation → Entry → Entry × List Effect
  revive learning obs e = elim e.state [
    | offline ↦
        let e' = record e { state = online } in
        (
          e',
          presence_opened e.mac obs.interface (ipv4_string env obs.ip) obs.observed_at
              ∷ event (
                  entry_event returned e' learning (ipv4_string env obs.ip) (some obs.interface)
                    obs.observed_at (seen obs.source obs.interface))
              ∷ [],
        )
    | idle ↦ (record e { state = online }, [])
    | online ↦ (e, [])
  ]

  move_v4 : Bool → Observation → Entry → Option Text → Entry × List Effect
  move_v4 learning obs e none = (e, [])
  move_v4 learning obs e (some v) =
      let e' = record e { last_ip = some v } in
      (
        e',
        if changed_from e.last_ip v
            then event (
                entry_event ip_changed e' learning (some v) (some obs.interface) obs.observed_at
                  (readdressed e.last_ip v obs.interface))
              ∷ []
            else [],
      )

  move_v6 : Entry → IpAddr → Entry
  move_v6 e (v4 a) = e
  move_v6 e (v6 a) = record_ipv6 env e a

  -- The addresses of an observation.
  unfoldable pub move_address : Bool → Observation → Entry → Option IpAddr → Entry × List Effect
  unfolding move_v4 move_v6
  move_address learning obs e none = (e, [])
  move_address learning obs e (some ip) =
      if is_recordable ip
      then (let (e', moved) = move_v4 learning obs e (ipv4_string env (some ip)) in
          (move_v6 e' ip, address e.mac (env.show_ip ip) obs.interface obs.observed_at ∷ moved))
      else (e, [])

  -- The evidence about the sender: recorded, scored and classified.
  unfoldable pub hear :
      Bool → Bool → Observation → List Signal → Entry → Entry × List Effect × List Reclassification
  hear known learning obs usable e =
      let e1 = (record_signals e usable).0 in
      let (e2, previous) = rescore e1 obs.observed_at in
      let (e3, before) = reclassify env e2 obs.observed_at in
      (
        e3,
        map (λ s. signal e.mac s obs.observed_at) usable
            ++ (if known
                then rename_effects learning e2 previous (some obs.interface) obs.observed_at
                    (some e2.identity.confidence)
                else []),
        reclassified e3 before (some obs.interface) obs.observed_at,
      )

  -- All that an observation does to the sender's own entry.
  unfoldable pub observe_entry :
      Bool → Bool → Observation → List Signal → Entry → Entry × List Effect × List Reclassification
  observe_entry known learning obs mine e =
      let (e1, back) = revive learning obs (touch obs e) in
      let (e2, moved) = move_address learning obs e1 obs.ip in
      let e3 = record e2 { last_interface = some obs.interface } in
      let usable = keep_if (λ s. not (is_blank s.value)) obs.signals ++ mine in
      let (e4, heard, changes) = hear known learning obs usable e3 in
      (e4, back ++ (moved ++ heard), changes)

  -- `Manager::add_signal` on the entry of the device.
  unfoldable pub add_signal_entry :
      Bool → Signal → ℕ → Entry → Entry × List Effect × List Reclassification
  unfolding rename_new
  add_signal_entry learning s at e =
      let (e1, is_new) = record_signals e (s ∷ []) in
      let (e2, renames) = rename_new learning is_new (record e1 { dirty = true }) at in
      let (e3, before) = reclassify env e2 at in
      (e3, renames, reclassified e3 before e3.last_interface at)

  unfoldable pub add_signal : Manager → MacAddr → Signal → ℕ → Manager × List Effect
  add_signal m mac s at = if is_blank s.value then (m, []) else elim (lookup mac m.devices) [
    | none ↦ (m, [])
    | some e ↦
        let (e', renames, changes) = add_signal_entry m.learning s at e in
        (
          record m {
            devices = insert mac e' m.devices;
            reclassifications = m.reclassifications ++ changes;
          },
          signal mac s at ∷ renames,
        )
  ]

  unfoldable pub add_others : Manager → List (MacAddr × Signal) → ℕ → Manager × List Effect
  add_others m [] at = (m, [])
  add_others m ((mac, s) ∷ rest) at =
      let (m1, now) = add_signal m mac s at in
      let (m2, later) = add_others m1 rest at in (m2, now ++ later)

  -- The sender's entry is there: it was known, or has just been discovered.
  unfoldable pub observe_in : Manager → Observation → Bool → Attributed → Manager × List Effect
  observe_in m obs known about = elim (lookup obs.mac m.devices) [
    | none ↦ (m, [])
    | some e ↦
        let (e', effects, changes) = observe_entry known m.learning obs about.mine e in
        let (m', other) =
          add_others
            (record m {
              devices = insert obs.mac e' m.devices;
              reclassifications = m.reclassifications ++ changes;
            })
            about.others obs.observed_at in
        (m', effects ++ other)
  ]

  -- The index is updated first, so that the sender's current address is in it.
  unfoldable pub observe_known : Manager → Observation → Bool → Manager × List Effect
  observe_known m obs known =
      let indexed = index_address m obs.mac obs.ip in
      let about = attribute env indexed obs in
      observe_in
        (record indexed { unattributed_claims = indexed.unattributed_claims + about.unattributed })
        obs known about

  unfoldable pub observe : Manager → Observation → Manager × List Effect
  observe m obs =
      if is_group obs.mac || is_zero obs.mac
      then (m, [])
      else if contains_key obs.mac m.devices
      then observe_known m obs true
      else (let (m1, found) = discover m obs in
          let (m2, effects) = observe_known m1 obs false in (m2, found ++ effects))
