-- ===== src/Device/Growth/Table.antt =====
-- The table as a whole grows, and so does a run of inputs.
use netgraspd.Base.{
  ℕ, ◌+◌, Bool, true, false, ◌||◌, ◌≡◌, refl, subst, List, [], ◌∷◌, ◌++◌, Option, none, some, Text,
  ◌==◌, arith, Option-cases, Bool-cases, inl, inr, option_eq, list_eq, nat_eq,
}
use netgraspd.Base.Assoc.{lookup, insert, contains_key, lookup-insert}
use netgraspd.Location.{Place, Movement}
use netgraspd.Config.Timeouts.{StateConfig}
use netgraspd.Types.{
  MacAddr, mac_eq, mac_beq_iff, is_group, is_zero, is_blank, IpAddr, Signal, Observation,
}
use netgraspd.Device.Entry.{Env, Entry}
use netgraspd.Device.Manager.{Manager, Attributed, attribute, take_reclassifications, end_learning}
use netgraspd.Device.Manager.Observe.{
  new_entry, discover, observe_entry, add_signal, add_others, index_address, observe_in,
  observe_known, observe,
}
use netgraspd.Device.Manager.Sweep.{
  sweep_entry, sweep_devices, sweep, flush_entry, flush_devices, take_dirty,
}
use netgraspd.Device.Manager.Feeds.{UserSettings, apply_settings, apply_user_settings, set_location}
use netgraspd.Device.Machine.{
  Input, observed, signalled, swept, moved, edited, flushed, drained, learned, visited, alerted,
  step, run,
}
use netgraspd.Device.Growth.{
  Grows, Grows-refl, Grows-trans, observe_entry-Grows, add_signal_entry-Grows, sweep_entry-Grows,
  place_entry-Grows, apply_settings-Grows,
}

-- Every device of the one table is in the other, and has grown.
pub Extends : List (MacAddr × Entry) → List (MacAddr × Entry) → Type 0
Extends d d' =
    (k : MacAddr) (e : Entry)
    → lookup k d ≡ some e
    → (f : Entry) × (lookup k d' ≡ some f) × Grows e f

Extends-refl : (d : List (MacAddr × Entry)) → Extends d d
unfolding Extends
Extends-refl d k e h = (e, h, Grows-refl e)

Extends-trans : (d d' d'' : List (MacAddr × Entry)) → Extends d d' → Extends d' d'' → Extends d d''
unfolding Extends
Extends-trans d d' d'' a b k e h =
    let (f, hf, ef) = a k e h in let (g, hg, fg) = b k f hf in (g, hg, Grows-trans e f g ef fg)

Extends-update :
    (k : MacAddr) (e e' : Entry) (d : List (MacAddr × Entry))
    → lookup k d ≡ some e
    → Grows e e'
    → Extends d (insert k e' d)
unfolding Extends
Extends-update k e e' d h g j f hf = elim (Bool-cases (k == j)) [
  | inl here ↦ (e', rw (lookup-insert k j e' d, here), ground (arith, mac_beq_iff k j))
  | inr away ↦ (f, rw (lookup-insert k j e' d, away) hf, Grows-refl f)
]

Extends-new :
    (k : MacAddr) (e : Entry) (d : List (MacAddr × Entry))
    → contains_key k d ≡ false
    → Extends d (insert k e d)
unfolding Extends
Extends-new k e d h j f hf =
    (f, rw (lookup-insert k j e d) (ground (arith, mac_beq_iff k j)), Grows-refl f)

add_signal-Extends :
    (env : Env) (m : Manager) (mac : MacAddr) (s : Signal) (at : ℕ)
    → Extends m.devices (add_signal env m mac s at).0.devices
unfolding add_signal
add_signal-Extends env m mac s at = elim (Bool-cases (is_blank s.value)) [
  | inl b ↦ rw b (Extends-refl m.devices)
  | inr b ↦ rw b (elim (Option-cases (lookup mac m.devices)) [
    | inl h ↦ rw (h, add_signal) (Extends-refl m.devices)
    | inr (e, h) ↦
        rw (h, add_signal)
          (Extends-update mac e _ m.devices h (add_signal_entry-Grows env m.learning s at e))
  ])
]

add_others-Extends :
    (env : Env) (m : Manager) (others : List (MacAddr × Signal)) (at : ℕ)
    → Extends m.devices (add_others env m others at).0.devices
unfolding add_others
add_others-Extends env m [] at = Extends-refl m.devices
add_others-Extends env m ((mac, s) ∷ rest) at =
    let m1 = (add_signal env m mac s at).0 in
    Extends-trans m.devices m1.devices _ (add_signal-Extends env m mac s at)
      (add_others-Extends env m1 rest at)

devices-index_address :
    (m : Manager) (mac : MacAddr) (ip : Option IpAddr)
    → (index_address m mac ip).devices ≡ m.devices
devices-index_address m mac none = refl
devices-index_address m mac (some ip) = ground arith

observe_in-Extends :
    (env : Env) (m : Manager) (obs : Observation) (known : Bool) (about : Attributed)
    → Extends m.devices (observe_in env m obs known about).0.devices
unfolding observe_in
observe_in-Extends env m obs known about = elim (Option-cases (lookup obs.mac m.devices)) [
  | inl h ↦ rw (h, observe_in) (Extends-refl m.devices)
  | inr (e, h) ↦
      let r = observe_entry env known m.learning obs about.mine e in
      let d = insert obs.mac r.0 m.devices in
      rw (h, observe_in)
        (Extends-trans m.devices d _
          (Extends-update obs.mac e r.0 m.devices h
            (observe_entry-Grows env known m.learning obs about.mine e))
          (add_others-Extends env
            (record m { devices = d; reclassifications = m.reclassifications ++ r.2 }) about.others
            obs.observed_at))
]

observe_known-Extends :
    (env : Env) (m : Manager) (obs : Observation) (known : Bool)
    → Extends m.devices (observe_known env m obs known).0.devices
unfolding observe_known
observe_known-Extends env m obs known =
    let indexed = index_address m obs.mac obs.ip in
    let about = attribute env indexed obs in
    let counted : Manager = record indexed {
      unattributed_claims = indexed.unattributed_claims + about.unattributed;
    } in
    subst (λ d. Extends d (observe_in env counted obs known about).0.devices)
      (devices-index_address m obs.mac obs.ip) (observe_in-Extends env counted obs known about)

observe-Extends :
    (env : Env) (m : Manager) (obs : Observation) → Extends m.devices (observe env m obs).0.devices
unfolding observe discover
observe-Extends env m obs = elim (Bool-cases (is_group obs.mac || is_zero obs.mac)) [
  | inl group ↦ rw group (Extends-refl m.devices)
  | inr device ↦ rw device (elim (Bool-cases (contains_key obs.mac m.devices)) [
    | inl old ↦ rw old (observe_known-Extends env m obs true)
    | inr new ↦
        let m1 = (discover env m obs).0 in
        rw new (
          Extends-trans m.devices m1.devices _
            (Extends-new obs.mac (new_entry env m.learning obs) m.devices new)
            (observe_known-Extends env m1 obs false))
  ])
]

sweep_devices-Extends :
    (config : StateConfig) (learning : Bool) (d : List (MacAddr × Entry)) (now : ℕ)
    → Extends d (sweep_devices config learning d now).0
unfolding Extends sweep_devices lookup
sweep_devices-Extends config learning [] now k e h = absurd (ground arith)
sweep_devices-Extends config learning ((j, f) ∷ rest) now k e h = elim (Bool-cases (j == k)) [
  | inl here ↦ (
    (sweep_entry config learning f now).0,
    rw here,
    subst (λ x. Grows x (sweep_entry config learning f now).0) (ground arith)
        (sweep_entry-Grows config learning f now),
  )
  | inr away ↦ rw away (sweep_devices-Extends config learning rest now k e (ground arith))
]

flush_entry-Grows : (e : Entry) → Grows e (flush_entry e).0
unfolding flush_entry
flush_entry-Grows e = ground arith

flush_devices-Extends : (d : List (MacAddr × Entry)) → Extends d (flush_devices d).0
unfolding Extends flush_devices lookup
flush_devices-Extends [] k e h = absurd (ground arith)
flush_devices-Extends ((j, f) ∷ rest) k e h = elim (Bool-cases (j == k)) [
  | inl here ↦ (
    (flush_entry f).0,
    rw here,
    subst (λ x. Grows x (flush_entry f).0) (ground arith) (flush_entry-Grows f),
  )
  | inr away ↦ rw away (flush_devices-Extends rest k e (ground arith))
]

set_location-Extends :
    (m : Manager) (mac : MacAddr) (p : Place) (movement : Movement) (telemetry : Option Text)
    (at : ℕ)
    → Extends m.devices (set_location m mac p movement telemetry at).0.devices
unfolding set_location
set_location-Extends m mac p movement telemetry at = elim (Option-cases (lookup mac m.devices)) [
  | inl h ↦ rw (h, set_location) (Extends-refl m.devices)
  | inr (e, h) ↦
      rw (h, set_location)
        (Extends-update mac e _ m.devices h
          (place_entry-Grows m.learning mac p movement telemetry at e))
]

apply_user_settings-Extends :
    (m : Manager) (settings : List UserSettings)
    → Extends m.devices (apply_user_settings m settings).0.devices
unfolding apply_user_settings
apply_user_settings-Extends m [] = Extends-refl m.devices
apply_user_settings-Extends m (s ∷ rest) = elim (Option-cases (lookup s.mac m.devices)) [
  | inl h ↦ rw (h, apply_user_settings) (apply_user_settings-Extends m rest)
  | inr (e, h) ↦
      let m1 : Manager = record m { devices = insert s.mac (apply_settings e s).0 m.devices } in
      rw (h, apply_user_settings)
        (Extends-trans m.devices m1.devices _
          (Extends-update s.mac e _ m.devices h (apply_settings-Grows e s))
          (apply_user_settings-Extends m1 rest))
]

step-Extends : (env : Env) (m : Manager) (i : Input) → Extends m.devices (step env m i).0.devices
unfolding step sweep take_dirty take_reclassifications end_learning
step-Extends env m (observed obs) = observe-Extends env m obs
step-Extends env m (signalled mac s at) = add_signal-Extends env m mac s at
step-Extends env m (swept now) = sweep_devices-Extends m.config m.learning m.devices now
step-Extends env m (moved mac p movement telemetry at) =
    set_location-Extends m mac p movement telemetry at
step-Extends env m (edited settings) = apply_user_settings-Extends m settings
step-Extends env m flushed = flush_devices-Extends m.devices
step-Extends env m drained = Extends-refl m.devices
step-Extends env m learned = Extends-refl m.devices
step-Extends env m (visited p) = Extends-refl m.devices
step-Extends env m (alerted a) = Extends-refl m.devices

run-Extends :
    (env : Env) (m : Manager) (is : List Input) → Extends m.devices (run env m is).0.devices
unfolding run
run-Extends env m [] = Extends-refl m.devices
run-Extends env m (i ∷ is) =
    let m1 = (step env m i).0 in
    Extends-trans m.devices m1.devices _ (step-Extends env m i) (run-Extends env m1 is)

-- No run of inputs forgets a device: one that is in the table before is in it afterwards, with
-- the same first sighting and the same baseline mark, a last sighting that has not gone back,
-- whatever the clocks of the capture sources say, and a name of at least the rank it had.
pub run-Grows :
    (env : Env) (m : Manager) (is : List Input) (k : MacAddr) (e : Entry)
    → lookup k m.devices ≡ some e
    → (f : Entry) × (lookup k (run env m is).0.devices ≡ some f) × Grows e f
unfolding Extends
run-Grows env m is k e h = run-Extends env m is k e h
