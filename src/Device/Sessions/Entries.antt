-- ===== src/Device/Sessions/Entries.antt =====
-- src/device/mod.rs: the changes to one entry, seen from the device's session and stay.
pub mod Calm
use mathlib.Core.List.{append-nil}
use netgraspd.Base.{
  suc, min, leb, ◌-◌, ◌&&◌, ◌||◌, ℕ, Bool, true, false, not, ◌≡◌, refl, ap, ◌∙◌, List, [], ◌∷◌,
  ◌++◌, Option, none, some, Text, ◌==◌, arith, map, Bool-cases, inl, inr, if◌then◌else◌,
}
use netgraspd.Types.{MacAddr, mac_eq, mac_beq_iff, IpAddr, v4, v6, Signal, Observation}
use netgraspd.Types.Event.{DeviceState, online, idle, offline, is_offline}
use netgraspd.Identity.Scorer.{Identity}
use netgraspd.Config.Timeouts.{StateConfig, idle_timeout_for, offline_timeout_for}
use netgraspd.Device.Effect.{DeviceEvent, Effect, event, signal, presence_closed}
use netgraspd.Device.Entry.{
  Env, Entry, record_signals, rescore, adopt, candidate_of, record_ipv6, reclassify,
}
use netgraspd.Device.Manager.Observe.{
  touch, revive, move_address, hear, observe_entry, rename_new, add_signal_entry, rename_effects,
}
use netgraspd.Device.Manager.Sweep.{leave, go_offline, sweep_entry, u32_max, is_online}
use netgraspd.Device.Sessions.{Session, replay, replay-append, session_of, Tracks}
use netgraspd.Device.Sessions.Entries.Calm.{
  Tracks-trans, still, touch-Tracks, revive-Tracks, Quiet, Tracks-Quiet, Quiet-append,
  Quiet-signals, Quiet-rename, Quiet-if, Keeps-trans, adopt-Keeps, rescore-Keeps,
  record_signals-Keeps, reclassify-Keeps, Keeps,
}

move_address-Tracks :
    (env : Env) (learning : Bool) (obs : Observation) (e : Entry) (ip : Option IpAddr)
    → Tracks e (move_address env learning obs e ip).1 (move_address env learning obs e ip).0
unfolding move_address record_ipv6 replay
move_address-Tracks env learning obs e none = still e e refl refl refl
move_address-Tracks env learning obs e (some (v4 a)) =
    Tracks-Quiet e _ _ (ground arith) (ground arith) (ground arith) (λ mac t h. ground arith)
move_address-Tracks env learning obs e (some (v6 a)) =
    Tracks-Quiet e _ _ (ground arith) (ground arith) (ground arith) (λ mac t h. ground arith)

hear-Tracks :
    (env : Env) (known learning : Bool) (obs : Observation) (usable : List Signal) (e : Entry)
    → Tracks e (hear env known learning obs usable e).1 (hear env known learning obs usable e).0
unfolding hear
hear-Tracks env known learning obs usable e =
    let e1 = (record_signals e usable).0 in
    let r = rescore e1 obs.observed_at in
    let k =
      Keeps-trans (record_signals-Keeps e usable) (
        Keeps-trans (rescore-Keeps e1 obs.observed_at)
          (reclassify-Keeps env r.0 obs.observed_at)) in
    Tracks-Quiet e _ _ k.keeps_mac k.keeps_state k.keeps_ap (
      Quiet-append e.mac (map (λ s. signal e.mac s obs.observed_at) usable) _
        (Quiet-signals e.mac obs.observed_at usable)
        (Quiet-if e.mac known _ (
          Quiet-rename e.mac learning r.0 r.1 (some obs.interface) obs.observed_at
            (some r.0.identity.confidence))))

-- An observation keeps the sender's session in step.
pub observe_entry-Tracks :
    (env : Env) (known learning : Bool) (obs : Observation) (mine : List Signal) (e : Entry)
    → Tracks e
        (observe_entry env known learning obs mine e).1
        (observe_entry env known learning obs mine e).0
unfolding observe_entry
observe_entry-Tracks env known learning obs mine e =
    let t = touch obs e in
    let r = revive env learning obs t in
    let m = move_address env learning obs r.0 obs.ip in
    let f : Entry = record (m.0) { last_interface = some obs.interface } in
    Tracks-trans e t _ [] _ (touch-Tracks obs e) (
      Tracks-trans t r.0 _ r.1 _ (revive-Tracks env learning obs t t.state refl) (
        Tracks-trans r.0 m.0 _ m.1 _ (move_address-Tracks env learning obs r.0 obs.ip) (
          Tracks-trans m.0 f _ [] _ (still m.0 f refl refl refl)
            (hear-Tracks env known learning obs _ f))))

rename_new-Tracks :
    (learning is_new : Bool) (e : Entry) (at : ℕ)
    → Tracks e (rename_new learning is_new e at).1 (rename_new learning is_new e at).0
unfolding rename_new
rename_new-Tracks learning true e at =
    let k = rescore-Keeps e at in
    Tracks-Quiet e _ _ k.keeps_mac k.keeps_state k.keeps_ap
      (Quiet-rename e.mac learning _ _ _ at none)
rename_new-Tracks learning false e at = still e e refl refl refl

pub add_signal_entry-Tracks :
    (env : Env) (learning : Bool) (s : Signal) (at : ℕ) (e : Entry)
    → Tracks e (add_signal_entry env learning s at e).1 (add_signal_entry env learning s at e).0
unfolding add_signal_entry
add_signal_entry-Tracks env learning s at e =
    let r = record_signals e (s ∷ []) in
    let k = record_signals-Keeps e (s ∷ []) in
    let d : Entry = record (r.0) { dirty = true } in
    let n = rename_new learning r.1 d at in
    let c = reclassify-Keeps env n.0 at in
    rw (← append-nil n.1) (
      Tracks-trans e d _ [] _ (still e d k.keeps_mac k.keeps_state k.keeps_ap) (
        Tracks-trans d n.0 _ n.1 [] (rename_new-Tracks learning r.1 d at)
          (still n.0 _ c.keeps_mac c.keeps_state c.keeps_ap)))

leave-Tracks :
    (e : Entry) (ap : Option Text) (now : ℕ)
    → e.current_ap ≡ ap
    → Tracks e (leave e ap now).1 (leave e ap now).0
unfolding leave replay session_of
leave-Tracks e none now h = still e e refl refl refl
leave-Tracks e (some ap) now h = record {
  same_mac = refl;
  own = ground (arith, mac_beq_iff e.mac e.mac);
  other = λ mac t k. ground arith;
}

abbrev gone : Entry → Entry
gone e = record e {
  state = offline;
  dirty = true;
  offline_transitions = min (suc e.offline_transitions) u32_max;
}

close-Tracks :
    (e : Entry) (now : ℕ)
    → is_offline e.state ≡ false
    → Tracks e (presence_closed e.mac now ∷ []) (gone e)
unfolding replay session_of
close-Tracks e now h = record {
  same_mac = refl;
  own = ground (arith, mac_beq_iff e.mac e.mac);
  other = λ mac t k. ground arith;
}

Quiet-event : (k : MacAddr) (d : DeviceEvent) → Quiet k (event d ∷ [])
unfolding replay
Quiet-event k d mac s h = refl

go_offline-Tracks :
    (learning : Bool) (e : Entry) (now : ℕ)
    → is_offline e.state ≡ false
    → Tracks e (go_offline learning e now).1 (go_offline learning e now).0
unfolding go_offline
go_offline-Tracks learning e now h =
    let l = leave (gone e) (gone e).current_ap now in
    Tracks-trans e (gone e) _ (presence_closed e.mac now ∷ []) _ (close-Tracks e now h) (
      Tracks-trans (gone e) l.0 _ l.1 _ (leave-Tracks (gone e) e.current_ap now refl)
        (Tracks-Quiet l.0 l.0 _ refl refl refl (Quiet-event _ _)))

idle-Tracks :
    (e : Entry) → is_offline e.state ≡ false → Tracks e [] (record e { state = idle; dirty = true })
unfolding replay session_of
idle-Tracks e h = record { same_mac = refl; own = ground arith; other = λ mac t k. refl }

-- A sweep keeps each device's session in step.
pub sweep_entry-Tracks :
    (config : StateConfig) (learning : Bool) (e : Entry) (now : ℕ)
    → Tracks e (sweep_entry config learning e now).1 (sweep_entry config learning e now).0
unfolding sweep_entry
sweep_entry-Tracks config learning e now =
    let device_type = e.classification.device_type in
    let late = leb (offline_timeout_for config device_type) (now - e.last_seen_at) in
    let quiet =
      leb (idle_timeout_for config device_type) (now - e.last_seen_at) && is_online e.state in
    elim (Bool-cases (is_offline e.state)) [
      | inl off ↦ rw off (still e e refl refl refl)
      | inr on ↦ rw on (elim (Bool-cases late) [
        | inl l ↦ rw l (go_offline-Tracks learning e now on)
        | inr l ↦ rw l (elim (Bool-cases quiet) [
          | inl q ↦ rw q (idle-Tracks e on)
          | inr q ↦ rw q (still e e refl refl refl)
        ])
      ])
    ]
