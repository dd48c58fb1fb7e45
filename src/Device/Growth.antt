-- ===== src/Device/Growth.antt =====
-- What no input takes back: a device, its first sighting, its baseline mark, the time of its last
-- sighting and the rank of its name.
pub mod Table
use netgraspd.Base.{
  ℕ, ◌≤◌, ◌+◌, Bool, true, false, ◌||◌, ◌≡◌, refl, sym, ap, ◌∙◌, subst, List, [], ◌∷◌, ◌++◌, Option,
  none, some, Text, ◌==◌, arith, Option-cases, Bool-cases, inl, inr, if◌then◌else◌, option_eq,
  list_eq, nat_eq,
}
use netgraspd.Base.Assoc.{lookup, insert, contains_key, lookup-insert}
use netgraspd.Location.{Place, Movement}
use netgraspd.Config.Timeouts.{StateConfig}
use netgraspd.Types.{
  MacAddr, mac_eq, mac_beq_iff, is_group, is_zero, is_blank, IpAddr, v4, v6, Signal, Observation,
}
use netgraspd.Identity.Scorer.{Identity}
use netgraspd.Device.Effect.{Effect}
use netgraspd.Device.Entry.{
  Env, Entry, record_signals, adopt, candidate_of, rescore, record_ipv6, reclassify,
}
use netgraspd.Device.Entry.Settle.{adopt_rank}
use netgraspd.Device.Manager.{Manager, Attributed, attribute, take_reclassifications, end_learning}
use netgraspd.Device.Manager.Observe.{
  new_entry, discover, touch, revive, move_address, hear, observe_entry, rename_new,
  add_signal_entry, add_signal, add_others, index_address, observe_in, observe_known, observe,
}
use netgraspd.Device.Manager.Sweep.{
  leave, go_offline, sweep_entry, sweep_devices, sweep, flush_devices, take_dirty,
}
use netgraspd.Device.Manager.Feeds.{
  UserSettings, apply_display_name, apply_notify, apply_settings, apply_user_settings, place_entry,
  set_location,
}
use netgraspd.Device.Machine.{
  Input, observed, signalled, swept, moved, edited, flushed, drained, learned, step, run,
}

pub record Grows (e f : Entry) : Type 0 where
  pub same_mac : f.mac ≡ e.mac
  pub same_first : f.first_seen_at ≡ e.first_seen_at
  pub same_baseline : f.baseline ≡ e.baseline
  pub later : e.last_seen_at ≤ f.last_seen_at
  pub rank : e.identity.confidence ≤ f.identity.confidence

pub Grows-refl : (e : Entry) → Grows e e
Grows-refl e = ground arith

pub Grows-trans : (e f g : Entry) → Grows e f → Grows f g → Grows e g
Grows-trans e f g a b = ground arith

pub touch-Grows : (obs : Observation) (e : Entry) → Grows e (touch obs e)
unfolding touch
touch-Grows obs e = ground arith

pub revive-Grows :
    (env : Env) (learning : Bool) (obs : Observation) (e : Entry)
    → Grows e (revive env learning obs e).0
unfolding revive
revive-Grows env learning obs e = ground arith

pub move_address-Grows :
    (env : Env) (learning : Bool) (obs : Observation) (e : Entry) (ip : Option IpAddr)
    → Grows e (move_address env learning obs e ip).0
unfolding move_address record_ipv6
move_address-Grows env learning obs e none = Grows-refl e
move_address-Grows env learning obs e (some (v4 a)) = ground arith
move_address-Grows env learning obs e (some (v6 a)) = ground arith

pub adopt-Grows : (e : Entry) (c : Identity) (now : ℕ) → Grows e (adopt e c now).0
unfolding adopt
adopt-Grows e c now = ground (arith, adopt_rank e c now)

pub rescore-Grows : (e : Entry) (now : ℕ) → Grows e (rescore e now).0
unfolding rescore
rescore-Grows e now = adopt-Grows e (candidate_of e) now

pub record_signals-Grows : (e : Entry) (ss : List Signal) → Grows e (record_signals e ss).0
unfolding record_signals
record_signals-Grows e ss = ground arith

pub reclassify-Grows : (env : Env) (e : Entry) (now : ℕ) → Grows e (reclassify env e now).0
unfolding reclassify
reclassify-Grows env e now = ground arith

pub hear-Grows :
    (env : Env) (known learning : Bool) (obs : Observation) (usable : List Signal) (e : Entry)
    → Grows e (hear env known learning obs usable e).0
unfolding hear
hear-Grows env known learning obs usable e =
    let e1 = (record_signals e usable).0 in
    let e2 = (rescore e1 obs.observed_at).0 in
    Grows-trans e e1 _ (record_signals-Grows e usable) (
      Grows-trans e1 e2 _ (rescore-Grows e1 obs.observed_at)
        (reclassify-Grows env e2 obs.observed_at))

pub observe_entry-Grows :
    (env : Env) (known learning : Bool) (obs : Observation) (mine : List Signal) (e : Entry)
    → Grows e (observe_entry env known learning obs mine e).0
unfolding observe_entry
observe_entry-Grows env known learning obs mine e =
    let t = touch obs e in
    let r = (revive env learning obs t).0 in
    let m = (move_address env learning obs r obs.ip).0 in
    let f : Entry = record m { last_interface = some obs.interface } in
    Grows-trans e t _ (touch-Grows obs e) (
      Grows-trans t r _ (revive-Grows env learning obs t) (
        Grows-trans r m _ (move_address-Grows env learning obs r obs.ip)
          (Grows-trans m f _ (ground arith) (hear-Grows env known learning obs _ f))))

pub rename_new-Grows :
    (learning is_new : Bool) (e : Entry) (at : ℕ) → Grows e (rename_new learning is_new e at).0
unfolding rename_new
rename_new-Grows learning true e at = rescore-Grows e at
rename_new-Grows learning false e at = Grows-refl e

pub add_signal_entry-Grows :
    (env : Env) (learning : Bool) (s : Signal) (at : ℕ) (e : Entry)
    → Grows e (add_signal_entry env learning s at e).0
unfolding add_signal_entry
add_signal_entry-Grows env learning s at e =
    let r = record_signals e (s ∷ []) in
    let d : Entry = record (r.0) { dirty = true } in
    let n = (rename_new learning r.1 d at).0 in
    Grows-trans e r.0 _ (record_signals-Grows e (s ∷ [])) (
      Grows-trans r.0 d _ (ground arith)
        (Grows-trans d n _ (rename_new-Grows learning r.1 d at) (reclassify-Grows env n at)))

pub sweep_entry-Grows :
    (config : StateConfig) (learning : Bool) (e : Entry) (now : ℕ)
    → Grows e (sweep_entry config learning e now).0
unfolding sweep_entry go_offline leave
sweep_entry-Grows config learning e now = ground arith

pub place_entry-Grows :
    (learning : Bool) (mac : MacAddr) (p : Place) (movement : Movement) (telemetry : Option Text)
    (at : ℕ) (e : Entry)
    → Grows e (place_entry learning mac p movement telemetry at e).0
unfolding place_entry
place_entry-Grows learning mac p movement telemetry at e = ground arith

pub apply_settings-Grows : (e : Entry) (s : UserSettings) → Grows e (apply_settings e s).0
unfolding apply_settings apply_display_name apply_notify
apply_settings-Grows e s = ground arith
