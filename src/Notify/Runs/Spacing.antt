-- ===== src/Notify/Runs/Spacing.antt =====
-- src/notify/mod.rs: two messages about one device.
use netgraspd.Base.{
  ℕ, ◌-◌, ◌≤◌, Bool, false, List, [], ◌∷◌, Option, none, some, ◌≡◌, refl, ◌∙◌, arith, Bool-cases,
  inl, inr, if◌then◌else◌, ltb, ◌&&◌, subst,
}
use netgraspd.Base.Assoc.{lookup, lookup-insert}
use netgraspd.Config.Notifying.{NotifyConfig, SecurityNotifyConfig}
use netgraspd.Types.{MacAddr, mac_eq}
use netgraspd.Types.Event.{is_security}
use netgraspd.Notify.{
  RecordedEvent, Dispatcher, drain, tick, tick_window, verdict, offer, Ruling, off, security_off,
  undeliverable, unlisted, quiet, repeated, at_once, batched, accept, counted, send_now, settle,
  too_soon, sooner_than, SuppressionCounts, new_dispatcher,
}
use netgraspd.Notify.Runs.{Input, offered, ticked, drained, step, run}

-- Whether an event is let off the debounce.
abbrev pub exempt : Dispatcher → RecordedEvent → Bool
exempt d e = is_security e.event.event_type && d.security.bypass_debounce

-- The events that join a batch, the latest first: the device, the time, whether they are exempt.
abbrev pub Acceptances : Type 0
Acceptances = List {0} (MacAddr × ℕ × Bool)

abbrev pub accepted_as : Ruling → Dispatcher → RecordedEvent → ℕ → Acceptances → Acceptances
accepted_as batched d e now log = (e.event.mac, now, exempt d e) ∷ log
accepted_as _ d e now log = log

unfoldable pub accepted : Dispatcher → List Input → Acceptances → Acceptances
accepted d [] log = log
accepted d (offered e now ∷ rest) log =
    accepted (offer d e now).0 rest (accepted_as (verdict d e now) d e now log)
accepted d (ticked now ∷ rest) log = accepted (tick d now).0 rest log
accepted d (drained ∷ rest) log = accepted (drain d).0 rest log

-- When a device was last accepted.
unfoldable pub last_time : MacAddr → Acceptances → Option ℕ
last_time mac [] = none
last_time mac ((j, at, x) ∷ log) = if mac_eq.beq j mac then some at else last_time mac log

-- Whoever is not exempt comes no sooner than the debounce after the last one of the same device.
unfoldable pub IsSpaced : ℕ → Acceptances → Type 0
IsSpaced debounce [] = Unit {0}
IsSpaced debounce ((mac, at, exempt) ∷ log) =
    (exempt ≡ false → (before : ℕ) → last_time mac log ≡ some before → debounce ≤ at - before)
    × IsSpaced debounce log

-- The map of the dispatcher holds the last time of each device.
Tracks : Dispatcher → Acceptances → Type 0
Tracks d log = (mac : MacAddr) → lookup mac d.last_accepted ≡ last_time mac log

-- The debounce is set, and what was accepted is spaced and tracked.
abbrev Sound : ℕ → Dispatcher → Acceptances → Type 0
Sound debounce d log = (d.config.debounce ≡ debounce) × Tracks d log × IsSpaced debounce log

module _ (debounce : ℕ) (log : Acceptances) where
  drain-Sound : (d : Dispatcher) → Sound debounce d log → Sound debounce (drain d).0 log
  unfolding drain Tracks
  drain-Sound d h = h

  tick_window-Sound :
      (o : Option ℕ) (d : Dispatcher) (now : ℕ)
      → Sound debounce d log
      → Sound debounce (tick_window o d now).0 log
  unfolding tick_window
  tick_window-Sound none d now h = h
  tick_window-Sound (some opened) d now h =
      elim (Bool-cases (ltb (now - opened) d.config.batch_window)) [
        | inl e ↦ rw e h
        | inr e ↦ rw e (drain-Sound d h)
      ]

  tick-Sound : (d : Dispatcher) (now : ℕ) → Sound debounce d log → Sound debounce (tick d now).0 log
  unfolding tick
  tick-Sound d now h = tick_window-Sound d.window_opened_at d now h

  counted-Sound :
      (d : Dispatcher) (c : SuppressionCounts) (now : ℕ)
      → Sound debounce d log
      → Sound debounce (tick (counted d c) now).0 log
  unfolding counted Tracks
  counted-Sound d c now h = tick-Sound (counted d c) now h

sooner_than-le :
    (o : Option ℕ) (now debounce before : ℕ)
    → sooner_than o now debounce ≡ false
    → o ≡ some before
    → debounce ≤ now - before
unfolding sooner_than
sooner_than-le none now debounce before h k = absurd (ground arith)
sooner_than-le (some a) now debounce before h k = ground arith

-- What is batched was not exempt, or not too soon.
verdict-batched :
    (d : Dispatcher) (e : RecordedEvent) (now : ℕ)
    → verdict d e now ≡ batched
    → exempt d e ≡ false
    → too_soon d e now ≡ false
unfolding verdict
verdict-batched d e now h x = ground arith

accept-Sound :
    (debounce : ℕ) (log : Acceptances) (d : Dispatcher) (e : RecordedEvent) (now : ℕ)
    → verdict d e now ≡ batched
    → Sound debounce d log
    → Sound debounce (accept d e now) ((e.event.mac, now, exempt d e) ∷ log)
unfolding accept Tracks last_time IsSpaced too_soon
accept-Sound debounce log d e now v (b, t, s) = (
  b,
  λ mac. rw (lookup-insert e.event.mac mac now d.last_accepted) rw (t mac) refl,
  (
    λ x before h.
        subst (λ n. n ≤ now - before) b
          (sooner_than-le (lookup e.event.mac d.last_accepted) now d.config.debounce before
            (verdict-batched d e now v x) (t e.event.mac ∙ h)),
    s,
  ),
)

settle-Sound :
    (debounce : ℕ) (log : Acceptances) (v : Ruling) (d : Dispatcher) (e : RecordedEvent) (now : ℕ)
    → verdict d e now ≡ v
    → Sound debounce d log
    → Sound debounce (settle v d e now).0 (accepted_as v d e now log)
unfolding settle send_now
settle-Sound debounce log off d e now v h = counted-Sound debounce log d _ now h
settle-Sound debounce log security_off d e now v h = counted-Sound debounce log d _ now h
settle-Sound debounce log undeliverable d e now v h = counted-Sound debounce log d _ now h
settle-Sound debounce log unlisted d e now v h = counted-Sound debounce log d _ now h
settle-Sound debounce log quiet d e now v h = counted-Sound debounce log d _ now h
settle-Sound debounce log repeated d e now v h = counted-Sound debounce log d _ now h
settle-Sound debounce log at_once d e now v h = tick-Sound debounce log d now h
settle-Sound debounce log batched d e now v h =
    tick-Sound debounce ((e.event.mac, now, exempt d e) ∷ log) (accept d e now) now
      (accept-Sound debounce log d e now v h)

run-Sound :
    (debounce : ℕ) (ins : List Input) (d : Dispatcher) (log : Acceptances)
    → Sound debounce d log
    → Sound debounce (run d ins).0 (accepted d ins log)
unfolding run step accepted offer
run-Sound debounce [] d log h = h
run-Sound debounce (offered e now ∷ rest) d log h =
    run-Sound debounce rest (offer d e now).0 (accepted_as (verdict d e now) d e now log)
      (settle-Sound debounce log (verdict d e now) d e now refl h)
run-Sound debounce (ticked now ∷ rest) d log h =
    run-Sound debounce rest (tick d now).0 log (tick-Sound debounce log d now h)
run-Sound debounce (drained ∷ rest) d log h =
    run-Sound debounce rest (drain d).0 log (drain-Sound debounce log d h)

new_dispatcher-Sound :
    (config : NotifyConfig) (security : SecurityNotifyConfig) (offset : ℕ)
    → Sound config.debounce (new_dispatcher config security offset) []
unfolding new_dispatcher Tracks IsSpaced last_time lookup
new_dispatcher-Sound config security offset = (refl, λ mac. refl, tt)

-- From a new dispatcher, whatever it is offered and whenever, an event that joins a batch and is
-- not let off the debounce comes at least the configured debounce after the last event of the same
-- device that joined one, where the difference of two times is zero if the clock went back.
pub run-IsSpaced :
    (config : NotifyConfig) (security : SecurityNotifyConfig) (offset : ℕ) (ins : List Input)
    → IsSpaced config.debounce (accepted (new_dispatcher config security offset) ins [])
run-IsSpaced config security offset ins =
    (run-Sound config.debounce ins (new_dispatcher config security offset) []
      (new_dispatcher-Sound config security offset)).2
