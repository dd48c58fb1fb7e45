-- ===== src/Notify/Batches.antt =====
-- src/notify/mod.rs: how long a batch is held, and into how many messages it falls.
use netgraspd.Base.{
  ℕ, suc, ◌-◌, ◌≤◌, ◌<◌, true, false, List, [], ◌∷◌, ◌++◌, Option, none, some, ◌≡◌, refl, sym, ◌∙◌,
  arith, Bool-cases, inl, inr, ltb, length, length-append, append-nil, map, is_none, max,
}
use netgraspd.Config.Notifying.{NotifyConfig, SecurityNotifyConfig}
use netgraspd.Types.{is_empty}
use netgraspd.Types.Event.{is_security}
use netgraspd.Device.Effect.{deliverable}
use netgraspd.Notify.{
  RecordedEvent, single, Dispatcher, deliveries_of, drain, tick, tick_window, verdict, offer,
  Ruling, off, security_off, undeliverable, unlisted, quiet, repeated, at_once, batched, accept,
  counted, send_now, settle, new_dispatcher, opened_by,
}
use netgraspd.Notify.Runs.{Input, offered, ticked, drained, step, run, delivered}
use netgraspd.Notify.Runs.Counting.{delivered-deliveries_of}

-- A window is open exactly while something is pending.
abbrev pub Windowed : Dispatcher → Type 0
Windowed d = is_none d.window_opened_at ≡ is_empty d.pending

-- What is held after a tick was held for less than the window.
abbrev pub Prompt : ℕ → Dispatcher → Type 0
Prompt now d =
    (opened : ℕ) → d.window_opened_at ≡ some opened → now - opened < d.config.batch_window

drain-Windowed : (d : Dispatcher) → Windowed (drain d).0
unfolding drain
drain-Windowed d = refl

tick_window-Windowed :
    (o : Option ℕ) (d : Dispatcher) (now : ℕ)
    → d.window_opened_at ≡ o
    → Windowed d
    → Windowed (tick_window o d now).0 × Prompt now (tick_window o d now).0
unfolding tick_window drain
tick_window-Windowed none d now e h = (h, λ opened k. absurd (ground arith))
tick_window-Windowed (some o) d now e h = elim (Bool-cases (ltb (now - o) d.config.batch_window)) [
  | inl f ↦ rw f (h, λ opened k. ground arith)
  | inr f ↦ rw f (drain-Windowed d, λ opened k. absurd (ground arith))
]

-- What a tick does not deliver, it holds.
tick_window-delivered :
    (o : Option ℕ) (d : Dispatcher) (now : ℕ)
    → delivered (tick_window o d now).1 ++ (tick_window o d now).0.pending ≡ d.pending
unfolding tick_window drain
tick_window-delivered none d now = refl
tick_window-delivered (some o) d now = elim (Bool-cases (ltb (now - o) d.config.batch_window)) [
  | inl f ↦ rw f refl
  | inr f ↦ rw f (
      append-nil (delivered (deliveries_of d.config.batch_threshold d.pending))
      ∙ delivered-deliveries_of d.config.batch_threshold d.pending)
]

tick-Windowed : (d : Dispatcher) (now : ℕ) → Windowed d → Windowed (tick d now).0
unfolding tick
tick-Windowed d now h = (tick_window-Windowed d.window_opened_at d now refl h).0

is_empty-snoc : (es : List RecordedEvent) (e : RecordedEvent) → is_empty (es ++ (e ∷ [])) ≡ false
is_empty-snoc [] e = refl
is_empty-snoc (x ∷ es) e = refl

is_none-opened_by : (o : Option ℕ) (now : ℕ) → is_none (opened_by o now) ≡ false
unfolding opened_by
is_none-opened_by none now = refl
is_none-opened_by (some o) now = refl

accept-Windowed : (d : Dispatcher) (e : RecordedEvent) (now : ℕ) → Windowed (accept d e now)
unfolding accept
accept-Windowed d e now = is_none-opened_by d.window_opened_at now ∙ sym (is_empty-snoc d.pending e)

settle-Windowed :
    (v : Ruling) (d : Dispatcher) (e : RecordedEvent) (now : ℕ)
    → Windowed d
    → Windowed (settle v d e now).0
unfolding settle counted send_now
settle-Windowed off d e now h = tick-Windowed (counted d _) now h
settle-Windowed security_off d e now h = tick-Windowed (counted d _) now h
settle-Windowed undeliverable d e now h = tick-Windowed (counted d _) now h
settle-Windowed unlisted d e now h = tick-Windowed (counted d _) now h
settle-Windowed quiet d e now h = tick-Windowed (counted d _) now h
settle-Windowed repeated d e now h = tick-Windowed (counted d _) now h
settle-Windowed at_once d e now h = tick-Windowed d now h
settle-Windowed batched d e now h = tick-Windowed (accept d e now) now (accept-Windowed d e now)

run-Windowed : (ins : List Input) (d : Dispatcher) → Windowed d → Windowed (run d ins).0
unfolding run step offer
run-Windowed [] d h = h
run-Windowed (offered e now ∷ rest) d h =
    run-Windowed rest (offer d e now).0 (settle-Windowed (verdict d e now) d e now h)
run-Windowed (ticked now ∷ rest) d h = run-Windowed rest (tick d now).0 (tick-Windowed d now h)
run-Windowed (drained ∷ rest) d h = run-Windowed rest (drain d).0 (drain-Windowed d)

-- After any run from a new dispatcher, a tick delivers from what is pending a first part, in order,
-- and holds the rest. It holds something only in a window that was opened less than the configured
-- time ago, and no window is open while nothing is held.
pub tick-Prompt :
    (config : NotifyConfig) (security : SecurityNotifyConfig) (offset : ℕ) (ins : List Input)
    (now : ℕ)
    → let d = (run (new_dispatcher config security offset) ins).0 in
      (delivered (tick d now).1 ++ (tick d now).0.pending ≡ d.pending)
      × Windowed (tick d now).0
      × Prompt now (tick d now).0
unfolding tick new_dispatcher
tick-Prompt config security offset ins now =
    let d : Dispatcher = (run (new_dispatcher config security offset) ins).0 in
    let windowed =
      tick_window-Windowed d.window_opened_at d now refl
        (run-Windowed ins (new_dispatcher config security offset) refl) in
    (tick_window-delivered d.window_opened_at d now, windowed.0, windowed.1)

length-map : (es : List RecordedEvent) → length (map single es) ≡ length es
length-map [] = refl
length-map (e ∷ es) = omega (arith, length-map es)

-- The most messages that a batch makes.
abbrev pub most : ℕ → ℕ
most threshold = max 1 (threshold - 1)

deliveries_of-length :
    (threshold : ℕ) (pending : List RecordedEvent)
    → 0 < threshold
    → length (deliveries_of threshold pending) ≤ most threshold
unfolding deliveries_of
deliveries_of-length threshold [] h = omega arith
deliveries_of-length threshold (e ∷ pending) h = ground (arith, length-map pending)

tick_window-length :
    (o : Option ℕ) (d : Dispatcher) (now : ℕ)
    → 0 < d.config.batch_threshold
    → length (tick_window o d now).1 ≤ most d.config.batch_threshold
unfolding tick_window drain
tick_window-length none d now h = omega arith
tick_window-length (some o) d now h = elim (Bool-cases (ltb (now - o) d.config.batch_window)) [
  | inl f ↦ rw f (omega arith)
  | inr f ↦ rw f (deliveries_of-length d.config.batch_threshold d.pending h)
]

settle-length :
    (v : Ruling) (d : Dispatcher) (e : RecordedEvent) (now : ℕ)
    → 0 < d.config.batch_threshold
    → length (settle v d e now).1 ≤ suc (most d.config.batch_threshold)
unfolding settle counted send_now tick accept
settle-length off d e now h =
    omega (arith, tick_window-length d.window_opened_at (counted d _) now h)
settle-length security_off d e now h =
    omega (arith, tick_window-length d.window_opened_at (counted d _) now h)
settle-length undeliverable d e now h =
    omega (arith, tick_window-length d.window_opened_at (counted d _) now h)
settle-length unlisted d e now h =
    omega (arith, tick_window-length d.window_opened_at (counted d _) now h)
settle-length quiet d e now h =
    omega (arith, tick_window-length d.window_opened_at (counted d _) now h)
settle-length repeated d e now h =
    omega (arith, tick_window-length d.window_opened_at (counted d _) now h)
settle-length at_once d e now h = omega (
  arith,
  tick_window-length d.window_opened_at d now h,
  length-append (tick_window d.window_opened_at d now).1 (single e ∷ []),
)
settle-length batched d e now h =
    omega (arith, tick_window-length (opened_by d.window_opened_at now) (accept d e now) now h)

-- However many events are pending, an offer makes at most as many messages as the threshold less
-- one, and not fewer than one allowed, beside the event itself where it goes out at once.
pub offer-length :
    (d : Dispatcher) (e : RecordedEvent) (now : ℕ)
    → 0 < d.config.batch_threshold
    → length (offer d e now).1 ≤ suc (most d.config.batch_threshold)
unfolding offer
offer-length d e now h = settle-length (verdict d e now) d e now h

security-deliverable :
    (e : RecordedEvent) → is_security e.event.event_type ≡ true → deliverable e.event ≡ true
unfolding deliverable
security-deliverable e h = rw h refl

-- A security event goes out at once and on its own, after what was due, in quiet hours and however
-- soon after another of the same device, whatever its type and flags say, where notifications and
-- those of security events are switched on and the three bypasses are.
pub offer-security :
    (d : Dispatcher) (e : RecordedEvent) (now : ℕ)
    → is_security e.event.event_type ≡ true
    → d.config.enabled ≡ true
    → d.security.enabled ≡ true
    → d.security.bypass_quiet_hours ≡ true
    → d.security.bypass_debounce ≡ true
    → d.security.bypass_batch_window ≡ true
    → offer d e now ≡ ((tick d now).0, (tick d now).1 ++ (single e ∷ []))
unfolding offer verdict settle send_now
offer-security d e now s on security_on q b w =
    rw s rw on rw security_on rw (security-deliverable e s) rw q rw b rw w refl
