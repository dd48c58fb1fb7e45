-- ===== src/Notify/Runs/Counting.antt =====
-- src/notify/mod.rs: what becomes of the events that the dispatcher is offered.
use netgraspd.Base.{
  ℕ, suc, ◌+◌, Bool, List, [], ◌∷◌, ◌++◌, Option, none, some, ◌≡◌, refl, arith, Bool-cases, inl,
  inr, if◌then◌else◌, map, length, length-append, append-nil, ltb, leb, ◌&&◌, ◌-◌, ap,
}
use netgraspd.Notify.{
  RecordedEvent, Delivery, single, delivery_events, SuppressionCounts, total, Dispatcher,
  deliveries_of, drain, tick, tick_window, verdict, offer, Ruling, off, security_off, undeliverable,
  unlisted, quiet, repeated, at_once, batched, accept, counted, send_now, settle,
}
use netgraspd.Notify.Runs.{
  Input, offered, ticked, drained, step, run, delivered, offers, dropped_as, dropped,
}

-- How many events of a list pass a test.
abbrev pub count : (RecordedEvent → Bool) → List RecordedEvent → ℕ
count p [] = 0
count p (e ∷ rest) = if p e then suc (count p rest) else count p rest

module _ (p : RecordedEvent → Bool) where
  count-append : (xs ys : List RecordedEvent) → count p (xs ++ ys) ≡ count p xs + count p ys
  count-append [] ys = omega arith
  count-append (x ∷ xs) ys = ground (arith, count-append xs ys)

  count-delivered :
      (xs ys : List Delivery)
      → count p (delivered (xs ++ ys)) ≡ count p (delivered xs) + count p (delivered ys)
  count-delivered [] ys = omega arith
  count-delivered (x ∷ xs) ys = omega (
    arith,
    count-append (delivery_events x) (delivered (xs ++ ys)),
    count-append (delivery_events x) (delivered xs),
    count-delivered xs ys,
  )

delivered-map : (es : List RecordedEvent) → delivered (map single es) ≡ es
unfolding delivery_events
delivered-map [] = refl
delivered-map (e ∷ es) = ap (λ t. e ∷ t) (delivered-map es)

-- Single or collapsed, what is delivered is what was pending, in order.
pub delivered-deliveries_of :
    (threshold : ℕ) (pending : List RecordedEvent)
    → delivered (deliveries_of threshold pending) ≡ pending
unfolding deliveries_of delivery_events
delivered-deliveries_of threshold [] = refl
delivered-deliveries_of threshold (e ∷ pending) =
    elim (Bool-cases (ltb 0 threshold && leb threshold (length (e ∷ pending)))) [
      | inl h ↦ rw h (append-nil (e ∷ pending))
      | inr h ↦ rw h (delivered-map (e ∷ pending))
    ]

-- The events of a step go where they are counted.
abbrev Accounts :
    (RecordedEvent → Bool)
    → Dispatcher
    → List RecordedEvent
    → Dispatcher × List Delivery
    → List RecordedEvent
    → Type 0
Accounts p d came (d', deliveries) lost =
    (count p (delivered deliveries) + count p d'.pending + count p lost
      ≡ count p d.pending + count p came)
    × (total d'.suppressed ≡ total d.suppressed + length lost)

module _ (p : RecordedEvent → Bool) where
  drain-Accounts : (d : Dispatcher) → Accounts p d [] (drain d) []
  unfolding drain
  drain-Accounts d =
      (rw (delivered-deliveries_of d.config.batch_threshold d.pending) omega arith, omega arith)

  tick_window-Accounts :
      (o : Option ℕ) (d : Dispatcher) (now : ℕ) → Accounts p d [] (tick_window o d now) []
  unfolding tick_window
  tick_window-Accounts none d now = (omega arith, omega arith)
  tick_window-Accounts (some opened) d now =
      elim (Bool-cases (ltb (now - opened) d.config.batch_window)) [
        | inl h ↦ rw h (omega arith, omega arith)
        | inr h ↦ rw h (drain-Accounts d)
      ]

  tick-Accounts : (d : Dispatcher) (now : ℕ) → Accounts p d [] (tick d now) []
  unfolding tick
  tick-Accounts d now = tick_window-Accounts d.window_opened_at d now

  refused-Accounts :
      (d : Dispatcher) (c : SuppressionCounts) (e : RecordedEvent) (now : ℕ)
      → total c ≡ suc (total d.suppressed)
      → Accounts p d (e ∷ []) (tick (counted d c) now) (e ∷ [])
  unfolding counted
  refused-Accounts d c e now h =
      let (events, counts) = tick-Accounts (counted d c) now in (omega arith, omega arith)

  at_once-Accounts :
      (d : Dispatcher) (e : RecordedEvent) (result : Dispatcher × List Delivery)
      → Accounts p d [] result []
      → Accounts p d (e ∷ []) (send_now result e) []
  unfolding send_now delivery_events
  at_once-Accounts d e (d', deliveries) (events, counts) =
      (omega (arith, count-delivered p deliveries (single e ∷ [])), omega arith)

  batched-Accounts :
      (d : Dispatcher) (e : RecordedEvent) (now : ℕ)
      → Accounts p d (e ∷ []) (tick (accept d e now) now) []
  unfolding accept
  batched-Accounts d e now =
      let (events, counts) = tick-Accounts (accept d e now) now in
      (omega (arith, count-append p d.pending (e ∷ [])), omega arith)

  settle-Accounts :
      (v : Ruling) (d : Dispatcher) (e : RecordedEvent) (now : ℕ)
      → Accounts p d (e ∷ []) (settle v d e now) (dropped_as v e)
  unfolding settle total
  settle-Accounts off d e now = refused-Accounts d _ e now (omega arith)
  settle-Accounts security_off d e now = refused-Accounts d _ e now (omega arith)
  settle-Accounts undeliverable d e now = refused-Accounts d _ e now (omega arith)
  settle-Accounts unlisted d e now = refused-Accounts d _ e now (omega arith)
  settle-Accounts quiet d e now = refused-Accounts d _ e now (omega arith)
  settle-Accounts repeated d e now = refused-Accounts d _ e now (omega arith)
  settle-Accounts at_once d e now = at_once-Accounts d e (tick d now) (tick-Accounts d now)
  settle-Accounts batched d e now = batched-Accounts d e now

  chain-Accounts :
      (d : Dispatcher) (came later lost lost_later : List RecordedEvent)
      (first rest : Dispatcher × List Delivery)
      → Accounts p d came first lost
      → Accounts p (first.0) later rest lost_later
      → Accounts p d (came ++ later) (rest.0, first.1 ++ rest.1) (lost ++ lost_later)
  chain-Accounts d came later lost lost_later (d1, sent) (d2, sent_later) (a, b) (c, e) = (
    omega (
      arith,
      count-delivered p sent sent_later,
      count-append p came later,
      count-append p lost lost_later,
    ),
    omega (arith, length-append lost lost_later),
  )

  -- In any run of the dispatcher, the events that it delivers, those that it still holds and those
  -- that it refuses are together the ones that it held and was offered, each as often as before,
  -- and its counters go up by the number of those that it refuses. The test is any test of an event.
  pub run-Accounts :
      (ins : List Input) (d : Dispatcher)
      → (count p (delivered (run d ins).1) + count p (run d ins).0.pending + count p (dropped d ins)
          ≡ count p d.pending + count p (offers ins))
        × (total (run d ins).0.suppressed ≡ total d.suppressed + length (dropped d ins))
  unfolding run step dropped offer
  run-Accounts [] d = (omega arith, omega arith)
  run-Accounts (offered e now ∷ rest) d =
      chain-Accounts d (e ∷ []) (offers rest) (dropped_as (verdict d e now) e)
        (dropped (offer d e now).0 rest) (offer d e now) (run (offer d e now).0 rest)
        (settle-Accounts (verdict d e now) d e now) (run-Accounts rest (offer d e now).0)
  run-Accounts (ticked now ∷ rest) d =
      chain-Accounts d [] (offers rest) [] (dropped (tick d now).0 rest) (tick d now)
        (run (tick d now).0 rest) (tick-Accounts d now) (run-Accounts rest (tick d now).0)
  run-Accounts (drained ∷ rest) d =
      chain-Accounts d [] (offers rest) [] (dropped (drain d).0 rest) (drain d)
        (run (drain d).0 rest) (drain-Accounts d) (run-Accounts rest (drain d).0)
