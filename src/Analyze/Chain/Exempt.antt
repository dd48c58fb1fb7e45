-- ===== src/Analyze/Chain/Exempt.antt =====
-- src/analyze/mod.rs: what the chain never reports.
use netgraspd.Base.{
  Bool, true, false, not, List, [], ◌∷◌, ◌++◌, ◌≡◌, refl, arith, All, All-append, contains,
  keep_if-All, subst, if◌then◌else◌,
}
use netgraspd.Types.Mac.{MacAddr, mac_eq}
use netgraspd.Device.Manager.Feeds.{SecurityAlert}
use netgraspd.Analyze.Detector.{Context, is_exempt, retain}
use netgraspd.Analyze.Chain.{
  Outside, Stimulus, observed, reclassified, Chain, analyze_all, run_chain, learn, observe_chain,
  reclassified_chain,
}

-- An alert that may be raised where these devices are exempt, on a chain that is switched on.
abbrev pub Permitted : List MacAddr → Bool → SecurityAlert → Type 0
Permitted exempt enabled a = (contains exempt a.mac ≡ false) × (enabled ≡ true)

module _ (outside : Outside) where
  unfoldable pub feed : Chain → Stimulus → Chain × List SecurityAlert
  feed ch (observed o) = observe_chain outside ch o
  feed ch (reclassified x) = reclassified_chain outside ch x

  unfoldable pub feed_all : Chain → List Stimulus → Chain × List SecurityAlert
  feed_all ch [] = (ch, [])
  feed_all ch (s ∷ rest) =
      let first = feed ch s in let later = feed_all first.0 rest in (later.0, first.1 ++ later.1)

  retained-Permitted :
      (c : Context) (alerts : List SecurityAlert)
      → All (λ a. not (is_exempt c a.mac) ≡ true) alerts
      → All (Permitted c.exempt true) alerts
  unfolding is_exempt
  retained-Permitted c [] h = tt
  retained-Permitted c (a ∷ rest) h = ((ground arith, refl), retained-Permitted c rest h.1)

  run_chain-Permitted :
      (ch : Chain) (s : Stimulus)
      → All (Permitted ch.context.exempt true) (run_chain outside ch s).1
  unfolding run_chain retain
  run_chain-Permitted ch s = retained-Permitted ch.context _ (
      keep_if-All (λ a. not (is_exempt ch.context a.mac))
        (analyze_all outside ch.context s ch.analyzers).1)

  -- The exemption and the switch stay as they are.
  abbrev Steady : Chain → Chain × List SecurityAlert → Type 0
  Steady ch result =
      All (Permitted ch.context.exempt ch.enabled) result.1
      × (result.0.context.exempt ≡ ch.context.exempt)
      × (result.0.enabled ≡ ch.enabled)

  switched-Steady :
      (b : Bool) (ch ch' : Chain) (s : Stimulus)
      → ch.enabled ≡ b
      → ch'.context.exempt ≡ ch.context.exempt
      → ch'.enabled ≡ ch.enabled
      → Steady ch (if b then run_chain outside ch' s else (ch, []))
  unfolding run_chain
  switched-Steady true ch ch' s e x n = (
    rw e (
        subst (λ l. All (Permitted l true) (run_chain outside ch' s).1) x
          (run_chain-Permitted ch' s)),
    x,
    n,
  )
  switched-Steady false ch ch' s e x n = (tt, refl, refl)

  feed-Steady : (ch : Chain) (s : Stimulus) → Steady ch (feed ch s)
  unfolding feed observe_chain reclassified_chain learn
  feed-Steady ch (observed o) =
      switched-Steady ch.enabled ch (learn outside ch o) (observed o) refl refl refl
  feed-Steady ch (reclassified x) = switched-Steady ch.enabled ch ch (reclassified x) refl refl refl

  -- Whatever the chain is fed, with whichever detectors, it raises no alert about a device that is
  -- exempt when it starts, and none at all while it is switched off.
  pub feed_all-Permitted :
      (ss : List Stimulus) (ch : Chain)
      → All (Permitted ch.context.exempt ch.enabled) (feed_all ch ss).1
  unfolding feed_all
  feed_all-Permitted [] ch = tt
  feed_all-Permitted (s ∷ rest) ch =
      let (now, exempt, enabled) = feed-Steady ch s in
      All-append (Permitted ch.context.exempt ch.enabled) (feed ch s).1
        (feed_all (feed ch s).0 rest).1 now
        (subst (λ l. All (Permitted l ch.enabled) (feed_all (feed ch s).0 rest).1) exempt
          (subst
            (λ b. All (Permitted (feed ch s).0.context.exempt b) (feed_all (feed ch s).0 rest).1)
            enabled (feed_all-Permitted rest (feed ch s).0)))
