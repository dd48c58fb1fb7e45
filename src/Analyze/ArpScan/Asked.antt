-- ===== src/Analyze/ArpScan/Asked.antt =====
-- src/analyze/arp_scan.rs: the evidence behind an alert.
use netgraspd.Base.{
  ℕ, ◌≤◌, ◌≡◌, refl, ap, ◌∙◌, subst, Bool, true, false, Option, none, some, List, [], ◌∷◌, Text,
  nat_eq, length, All, if◌then◌else◌, arith, Bool-cases, inl, inr, ==_refl,
}
use netgraspd.Base.Assoc.{Distinct, All-insert}
use netgraspd.Types.Mac.{MacAddr, mac_eq}
use netgraspd.Types.Observed.{Observation, ArpDetail, arp_detail}
use netgraspd.Analyze.Window.{new_map, make_room, update_at, DistinctWindow, record_value}
use netgraspd.Analyze.Window.Counting.{IsWindow, Recent}
use netgraspd.Analyze.Window.Counting.Members.{record_value_lem}
use netgraspd.Analyze.Detector.{heard, Context}
use netgraspd.Analyze.Window.Entries.{make_room-All}
use netgraspd.Analyze.ArpScan.{
  ArpScan, ScanDetails, new_scan, tracked_of, threshold_for, is_question, alerted, scan_target,
  scan_detail, scan,
}
use netgraspd.Analyze.ArpScan.Vouched.{
  asks, asked, AllAsked, AllAsked-more, record_within-All, Vouched, Vouched-more,
  tracked_of-Vouched,
}

asks_self :
    (o : Observation) (d : ArpDetail)
    → arp_detail o ≡ some d
    → is_question d ≡ true
    → asks o o.mac d.target_ip o.observed_at ≡ true
unfolding asks
asks_self o d e q = rw e (ground (arith, q, ==_refl o.mac))

alerted-Vouched :
    (history : List Observation) (m : MacAddr) (now t : ℕ) (w : DistinctWindow ℕ)
    → IsWindow w
    → Vouched history (m, (alerted now w, t))
unfolding Vouched IsWindow alerted Distinct
alerted-Vouched history m now t w h = ((tt, (omega arith, h.1.1)), tt)

counted-Vouched :
    (history : List Observation) (m : MacAddr) (now t : ℕ) (w : DistinctWindow ℕ) (last : Option ℕ)
    (b : Bool)
    → IsWindow w
    → AllAsked history m w.seen
    → Vouched history
        (m, (if b then alerted now w else record { targets = w; last_alert = last }, t))
unfolding Vouched
counted-Vouched history m now t w last true h k = alerted-Vouched history m now t w h
counted-Vouched history m now t w last false h k = (h, k)

module _ (from_std : ℕ → Option ℕ) (render : ScanDetails → Text) where
  -- The window after a question has been recorded.
  targets_after : Observation → ℕ → ArpScan → DistinctWindow ℕ
  targets_after o x a =
      (record_value from_std x o.observed_at a.window (tracked_of o.mac a).targets).0

  targets_after-AllAsked :
      (o : Observation) (d : ArpDetail) (history : List Observation) (a : ArpScan)
      → arp_detail o ≡ some d
      → is_question d ≡ true
      → All (Vouched history) a.tracked.entries
      → AllAsked (o ∷ history) o.mac (targets_after o d.target_ip a).seen
  unfolding targets_after record_value Vouched
  targets_after-AllAsked o d history a e q h =
      record_within-All (λ p. asked (o ∷ history) o.mac p.0 p.1 ≡ true) (from_std a.window)
        d.target_ip o.observed_at (tracked_of o.mac a).targets (ground (arith, asks_self o d e q))
        (AllAsked-more o history o.mac (tracked_of o.mac a).targets.seen
          (tracked_of-Vouched history o.mac a h).1.1)

  module _ (age : ℕ) where
    targets_after_lem :
        (o : Observation) (x : ℕ) (history : List Observation) (a : ArpScan)
        → from_std a.window ≡ some age
        → All (Vouched history) a.tracked.entries
        → (IsWindow (targets_after o x a) × Recent o.observed_at age (targets_after o x a).seen)
          × ((record_value from_std x o.observed_at a.window (tracked_of o.mac a).targets).1
              ≡ length (targets_after o x a).seen)
    unfolding targets_after Vouched
    targets_after_lem o x history a f h =
        let counted =
          record_value_lem from_std x o.observed_at a.window age (tracked_of o.mac a).targets
            (tracked_of-Vouched history o.mac a h).1.0 f in
        (counted.0.0, counted.0.1.1)

    scan_target-Vouched :
        (c : Context) (o : Observation) (d : ArpDetail) (history : List Observation) (a : ArpScan)
        → from_std a.window ≡ some age
        → arp_detail o ≡ some d
        → is_question d ≡ true
        → All (Vouched history) a.tracked.entries
        → All
            (Vouched (o ∷ history))
            (scan_target from_std render c o d.target_ip a).0.tracked.entries
    unfolding scan_target update_at targets_after
    scan_target-Vouched c o d history a f e q h =
        All-insert (Vouched (o ∷ history)) o.mac _ (make_room o.mac a.tracked).entries
          (counted-Vouched (o ∷ history) o.mac o.observed_at o.observed_at
            (targets_after o d.target_ip a) (tracked_of o.mac a).last_alert _
            (targets_after_lem o d.target_ip history a f h).0.0
            (targets_after-AllAsked o d history a e q h))
          (Vouched-more o history _ (make_room-All (Vouched history) o.mac a.tracked h))

    detail-Vouched :
        (c : Context) (o : Observation) (od : Option ArpDetail) (history : List Observation)
        (a : ArpScan)
        → from_std a.window ≡ some age
        → arp_detail o ≡ od
        → All (Vouched history) a.tracked.entries
        → All (Vouched (o ∷ history)) (scan_detail from_std render c o od a).0.tracked.entries
    unfolding scan_detail
    detail-Vouched c o none history a f e h = Vouched-more o history a.tracked.entries h
    detail-Vouched c o (some d) history a f e h = elim (Bool-cases (is_question d)) [
      | inl q ↦ rw q (scan_target-Vouched c o d history a f e q h)
      | inr q ↦ rw q (Vouched-more o history a.tracked.entries h)
    ]

    scan-Vouched :
        (c : Context) (o : Observation) (history : List Observation) (a : ArpScan)
        → from_std a.window ≡ some age
        → All (Vouched history) a.tracked.entries
        → All (Vouched (o ∷ history)) (scan from_std render c o a).0.tracked.entries
    unfolding scan
    scan-Vouched c o history a f h = detail-Vouched c o (arp_detail o) history a f refl h

  detail_window :
      (c : Context) (o : Observation) (od : Option ArpDetail) (a : ArpScan)
      → (scan_detail from_std render c o od a).0.window ≡ a.window
  unfolding scan_detail scan_target
  detail_window c o none a = refl
  detail_window c o (some d) a = elim (Bool-cases (is_question d)) [
    | inl q ↦ rw q refl
    | inr q ↦ rw q refl
  ]

  -- The state after some traffic, newest first.
  unfoldable pub after_all : List (Context × Observation) → ArpScan → ArpScan
  after_all [] a = a
  after_all ((c, o) ∷ earlier) a = (scan from_std render c o (after_all earlier a)).0

  after_all_window :
      (traffic : List (Context × Observation)) (a : ArpScan)
      → (after_all traffic a).window ≡ a.window
  unfolding after_all scan
  after_all_window [] a = refl
  after_all_window ((c, o) ∷ earlier) a =
      detail_window c o (arp_detail o) (after_all earlier a) ∙ after_all_window earlier a

  after_all-Vouched :
      (age : ℕ) (traffic : List (Context × Observation)) (a : ArpScan)
      → from_std a.window ≡ some age
      → All (Vouched []) a.tracked.entries
      → All (Vouched (heard traffic)) (after_all traffic a).tracked.entries
  unfolding after_all
  after_all-Vouched age [] a f h = h
  after_all-Vouched age ((c, o) ∷ earlier) a f h =
      scan-Vouched age c o (heard earlier) (after_all earlier a)
        (ap from_std (after_all_window earlier a) ∙ f) (after_all-Vouched age earlier a f h)

  -- The addresses behind an alert: as many as the threshold wants, no two the same, each asked for
  -- by the device, no longer ago than the window.
  abbrev pub Grounds : Context → Observation → List Observation → ℕ → ArpScan → Type 0
  Grounds c o history age a =
      (seen : List (ℕ × ℕ)) × (Distinct seen × (threshold_for c o.mac a ≤ length seen))
      × Recent o.observed_at age seen
      × AllAsked (o ∷ history) o.mac seen

  target-Grounds :
      (c : Context) (o : Observation) (d : ArpDetail) (history : List Observation) (age : ℕ)
      (a : ArpScan)
      → from_std a.window ≡ some age
      → arp_detail o ≡ some d
      → is_question d ≡ true
      → All (Vouched history) a.tracked.entries
      → 1 ≤ length (scan_target from_std render c o d.target_ip a).1
      → Grounds c o history age a
  unfolding scan_target targets_after IsWindow
  target-Grounds c o d history age a f e q h l =
      let after = targets_after_lem age o d.target_ip history a f h in
      (
        (targets_after o d.target_ip a).seen,
        (after.0.0.0, ground (arith, after.1, l)),
        after.0.1,
        targets_after-AllAsked o d history a e q h,
      )

  detail-Grounds :
      (c : Context) (o : Observation) (od : Option ArpDetail) (history : List Observation) (age : ℕ)
      (a : ArpScan)
      → from_std a.window ≡ some age
      → arp_detail o ≡ od
      → All (Vouched history) a.tracked.entries
      → 1 ≤ length (scan_detail from_std render c o od a).1
      → Grounds c o history age a
  unfolding scan_detail
  detail-Grounds c o none history age a f e h l = absurd (omega arith)
  detail-Grounds c o (some d) history age a f e h l = elim (Bool-cases (is_question d)) [
    | inl q ↦ target-Grounds c o d history age a f e q h (
        subst
          (λ b. 1 ≤ length (if b then scan_target from_std render c o d.target_ip a else (a, [])).1)
          q l)
    | inr q ↦ absurd (
        omega (
          arith,
          subst
              (λ b.
                1 ≤ length (if b then scan_target from_std render c o d.target_ip a else (a, [])).1)
              q l,
        ))
  ]

  -- A sweep that is reported was one: if, after any traffic, an observation makes the detector raise
  -- an alert, then there are as many distinct addresses as the threshold of that device asks for, each
  -- of which the device asked for no longer ago than the window, itself included.
  pub scan-Grounds :
      (c : Context) (o : Observation) (traffic : List (Context × Observation))
      (window threshold gateway_threshold max_tracked age : ℕ)
      → from_std window ≡ some age
      → 1
        ≤ length
            (scan from_std render c o
              (after_all traffic (new_scan window threshold gateway_threshold max_tracked))).1
      → Grounds c o
          (heard traffic)
          age
          (after_all traffic (new_scan window threshold gateway_threshold max_tracked))
  unfolding scan new_scan new_map
  scan-Grounds c o traffic window threshold gateway_threshold max_tracked age f l =
      let start = new_scan window threshold gateway_threshold max_tracked in
      detail-Grounds c o (arp_detail o) (heard traffic) age (after_all traffic start)
        (ap from_std (after_all_window traffic start) ∙ f) refl
        (after_all-Vouched age traffic start f tt) l
