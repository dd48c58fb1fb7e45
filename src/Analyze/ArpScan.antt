-- ===== src/Analyze/ArpScan.antt =====
-- src/analyze/arp_scan.rs: one device sweeping the address space. `render` is the JSON text of an
-- alert's details, which serde_json writes, and `from_std` the conversion of chrono.
pub mod Vouched
pub mod Asked
use netgraspd.Base.{
  ℕ, ◌+◌, ◌/◌, ◌≤◌, max, Bool, true, false, ◌&&◌, ◌||◌, not, Option, none, some, List, [], ◌∷◌,
  ◌++◌, String, Text, nat_eq, leb, ltb, if◌then◌else◌,
}
use netgraspd.Base.Assoc.{lookup}
use netgraspd.Time.{second}
use netgraspd.Types.Mac.{MacAddr, mac_eq}
use netgraspd.Types.Net.{v4_unspecified, v4_broadcast, v4_multicast}
use netgraspd.Types.Event.{arp_scan}
use netgraspd.Types.Observed.{Observation, ArpOp, ArpDetail, arp_detail}
use netgraspd.Device.Manager.Feeds.{SecurityAlert}
use netgraspd.Analyze.Gateway.{is_gateway, is_reply}
use netgraspd.Analyze.Window.{
  BoundedMap, new_map, make_room, update_at, value_or, DistinctWindow, new_distinct, record_value,
}
use netgraspd.Analyze.Detector.{Context, new_alert, with_interface, cooled_down}

abbrev pub window_capacity : ℕ
window_capacity = 512

pub record Tracked : Type 0 where
  pub targets : DistinctWindow ℕ
  pub last_alert : Option ℕ

pub record ArpScan : Type 0 where
  pub window : ℕ
  pub threshold : ℕ
  pub gateway_threshold : ℕ
  pub tracked : BoundedMap MacAddr Tracked

-- `ArpScan::new`, of the configured window and thresholds.
unfoldable pub new_scan : ℕ → ℕ → ℕ → ℕ → ArpScan
new_scan window threshold gateway_threshold max_tracked = record {
  window = window;
  threshold = max threshold 1;
  gateway_threshold = max gateway_threshold (max threshold 1);
  tracked = new_map max_tracked;
}

abbrev pub untracked : Tracked
untracked = record { targets = new_distinct window_capacity; last_alert = none }

pub record ScanDetails : Type 0 where
  pub distinct_targets : ℕ
  pub threshold : ℕ
  pub window_secs : ℕ
  pub latest_target : ℕ
  pub is_gateway : Bool

-- What is held of the device when the reference to its entry is taken.
unfoldable pub tracked_of : MacAddr → ArpScan → Tracked
tracked_of m a = value_or untracked (lookup m (make_room m a.tracked).entries)

unfoldable pub threshold_for : Context → MacAddr → ArpScan → ℕ
threshold_for c m a = if is_gateway c.gateway m then a.gateway_threshold else a.threshold

-- Whether a request is about somebody else's address, as a sweep's are.
unfoldable pub is_question : ArpDetail → Bool
is_question d =
    not (is_reply d.op || d.gratuitous)
    && not (v4_unspecified d.target_ip || (v4_broadcast d.target_ip || v4_multicast d.target_ip))

-- The entry after an alert, which forgets the targets.
unfoldable pub alerted : ℕ → DistinctWindow ℕ → Tracked
alerted now targets = record { targets = record targets { seen = [] }; last_alert = some now }

module _ (from_std : ℕ → Option ℕ) (render : ScanDetails → Text) where
  unfoldable pub scan_alert : Context → Observation → ℕ → ℕ → ArpScan → SecurityAlert
  scan_alert c o target distinct a =
      with_interface
        (new_alert arp_scan o.mac o.observed_at c.priority (
          render (record {
            distinct_targets = distinct;
            threshold = threshold_for c o.mac a;
            window_secs = a.window / second;
            latest_target = target;
            is_gateway = is_gateway c.gateway o.mac;
          })))
        o.interface

  unfoldable pub scan_target : Context → Observation → ℕ → ArpScan → ArpScan × List SecurityAlert
  scan_target c o target a =
      let held : Tracked = tracked_of o.mac a in
      let counted : DistinctWindow ℕ × ℕ =
        record_value from_std target o.observed_at a.window held.targets in
      let fires : Bool =
        leb (threshold_for c o.mac a) counted.1
        && cooled_down held.last_alert o.observed_at a.window in
      let after : Tracked =
        if fires then alerted o.observed_at counted.0 else record held { targets = counted.0 } in
      (
        record a { tracked = update_at o.mac o.observed_at untracked (λ t. after) a.tracked },
        if fires then scan_alert c o target counted.1 a ∷ [] else [],
      )

  scan_detail : Context → Observation → Option ArpDetail → ArpScan → ArpScan × List SecurityAlert
  unfolding scan_target
  scan_detail c o none a = (a, [])
  scan_detail c o (some d) a = if is_question d then scan_target c o d.target_ip a else (a, [])

  -- `ArpScan::analyze`, on an observation.
  unfoldable pub scan : Context → Observation → ArpScan → ArpScan × List SecurityAlert
  unfolding scan_detail
  scan c o a = scan_detail c o (arp_detail o) a
