-- ===== src/Analyze/GratuitousArp.antt =====
-- src/analyze/gratuitous_arp.rs: one device announcing itself over and over. `render` is the JSON
-- text of an alert's details, `show` the standard library's text of an address and `from_std` the
-- conversion of chrono. Ten windows are not cut at the longest duration.
use netgraspd.Base.{
  ℕ, ◌*◌, ◌/◌, max, Bool, ◌&&◌, Option, none, some, List, [], ◌∷◌, Text, leb, if◌then◌else◌, ◌>>=◌,
}
use netgraspd.Base.Assoc.{lookup}
use netgraspd.Time.{second}
use netgraspd.Types.Mac.{MacAddr, mac_eq}
use netgraspd.Types.Net.{IpAddr, v4}
use netgraspd.Types.Event.{gratuitous_arp}
use netgraspd.Types.Observed.{Observation, ArpDetail, arp_detail}
use netgraspd.Device.Manager.Feeds.{SecurityAlert}
use netgraspd.Analyze.Window.{
  BoundedMap, new_map, make_room, update_at, value_or, RateWindow, new_rate, record_event,
}
use netgraspd.Analyze.Detector.{Context, new_alert, with_ip_if, with_interface, cooled_down}

abbrev pub announcement_capacity : ℕ
announcement_capacity = 256

pub record Announcing : Type 0 where
  pub announcements : RateWindow
  pub last_alert : Option ℕ

pub record GratuitousArp : Type 0 where
  pub window : ℕ
  pub threshold : ℕ
  pub tracked : BoundedMap MacAddr Announcing

-- `GratuitousArp::new`, of the configured window and threshold.
unfoldable pub new_gratuitous : ℕ → ℕ → ℕ → GratuitousArp
new_gratuitous window threshold max_tracked = record {
  window = window;
  threshold = max threshold 1;
  tracked = new_map max_tracked;
}

abbrev pub unannounced : Announcing
unannounced = record { announcements = new_rate announcement_capacity; last_alert = none }

pub record AnnouncementDetails : Type 0 where
  pub announcements : ℕ
  pub threshold : ℕ
  pub window_secs : ℕ
  pub announced_ip : ℕ

unfoldable pub announcing_of : MacAddr → GratuitousArp → Announcing
announcing_of m a = value_or unannounced (lookup m (make_room m a.tracked).entries)

module _ (from_std : ℕ → Option ℕ) (show : IpAddr → Text)
    (render : AnnouncementDetails → Text) where
  unfoldable pub announcement_alert :
      Context → Observation → ArpDetail → ℕ → GratuitousArp → SecurityAlert
  announcement_alert c o d count a = with_ip_if (d.sender_ip >>= λ ip. some (show (v4 ip))) (
      with_interface
        (new_alert gratuitous_arp o.mac o.observed_at c.priority (
          render (record {
            announcements = count;
            threshold = a.threshold;
            window_secs = a.window / second;
            announced_ip = d.target_ip;
          })))
        o.interface)

  unfoldable pub announce :
      Context → Observation → ArpDetail → GratuitousArp → GratuitousArp × List SecurityAlert
  announce c o d a =
      let held : Announcing = announcing_of o.mac a in
      let counted : RateWindow × ℕ =
        record_event from_std o.observed_at a.window held.announcements in
      let fires : Bool =
        leb a.threshold counted.1 && cooled_down held.last_alert o.observed_at (a.window * 10) in
      let after : Announcing =
        if fires
        then record {
          announcements = record (counted.0) { events = [] };
          last_alert = some o.observed_at;
        }
        else record held { announcements = counted.0 } in
      (
        record a { tracked = update_at o.mac o.observed_at unannounced (λ t. after) a.tracked },
        if fires then announcement_alert c o d counted.1 a ∷ [] else [],
      )

  gratuitous_detail :
      Context → Observation → Option ArpDetail → GratuitousArp → GratuitousArp × List SecurityAlert
  unfolding announce
  gratuitous_detail c o none a = (a, [])
  gratuitous_detail c o (some d) a = if d.gratuitous then announce c o d a else (a, [])

  -- `GratuitousArp::analyze`, on an observation.
  unfoldable pub gratuitous :
      Context → Observation → GratuitousArp → GratuitousArp × List SecurityAlert
  unfolding gratuitous_detail
  gratuitous c o a = gratuitous_detail c o (arp_detail o) a
