-- ===== src/Config/Notifying.antt =====
-- src/config.rs: what the notification dispatcher reads. The settings of the ntfy transport are
-- left out of the record, since the dispatcher does not read them.
use netgraspd.Base.{
  ℕ, ◌+◌, ◌-◌, ◌*◌, ◌%◌, ◌<◌, Bool, false, ◌&&◌, ◌||◌, List, Option, String, ◌≡◌, arith, eqb, ltb,
  leb, if◌then◌else◌,
}
use netgraspd.Types.Event.{EventPriority}

-- A wall-clock time of day.
pub record ClockTime : Type 0 where
  pub hour : ℕ
  pub minute : ℕ

unfoldable pub clock_minutes : ClockTime → ℕ
clock_minutes t = t.hour * 60 + t.minute

pub record QuietHours : Type 0 where
  pub start : ClockTime
  pub end : ClockTime

-- `QuietHours::contains`
unfoldable pub is_quiet : QuietHours → ℕ → Bool
is_quiet q now =
    let s = clock_minutes q.start in
    let e = clock_minutes q.end in
    if eqb s e then false else if ltb s e then leb s now && ltb now e else leb s now || ltb now e

pub record NotifyConfig : Type 0 where
  pub enabled : Bool
  pub debounce : ℕ
  pub batch_threshold : ℕ
  pub batch_window : ℕ
  pub event_types : List String
  pub quiet_hours : Option QuietHours

pub record SecurityNotifyConfig : Type 0 where
  pub enabled : Bool
  pub priority : EventPriority
  pub bypass_quiet_hours : Bool
  pub bypass_debounce : Bool
  pub bypass_batch_window : Bool

-- A time that the parser of the configuration accepts.
abbrev pub IsClock : ClockTime → Type 0
IsClock t = (t.hour < 24) × (t.minute < 60)

-- Between two times of day, the quiet hours are the minutes of the day that come sooner after the
-- start than the end does, going around midnight where the end is the earlier one.
pub is_quiet_lem :
    (q : QuietHours) (now : ℕ)
    → IsClock q.start
    → IsClock q.end
    → now < 1440
    → is_quiet q now
      ≡ ltb
          ((now + 1440 - clock_minutes q.start) % 1440)
          ((clock_minutes q.end + 1440 - clock_minutes q.start) % 1440)
unfolding is_quiet clock_minutes
is_quiet_lem q now s e n = ground arith
