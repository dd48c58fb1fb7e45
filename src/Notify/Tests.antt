-- ===== src/Notify/Tests.antt =====
-- Three devices that come and go around a batch window of a minute, with a debounce of five.
use netgraspd.Base.{
  ℕ, ◌+◌, ◌*◌, ◌≡◌, true, false, Bool, List, [], ◌∷◌, ◌++◌, none, some, length, eqb,
}
use netgraspd.Config.Notifying.{NotifyConfig, SecurityNotifyConfig}
use netgraspd.Device.Effect.{seen}
use netgraspd.Time.{second}
use netgraspd.Types.Event.{new_device, normal}
use netgraspd.Notify.{RecordedEvent, Dispatcher, new_dispatcher, tick, total}
use netgraspd.Notify.Runs.{Input, offered, ticked, drained, run, delivered, offers, dropped}
use netgraspd.Notify.Runs.Counting.{count, run-Accounts}
use netgraspd.Notify.Runs.Spacing.{IsSpaced, accepted, run-IsSpaced}
use netgraspd.Notify.Batches.{Windowed, Prompt, tick-Prompt}

abbrev settings : NotifyConfig
settings = record {
  enabled = true;
  debounce = 300 * second;
  batch_threshold = 3;
  batch_window = 60 * second;
  event_types = "new_device" ∷ [];
  quiet_hours =
      some (record {
        start = record { hour = 22; minute = 0 };
        end = record { hour = 7; minute = 0 };
      });
}

abbrev security : SecurityNotifyConfig
security = record {
  enabled = true;
  bypass_quiet_hours = true;
  priority = netgraspd.Types.Event.high;
  bypass_debounce = true;
  bypass_batch_window = true;
}

abbrev arrival_of : ℕ → RecordedEvent
arrival_of n = record {
  id = n;
  event = record {
    event_type = new_device;
    mac = record { o0 = 2; o1 = 0; o2 = 0; o3 = 0; o4 = 0; o5 = n };
    display_name = [];
    vendor = none;
    ip = none;
    interface = none;
    at = 0;
    baseline = false;
    during_learning = false;
    notify = true;
    priority = normal;
    details = seen "arp" [];
  };
}

-- Noon, and the hours after it.
abbrev noon : ℕ
noon = 43_200 * second

abbrev traffic : List Input
traffic =
    offered (arrival_of 1) noon
    ∷ (offered (arrival_of 2) (noon + second)
        ∷ (offered (arrival_of 1) (noon + 2 * second)
            ∷ (ticked (noon + 90 * second) ∷ (drained ∷ []))))

abbrev start : Dispatcher
start = new_dispatcher settings security 0

abbrev of_first : RecordedEvent → Bool
of_first e = eqb e.id 1

run-Accounts_example :
    (count of_first (delivered (run start traffic).1)
        + count of_first (run start traffic).0.pending
        + count of_first (dropped start traffic)
      ≡ count of_first start.pending + count of_first (offers traffic))
    × (total (run start traffic).0.suppressed
        ≡ total start.suppressed + length (dropped start traffic))
run-Accounts_example = run-Accounts of_first traffic start

run-IsSpaced_example : IsSpaced settings.debounce (accepted start traffic [])
run-IsSpaced_example = run-IsSpaced settings security 0 traffic

tick-Prompt_example :
    let d = (run start traffic).0 in
    (delivered (tick d (noon + 90 * second)).1 ++ (tick d (noon + 90 * second)).0.pending
      ≡ d.pending)
    × Windowed (tick d (noon + 90 * second)).0
    × Prompt (noon + 90 * second) (tick d (noon + 90 * second)).0
tick-Prompt_example = tick-Prompt settings security 0 traffic (noon + 90 * second)
