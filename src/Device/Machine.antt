-- ===== src/Device/Machine.antt =====
-- The state machine as the daemon drives it: each input that reaches the table, and a run of them.
use netgraspd.Base.{ℕ, List, [], ◌∷◌, ◌++◌, Option, Text}
use netgraspd.Location.{Place, Movement}
use netgraspd.Types.{MacAddr, Signal, Observation}
use netgraspd.Device.Effect.{Effect}
use netgraspd.Device.Entry.{Env}
use netgraspd.Device.Manager.{Manager, end_learning, take_reclassifications}
use netgraspd.Device.Manager.Observe.{observe, add_signal}
use netgraspd.Device.Manager.Sweep.{sweep, take_dirty}
use netgraspd.People.{PersonEvent}
use netgraspd.Device.Manager.Feeds.{
  UserSettings, apply_user_settings, set_location, person_event, SecurityAlert, security_event,
}

pub data Input : Type 0 where
  observed : Observation → Input
  signalled : MacAddr → Signal → ℕ → Input
  swept : ℕ → Input
  moved : MacAddr → Place → Movement → Option Text → ℕ → Input
  edited : List UserSettings → Input
  flushed : Input
  drained : Input
  learned : Input
  visited : PersonEvent → Input
  alerted : SecurityAlert → Input

unfoldable pub step : Env → Manager → Input → Manager × List Effect
step env m (observed obs) = observe env m obs
step env m (signalled mac s at) = add_signal env m mac s at
step env m (swept now) = sweep m now
step env m (moved mac place movement telemetry at) = set_location m mac place movement telemetry at
step env m (edited settings) = ((apply_user_settings m settings).0, [])
step env m flushed = ((take_dirty m).0, [])
step env m drained = ((take_reclassifications m).0, [])
step env m learned = (end_learning m, [])
step env m (visited p) = (m, person_event m p)
step env m (alerted a) = (m, security_event env m a)

unfoldable pub run : Env → Manager → List Input → Manager × List Effect
run env m [] = (m, [])
run env m (i ∷ is) =
    let (m1, now) = step env m i in let (m2, later) = run env m1 is in (m2, now ++ later)
