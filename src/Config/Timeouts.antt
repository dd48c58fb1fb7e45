-- ===== src/Config/Timeouts.antt =====
-- src/config.rs: the timeouts of the device state machine.
use netgraspd.Base.{ℕ, ◌≤◌, Option, none, some, ◌>>=◌, List, Text, list_eq, nat_eq, max, arith}
use netgraspd.Base.Assoc.{lookup}

pub record TimeoutOverride : Type 0 where
  pub idle_timeout : Option ℕ
  pub offline_timeout : Option ℕ

pub record StateConfig : Type 0 where
  pub idle_timeout : ℕ
  pub offline_timeout : ℕ
  pub flush_interval : ℕ
  pub sweep_interval : ℕ
  pub reconcile_interval : ℕ
  pub device_type_overrides : List (Text × TimeoutOverride)

abbrev pub unwrap_or {ℓ} : {A : Type ℓ} → Option A → A → A
unwrap_or none d = d
unwrap_or (some a) d = a

override_for : StateConfig → Option Text → Option TimeoutOverride
override_for c device_type = device_type >>= λ t. lookup t c.device_type_overrides

unfoldable pub idle_timeout_for : StateConfig → Option Text → ℕ
unfolding override_for
idle_timeout_for c device_type =
    unwrap_or (override_for c device_type >>= λ o. o.idle_timeout) c.idle_timeout

unfoldable pub offline_timeout_for : StateConfig → Option Text → ℕ
unfolding override_for
offline_timeout_for c device_type =
    let base =
      unwrap_or (override_for c device_type >>= λ o. o.offline_timeout) c.offline_timeout in
    max base (idle_timeout_for c device_type)

-- The idle state is always reachable: however the overrides are set, a device of any type goes
-- offline no earlier than it goes idle.
pub idle_timeout_for-le-offline_timeout_for :
    (c : StateConfig) (device_type : Option Text)
    → idle_timeout_for c device_type ≤ offline_timeout_for c device_type
unfolding offline_timeout_for
idle_timeout_for-le-offline_timeout_for c device_type = omega arith
