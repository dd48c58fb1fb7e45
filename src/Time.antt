-- ===== src/Time.antt =====
-- Timestamps and durations of the `chrono` crate, which are numbers of nanoseconds here: a
-- timestamp counts from the epoch, and a signed difference is taken apart by its sign.
use netgraspd.Base.{ℕ, ◌-◌, Bool, false, Option, none, some, leb, ltb, if◌then◌else◌}

abbrev pub second : ℕ
second = 1_000_000_000

-- `now.signed_duration_since(since).to_std()`, an error where the difference is negative.
abbrev pub elapsed : ℕ → ℕ → Option ℕ
elapsed since now = if leb since now then some (now - since) else none

-- `.is_ok_and(|elapsed| elapsed >= bound)`
abbrev pub at_least : Option ℕ → ℕ → Bool
at_least none bound = false
at_least (some d) bound = leb bound d

-- `.is_ok_and(|elapsed| elapsed <= bound)`
abbrev pub at_most : Option ℕ → ℕ → Bool
at_most none bound = false
at_most (some d) bound = leb d bound

-- `.is_ok_and(|elapsed| elapsed < bound)`
abbrev pub less_than : Option ℕ → ℕ → Bool
less_than none bound = false
less_than (some d) bound = ltb d bound

-- `now.signed_duration_since(at) <= bound`, where a negative difference passes.
abbrev pub within : ℕ → ℕ → ℕ → Bool
within at now bound = leb (now - at) bound
