-- ===== src/Config/Clock.antt =====
-- src/config.rs: a time of day as people write it, and what is rejected. The messages are a data
-- type with a constructor for each.
use netgraspd.Base.{
  ℕ, ◌^◌, ◌<◌, false, ◌&&◌, ◌||◌, [], ◌∷◌, ◌++◌, Option, none, some, Text, ◌≡◌, refl, arith,
  Bool-cases, inl, inr, ltb, eqb, if◌then◌else◌, Result, ok, err, All, ◌>>=◌,
}
use netgraspd.Types.{trim}
use netgraspd.Types.Trimmed.{trim_ink}
use netgraspd.Config.Notifying.{ClockTime, IsClock}
use netgraspd.Config.Numbers.{
  is_ascii_digit, IsDigit, parse_uint, decimal, decimal-IsDigit, parse_uint-decimal,
  parse_uint-zero-decimal,
}
use netgraspd.Config.Duration.Roundtrip.{digits-IsInk}

pub data ClockError : Type 0 where
  no_colon bad_hour bad_minute out_of_range : ClockError

-- `str::split_once(':')`
unfoldable pub split_once : Text → Option (Text × Text)
split_once [] = none
split_once (c ∷ s) =
    let rest = split_once s in
    if eqb c b':' then some ([], s) else rest >>= λ halves. some (c ∷ halves.0, halves.1)

unfoldable pub in_range : ℕ → ℕ → Result ClockTime ClockError
in_range hour minute =
    if ltb 23 hour || ltb 59 minute
    then err out_of_range
    else ok (record { hour = hour; minute = minute })

unfoldable pub with_minute : ℕ → Option ℕ → Result ClockTime ClockError
with_minute hour none = err bad_minute
with_minute hour (some minute) = in_range hour minute

unfoldable pub with_hour : Option ℕ → Text → Result ClockTime ClockError
with_hour none m = err bad_hour
with_hour (some hour) m = with_minute hour (parse_uint 32 (trim m))

unfoldable pub with_halves : Option (Text × Text) → Result ClockTime ClockError
with_halves none = err no_colon
with_halves (some (h, m)) = with_hour (parse_uint 32 (trim h)) m

-- `ClockTime::try_from`
unfoldable pub clock_from : Text → Result ClockTime ClockError
clock_from v = with_halves (split_once v)

-- `{:02}`
unfoldable pub two_digits : ℕ → Text
two_digits n = if ltb n 10 then b'0' ∷ decimal n else decimal n

unfoldable pub clock_text : ClockTime → Text
clock_text t = two_digits t.hour ++ (b':' ∷ two_digits t.minute)

two_digits-IsDigit : (n : ℕ) → All IsDigit (two_digits n)
unfolding two_digits is_ascii_digit
two_digits-IsDigit n = elim (Bool-cases (ltb n 10)) [
  | inl e ↦ rw e (refl, decimal-IsDigit n)
  | inr e ↦ rw e (decimal-IsDigit n)
]

parse_uint-two_digits : (n : ℕ) → n < 2 ^ 32 → parse_uint 32 (two_digits n) ≡ some n
unfolding two_digits
parse_uint-two_digits n h = elim (Bool-cases (ltb n 10)) [
  | inl e ↦ rw e (parse_uint-zero-decimal 32 n h)
  | inr e ↦ rw e (parse_uint-decimal 32 n h)
]

digit-colon : (c : ℕ) → IsDigit c → eqb c b':' ≡ false
unfolding is_ascii_digit
digit-colon c h = ground arith

split_once-digits : (s t : Text) → All IsDigit s → split_once (s ++ (b':' ∷ t)) ≡ some (s, t)
unfolding split_once
split_once-digits [] t h = refl
split_once-digits (c ∷ s) t h = rw (digit-colon c h.0) rw (split_once-digits s t h.1) refl

-- A time is read back from the text that it is written as if it is a time of day, and rejected as
-- out of range if it is not, for any hour and minute of 32 bits.
pub clock_from-clock_text :
    (t : ClockTime)
    → t.hour < 2 ^ 32
    → t.minute < 2 ^ 32
    → clock_from (clock_text t)
      ≡ (if ltb t.hour 24 && ltb t.minute 60 then ok t else err out_of_range)
unfolding clock_from clock_text with_halves with_hour with_minute in_range
clock_from-clock_text t h m =
    rw (split_once-digits (two_digits t.hour) (two_digits t.minute) (two_digits-IsDigit t.hour)) rw
      (trim_ink (two_digits t.hour) (digits-IsInk (two_digits t.hour) (two_digits-IsDigit t.hour)))
      rw (parse_uint-two_digits t.hour h) rw
      (trim_ink (two_digits t.minute)
        (digits-IsInk (two_digits t.minute) (two_digits-IsDigit t.minute)))
      rw (parse_uint-two_digits t.minute m) ground arith

in_range-IsClock : (hour minute : ℕ) (t : ClockTime) → in_range hour minute ≡ ok t → IsClock t
unfolding in_range
in_range-IsClock hour minute t h = ground arith

with_minute-IsClock :
    (hour : ℕ) (o : Option ℕ) (t : ClockTime) → with_minute hour o ≡ ok t → IsClock t
unfolding with_minute
with_minute-IsClock hour none t h = absurd (ground arith)
with_minute-IsClock hour (some minute) t h = in_range-IsClock hour minute t h

with_hour-IsClock : (o : Option ℕ) (m : Text) (t : ClockTime) → with_hour o m ≡ ok t → IsClock t
unfolding with_hour
with_hour-IsClock none m t h = absurd (ground arith)
with_hour-IsClock (some hour) m t h = with_minute-IsClock hour (parse_uint 32 (trim m)) t h

with_halves-IsClock : (o : Option (Text × Text)) (t : ClockTime) → with_halves o ≡ ok t → IsClock t
unfolding with_halves
with_halves-IsClock none t h = absurd (ground arith)
with_halves-IsClock (some (h, m)) t e = with_hour-IsClock (parse_uint 32 (trim h)) m t e

-- Whatever text is accepted, it is a time of day.
pub clock_from-IsClock : (v : Text) (t : ClockTime) → clock_from v ≡ ok t → IsClock t
unfolding clock_from
clock_from-IsClock v t h = with_halves-IsClock (split_once v) t h
