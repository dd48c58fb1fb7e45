-- ===== src/Config/Duration.antt =====
-- src/config.rs: durations as people write them. The value is in whole seconds here. Arithmetic
-- wraps, as it does in the release profile; `to_ascii_lowercase` is the standard library's.
pub mod Roundtrip
use netgraspd.Base.{
  ℕ, ◌+◌, ◌-◌, ◌*◌, ◌/◌, ◌%◌, ◌^◌, Bool, true, false, ◌&&◌, List, [], ◌∷◌, ◌++◌, Option, none, some,
  Text, ltb, leb, eqb, if◌then◌else◌, Result, ok, err,
}
use netgraspd.Types.{trim}
use netgraspd.Config.Numbers.{is_ascii_digit, parse_uint, decimal}

pub data DurationError : Type 0 where
  empty_duration non_numeric : DurationError
  unknown_unit : ℕ → DurationError

-- `s.chars().last()`, and the text before it.
unfoldable pub last_char : Text → Option ℕ
last_char [] = none
last_char (c ∷ []) = some c
last_char (c ∷ d ∷ s) = last_char (d ∷ s)

unfoldable pub without_last : Text → Text
without_last [] = []
without_last (c ∷ []) = []
without_last (c ∷ d ∷ s) = c ∷ without_last (d ∷ s)

unfoldable pub to_ascii_lowercase : ℕ → ℕ
to_ascii_lowercase c = if leb b'A' c && leb c b'Z' then c + 32 else c

unfoldable pub unit_size : ℕ → Option ℕ
unit_size u =
    if eqb u b's'
    then some 1
    else if eqb u b'm'
    then some 60
    else if eqb u b'h'
    then some 3_600
    else if eqb u b'd'
    then some 86_400
    else none

unfoldable pub scaled : ℕ → ℕ → Option ℕ → Result ℕ DurationError
scaled n u none = err (unknown_unit u)
scaled n u (some size) = ok ((n * size) % 2 ^ 64)

unfoldable pub with_number : Option ℕ → ℕ → Result ℕ DurationError
with_number none u = err non_numeric
with_number (some n) u = scaled n u (unit_size u)

unfoldable pub parse_trimmed : Option ℕ → Text → Result ℕ DurationError
parse_trimmed none s = err empty_duration
parse_trimmed (some c) s =
    if is_ascii_digit c
    then with_number (parse_uint 64 (trim s)) b's'
    else with_number (parse_uint 64 (trim (without_last s))) (to_ascii_lowercase c)

unfoldable pub parse_duration : Text → Result ℕ DurationError
parse_duration s = let t = trim s in parse_trimmed (last_char t) t

unfoldable pub to_human : ℕ → Text
to_human s =
    if eqb s 0
    then b'0' ∷ b's' ∷ []
    else if eqb (s % 86_400) 0
    then decimal (s / 86_400) ++ (b'd' ∷ [])
    else if eqb (s % 3_600) 0
    then decimal (s / 3_600) ++ (b'h' ∷ [])
    else if eqb (s % 60) 0
    then decimal (s / 60) ++ (b'm' ∷ [])
    else decimal s ++ (b's' ∷ [])
