-- ===== src/Config/Numbers.antt =====
-- The standard library's decimal numbers: `to_string`, and `parse` of an unsigned integer of some
-- width, which takes one leading plus sign and fails on overflow.
use netgraspd.Base.{
  ℕ, zero, suc, ◌+◌, ◌-◌, ◌*◌, ◌/◌, ◌%◌, ◌^◌, ◌≤◌, ◌<◌, Bool, true, false, ◌&&◌, [], ◌∷◌, ◌++◌,
  Option, none, some, Text, ◌≡◌, refl, ◌∙◌, ap, arith, Bool-cases, Option-cases, inl, inr, ltb, leb,
  eqb, if◌then◌else◌, ◌>>=◌, All, All-append,
}

-- `char::is_ascii_digit`
unfoldable pub is_ascii_digit : ℕ → Bool
is_ascii_digit c = leb b'0' c && leb c b'9'

next_digit : ℕ → ℕ → ℕ → Option ℕ
next_digit width acc c =
    if is_ascii_digit c && ltb (acc * 10 + (c - b'0')) (2 ^ width)
    then some (acc * 10 + (c - b'0'))
    else none

unfoldable pub digits_from : ℕ → ℕ → Text → Option ℕ
unfolding next_digit
digits_from width acc [] = some acc
digits_from width acc (c ∷ s) = next_digit width acc c >>= λ n. digits_from width n s

some_digits : ℕ → Text → Option ℕ
some_digits width [] = none
some_digits width (c ∷ s) = digits_from width 0 (c ∷ s)

strip_plus : Text → Text
strip_plus [] = []
strip_plus (c ∷ s) = if eqb c b'+' then s else c ∷ s

unfoldable pub parse_uint : ℕ → Text → Option ℕ
unfolding strip_plus some_digits
parse_uint width s = some_digits width (strip_plus s)

decimal_on : ℕ → ℕ → Text
decimal_on zero n = (n % 10 + b'0') ∷ []
decimal_on (suc fuel) n =
    let rest = decimal_on fuel (n / 10) in
    if ltb n 10 then (n + b'0') ∷ [] else rest ++ ((n % 10 + b'0') ∷ [])

-- A number has no more digits than its value.
unfoldable pub decimal : ℕ → Text
unfolding decimal_on
decimal n = decimal_on n n

abbrev pub IsDigit : ℕ → Type 0
IsDigit c = is_ascii_digit c ≡ true

ascii_digit_lem : (n : ℕ) → n < 10 → IsDigit (n + b'0')
unfolding is_ascii_digit
ascii_digit_lem n h = ground arith

decimal_on-IsDigit : (fuel n : ℕ) → All IsDigit (decimal_on fuel n)
unfolding decimal_on
decimal_on-IsDigit zero n = (ascii_digit_lem (n % 10) (omega arith), tt)
decimal_on-IsDigit (suc fuel) n = elim (Bool-cases (ltb n 10)) [
  | inl e ↦ rw e (ascii_digit_lem n (ground arith), tt)
  | inr e ↦ rw e (
      All-append IsDigit (decimal_on fuel (n / 10)) _ (decimal_on-IsDigit fuel (n / 10))
        (ascii_digit_lem (n % 10) (omega arith), tt))
]

digits_from-append :
    (width acc : ℕ) (s t : Text)
    → digits_from width acc (s ++ t) ≡ (digits_from width acc s >>= λ n. digits_from width n t)
unfolding digits_from
digits_from-append width acc [] t = refl
digits_from-append width acc (c ∷ s) t = elim (Option-cases (next_digit width acc c)) [
  | inl e ↦ rw e refl
  | inr (n, e) ↦ rw e (digits_from-append width n s t)
]

next_digit_lem :
    (width acc d : ℕ)
    → d < 10
    → acc * 10 + d < 2 ^ width
    → next_digit width acc (d + b'0') ≡ some (acc * 10 + d)
unfolding next_digit is_ascii_digit
next_digit_lem width acc d h k = ground arith

last_digit :
    (width acc d n : ℕ)
    → d < 10
    → acc * 10 + d ≡ n
    → n < 2 ^ width
    → (next_digit width acc (d + b'0') >>= λ m. some m) ≡ some n
last_digit width acc d n h e k = rw (next_digit_lem width acc d h (omega arith)) (ap some e)

-- The digits of a number are read back.
digits_from-decimal_on :
    (width fuel n : ℕ) → n ≤ fuel → n < 2 ^ width → digits_from width 0 (decimal_on fuel n) ≡ some n
unfolding decimal_on digits_from
digits_from-decimal_on width zero n f h =
    last_digit width 0 (n % 10) n (omega arith) (omega arith) h
digits_from-decimal_on width (suc fuel) n f h = elim (Bool-cases (ltb n 10)) [
  | inl e ↦ rw e (last_digit width 0 n n (ground arith) (omega arith) h)
  | inr e ↦
      rw e rw (digits_from-append width 0 (decimal_on fuel (n / 10)) ((n % 10 + b'0') ∷ [])) rw
        (digits_from-decimal_on width fuel (n / 10) (omega arith) (omega arith))
        (last_digit width (n / 10) (n % 10) n (omega arith) (omega arith) h)
]

starts_with_digit : Text → Bool
starts_with_digit [] = false
starts_with_digit (c ∷ s) = is_ascii_digit c

starts_with_digit-append :
    (s t : Text) → starts_with_digit s ≡ true → starts_with_digit (s ++ t) ≡ true
unfolding starts_with_digit
starts_with_digit-append [] t h = absurd (ground arith)
starts_with_digit-append (c ∷ s) t h = h

decimal_on-starts : (fuel n : ℕ) → starts_with_digit (decimal_on fuel n) ≡ true
unfolding decimal_on starts_with_digit
decimal_on-starts zero n = ascii_digit_lem (n % 10) (omega arith)
decimal_on-starts (suc fuel) n = elim (Bool-cases (ltb n 10)) [
  | inl e ↦ rw e (ascii_digit_lem n (ground arith))
  | inr e ↦
      rw e (starts_with_digit-append (decimal_on fuel (n / 10)) _ (decimal_on-starts fuel (n / 10)))
]

parse_uint-digits :
    (width : ℕ) (s : Text) → starts_with_digit s ≡ true → parse_uint width s ≡ digits_from width 0 s
unfolding parse_uint strip_plus some_digits starts_with_digit is_ascii_digit
parse_uint-digits width [] h = absurd (ground arith)
parse_uint-digits width (c ∷ s) h = ground arith

-- A number below the width is read back from its decimal digits.
pub parse_uint-decimal : (width n : ℕ) → n < 2 ^ width → parse_uint width (decimal n) ≡ some n
unfolding decimal
parse_uint-decimal width n h =
    parse_uint-digits width (decimal_on n n) (decimal_on-starts n n)
    ∙ digits_from-decimal_on width n n (omega arith) h

-- And with a zero before them.
pub parse_uint-zero-decimal :
    (width n : ℕ) → n < 2 ^ width → parse_uint width (b'0' ∷ decimal n) ≡ some n
unfolding decimal digits_from starts_with_digit is_ascii_digit
parse_uint-zero-decimal width n h =
    parse_uint-digits width (b'0' ∷ decimal_on n n) (ascii_digit_lem 0 (omega arith))
    ∙ rw (next_digit_lem width 0 0 (omega arith) (omega arith))
        (digits_from-decimal_on width n n (omega arith) h)

-- A number is written in digits.
pub decimal-IsDigit : (n : ℕ) → All IsDigit (decimal n)
unfolding decimal
decimal-IsDigit n = decimal_on-IsDigit n n
