-- ===== src/Config/Duration/Roundtrip.antt =====
-- src/config.rs: durations that are written and read back, and those that are too long.
use netgraspd.Base.{
  ℕ, ◌*◌, ◌/◌, ◌%◌, ◌^◌, ◌≤◌, ◌<◌, Bool, true, false, [], ◌∷◌, ◌++◌, some, Text, ◌≡◌, refl, ◌∙◌, ap,
  arith, ◌↔◌, ◌⊎◌, inl, inr, eqb, if◌then◌else◌, ok, All, All-append,
}
use netgraspd.Types.{is_whitespace}
use netgraspd.Types.Trimmed.{IsInk, trim_ink}
use netgraspd.Config.Numbers.{is_ascii_digit, IsDigit, decimal, decimal-IsDigit, parse_uint-decimal}
use netgraspd.Config.Duration.{
  last_char, without_last, to_ascii_lowercase, unit_size, scaled, with_number, parse_trimmed,
  parse_duration, to_human,
}

last_char-snoc : (s : Text) (c : ℕ) → last_char (s ++ (c ∷ [])) ≡ some c
unfolding last_char
last_char-snoc [] c = refl
last_char-snoc (a ∷ []) c = refl
last_char-snoc (a ∷ b ∷ s) c = last_char-snoc (b ∷ s) c

without_last-snoc : (s : Text) (c : ℕ) → without_last (s ++ (c ∷ [])) ≡ s
unfolding without_last
without_last-snoc [] c = refl
without_last-snoc (a ∷ []) c = refl
without_last-snoc (a ∷ b ∷ s) c = ap (λ t. a ∷ t) (without_last-snoc (b ∷ s) c)

digit-IsInk : (c : ℕ) → IsDigit c → IsInk c
unfolding is_ascii_digit is_whitespace
digit-IsInk c h = ground arith

pub digits-IsInk : (s : Text) → All IsDigit s → All IsInk s
digits-IsInk [] h = tt
digits-IsInk (c ∷ s) h = (digit-IsInk c h.0, digits-IsInk s h.1)

-- A letter for a unit.
abbrev pub IsUnit : ℕ → ℕ → Type 0
IsUnit u size = unit_size u ≡ some size

abbrev UnitFacts : ℕ → ℕ → Type 0
UnitFacts u size = IsInk u × (is_ascii_digit u ≡ false) × (to_ascii_lowercase u ≡ u) × (0 < size)

unit_cases :
    (u size : ℕ)
    → IsUnit u size
    → ((u ≡ b's') × (size ≡ 1))
      ⊎ ((u ≡ b'm') × (size ≡ 60))
      ⊎ ((u ≡ b'h') × (size ≡ 3_600))
      ⊎ ((u ≡ b'd') × (size ≡ 86_400))
unfolding unit_size
unit_cases u size h = ground arith

unit_letter : (u size : ℕ) → IsUnit u size → UnitFacts u size
unfolding is_whitespace is_ascii_digit to_ascii_lowercase
unit_letter u size h = elim (unit_cases u size h) [
  | inl (e, f) ↦ rw e rw f (refl, refl, refl, omega arith)
  | inr (inl (e, f)) ↦ rw e rw f (refl, refl, refl, omega arith)
  | inr (inr (inl (e, f))) ↦ rw e rw f (refl, refl, refl, omega arith)
  | inr (inr (inr (e, f))) ↦ rw e rw f (refl, refl, refl, omega arith)
]

parse_duration-unit :
    (n u size : ℕ)
    → n < 2 ^ 64
    → IsUnit u size
    → parse_duration (decimal n ++ (u ∷ [])) ≡ ok ((n * size) % 2 ^ 64)
unfolding parse_duration parse_trimmed with_number scaled
parse_duration-unit n u size h unit =
    let (ink, letter, lower, _) = unit_letter u size unit in
    let digits = digits-IsInk (decimal n) (decimal-IsDigit n) in
    rw (trim_ink (decimal n ++ (u ∷ [])) (All-append IsInk (decimal n) (u ∷ []) digits (ink, tt)))
      rw (last_char-snoc (decimal n) u) rw letter rw (without_last-snoc (decimal n) u) rw
      (trim_ink (decimal n) digits) rw (parse_uint-decimal 64 n h) rw lower rw unit refl

if-reads :
    (s : ℕ) (b : Bool) (t u : Text)
    → (b ≡ true → parse_duration t ≡ ok s)
    → (b ≡ false → parse_duration u ≡ ok s)
    → parse_duration (if b then t else u) ≡ ok s
if-reads s true t u h k = h refl
if-reads s false t u h k = k refl

-- A whole number of a unit.
whole-reads :
    (s u size : ℕ)
    → s < 2 ^ 64
    → IsUnit u size
    → (s / size) * size ≡ s
    → s / size ≤ s
    → parse_duration (decimal (s / size) ++ (u ∷ [])) ≡ ok s
whole-reads s u size h unit e small =
    parse_duration-unit (s / size) u size (omega arith) unit ∙ ap ok (rw e omega arith)

zero-reads : (s : ℕ) → eqb s 0 ≡ true → parse_duration (b'0' ∷ b's' ∷ []) ≡ ok s
unfolding decimal unit_size
zero-reads s e = parse_duration-unit 0 b's' 1 (omega arith) refl ∙ ap ok (ground arith)

-- A duration in whole seconds, of any length that the type holds, is read back from the text that
-- it is written as.
pub parse_duration-to_human : (s : ℕ) → s < 2 ^ 64 → parse_duration (to_human s) ≡ ok s
unfolding to_human unit_size
parse_duration-to_human s h = if-reads s (eqb s 0) _ _ (zero-reads s) λ zero.
    if-reads s (eqb (s % 86_400) 0) _ _
      (λ e. whole-reads s b'd' 86_400 h refl (ground arith) (omega arith))
      λ d.
        if-reads s (eqb (s % 3_600) 0) _ _
          (λ e. whole-reads s b'h' 3_600 h refl (ground arith) (omega arith))
          λ d.
            if-reads s (eqb (s % 60) 0) _ _
              (λ e. whole-reads s b'm' 60 h refl (ground arith) (omega arith))
              λ d. parse_duration-unit s b's' 1 h refl ∙ ap ok (omega arith)

-- A number of a unit is read as that many seconds exactly if they are fewer than the type can
-- hold. It is read as some duration in any case, and never refused, so that a longer one is taken
-- for a shorter one.
pub parse_duration-exact_iff :
    (n u size : ℕ)
    → n < 2 ^ 64
    → IsUnit u size
    → ((m : ℕ) × (m < 2 ^ 64)
        × (parse_duration (decimal n ++ (u ∷ [])) ≡ ok m)
        × ((m ≡ n * size) ↔ (n * size < 2 ^ 64)))
parse_duration-exact_iff n u size h unit = (
  (n * size) % 2 ^ 64,
  omega arith,
  parse_duration-unit n u size h unit,
  (λ e. omega arith, λ e. omega arith),
)
