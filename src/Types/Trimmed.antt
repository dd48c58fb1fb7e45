-- ===== src/Types/Trimmed.antt =====
-- `str::trim` on a text that has no white space.
use netgraspd.Base.{
  ℕ, false, [], ◌∷◌, Text, ◌≡◌, refl, All, All-append, reverse, reverse-reverse, reverse-append,
}
use netgraspd.Types.Evidence.{is_whitespace, trim, trim_start}

abbrev pub IsInk : ℕ → Type 0
IsInk c = is_whitespace c ≡ false

trim_start_ink : (s : Text) → All IsInk s → trim_start s ≡ s
trim_start_ink [] h = refl
trim_start_ink (c ∷ s) h = rw (h.0) refl

reverse-IsInk : (s : Text) → All IsInk s → All IsInk (reverse s)
reverse-IsInk [] h = tt
reverse-IsInk (c ∷ s) h =
    rw (reverse-append (c ∷ []) s)
      (All-append IsInk (reverse s) (c ∷ []) (reverse-IsInk s h.1) (h.0, tt))

pub trim_ink : (s : Text) → All IsInk s → trim s ≡ s
unfolding trim
trim_ink s h =
    rw (trim_start_ink s h) rw (trim_start_ink (reverse s) (reverse-IsInk s h)) (reverse-reverse s)
