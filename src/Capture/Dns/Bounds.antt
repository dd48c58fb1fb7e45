-- ===== src/Capture/Dns/Bounds.antt =====
-- src/capture/dns.rs: what is read of a message lies inside it.
pub mod Sizes
use netgraspd.Base.{
  ℕ, zero, suc, ◌+◌, ◌-◌, ◌*◌, ◌/◌, ◌%◌, ◌≤◌, ◌<◌, Bool, true, false, ◌&&◌, List, [], ◌∷◌, ◌++◌,
  Option, none, some, Text, ◌≡◌, refl, arith, ap, subst, Bool-cases, Option-cases, inl, inr, length,
  length-append, get_elem?, ltb, leb, eqb, if◌then◌else◌, ◌>>=◌, ◌>>◌, guard, >>=-eq-some, sym,
}
use netgraspd.Config.Timeouts.{unwrap_or}
use netgraspd.Capture.Dns.{
  max_pointers, max_labels, Walk, Turn, goes_on, returns, or_return, follow_pointer, push_label,
  take_label, first_end, turn_on, turn, walk, and_then, returned, enough, read_name, checked_add,
  get_range, read_u16, Record, Message, keep, read_record, read_question, read_questions,
  read_records, parse_message,
}

get_elem?-lt : (xs : List ℕ) (i a : ℕ) → get_elem? xs i ≡ some a → i < length xs
get_elem?-lt [] i a h = absurd (ground arith)
get_elem?-lt (x ∷ xs) zero a h = omega arith
get_elem?-lt (x ∷ xs) (suc i) a h = omega (arith, get_elem?-lt xs i a h)

module _ (lossy : List ℕ → Text) (buf : List ℕ) (start : ℕ) where
  -- Where a name ends, when it is known, and until then where the walk is.
  abbrev Ends : Option ℕ → ℕ → Type 0
  Ends none offset = start ≤ offset
  Ends (some e) offset = (start < e) × (e ≤ length buf)

  abbrev Fits : Turn → Type 0
  Fits (goes_on w) = Ends w.end_of_name w.offset × (length w.labels ≤ max_labels)
  Fits (returns none) = Unit {0}
  Fits (returns (some (labels, end))) =
      (start < end) × (end ≤ length buf) × (length labels ≤ max_labels)

  if-Fits :
      (b : Bool) (t u : Turn)
      → (b ≡ true → Fits t)
      → (b ≡ false → Fits u)
      → Fits (if b then t else u)
  if-Fits true t u h k = h refl
  if-Fits false t u h k = k refl

  or_return-Fits {ℓ} :
      {A : Type ℓ} (o : Option A) (f : A → Turn)
      → ((a : A) → o ≡ some a → Fits (f a))
      → Fits (or_return o f)
  unfolding or_return
  or_return-Fits none f h = tt
  or_return-Fits (some a) f h = h a refl

  first_end-Ends :
      (o : Option ℕ) (offset target : ℕ)
      → Ends o offset
      → offset + 1 < length buf
      → Ends (first_end o (offset + 2)) target
  unfolding first_end
  first_end-Ends none offset target h k = (omega arith, omega arith)
  first_end-Ends (some e) offset target h k = h

  unwrap_or-Ends :
      (o : Option ℕ) (offset : ℕ)
      → Ends o offset
      → offset < length buf
      → (start < unwrap_or o (offset + 1)) × (unwrap_or o (offset + 1) ≤ length buf)
  unwrap_or-Ends none offset h k = (omega arith, omega arith)
  unwrap_or-Ends (some e) offset h k = h

  Ends-later : (o : Option ℕ) (offset to : ℕ) → Ends o offset → offset ≤ to → Ends o to
  Ends-later none offset to h k = omega arith
  Ends-later (some e) offset to h k = h

  pub checked_add-some : (a b c : ℕ) → checked_add a b ≡ some c → c ≡ a + b
  unfolding checked_add
  checked_add-some a b c h = ground arith

  module _ (w : Walk) (ends : Ends w.end_of_name w.offset)
      (few : length w.labels ≤ max_labels) where
    follow_pointer-Fits :
        (len lo : ℕ) → w.offset + 1 < length buf → Fits (follow_pointer lossy buf w len lo)
    unfolding follow_pointer
    follow_pointer-Fits len lo h =
        if-Fits (leb w.offset ((len % 64) * 256 + lo)) (returns none) _ (λ e. tt)
          λ e.
            if-Fits (ltb max_pointers (w.pointers + 1)) (returns none) _ (λ f. tt)
              λ f. (first_end-Ends w.end_of_name w.offset ((len % 64) * 256 + lo) ends h, few)

    push_label-Fits : (to : ℕ) (label : List ℕ) → w.offset ≤ to → Fits (push_label lossy w to label)
    unfolding push_label
    push_label-Fits to label h =
        if-Fits (ltb max_labels (length (w.labels ++ (lossy label ∷ [])))) (returns none) _
          (λ e. tt) λ e. (Ends-later w.end_of_name w.offset to ends h, ground arith)

    take_label-Fits : (len : ℕ) → Fits (take_label lossy buf w len)
    unfolding take_label
    take_label-Fits len = or_return-Fits (checked_add (w.offset + 1) len) _ λ to e.
        or_return-Fits (get_range buf (w.offset + 1) to) _ λ label f.
          push_label-Fits to label (omega (arith, checked_add-some (w.offset + 1) len to e))

    turn-Fits : Fits (turn lossy buf w)
    unfolding turn turn_on
    turn-Fits = or_return-Fits (get_elem? buf w.offset) _ λ len e.
        if-Fits (eqb (len / 64) 0) _ _
          (λ f.
            if-Fits (eqb len 0) _ _
              (λ g.
                let (a, b) =
                  unwrap_or-Ends w.end_of_name w.offset ends (get_elem?-lt buf w.offset len e) in
                (a, b, few))
              (λ g. take_label-Fits len))
          (λ f.
            if-Fits (eqb (len / 64) 3) _ (returns none)
              (λ g.
                or_return-Fits (get_elem? buf (w.offset + 1)) _
                  λ lo k. follow_pointer-Fits len lo (get_elem?-lt buf (w.offset + 1) lo k))
              (λ g. tt))

  and_then-Fits :
      (t : Turn) (f : Walk → Turn)
      → Fits t
      → ((w : Walk) → Fits (goes_on w) → Fits (f w))
      → Fits (and_then t f)
  and_then-Fits (returns r) f h k = h
  and_then-Fits (goes_on w) f h k = k w h

  walk-Fits : (fuel : ℕ) (w : Walk) → Fits (goes_on w) → Fits (walk lossy fuel buf w)
  unfolding walk
  walk-Fits zero w h = h
  walk-Fits (suc fuel) w h =
      and_then-Fits (turn lossy buf w) (walk lossy fuel buf) (turn-Fits w h.0 h.1)
        (λ w' k. walk-Fits fuel w' k)

  returned-Fits :
      (t : Turn) (labels : List Text) (end : ℕ)
      → Fits t
      → returned t ≡ some (labels, end)
      → Fits (returns (some (labels, end)))
  returned-Fits (returns none) labels end h e = absurd (ground arith)
  returned-Fits (returns (some r)) labels end h e = subst (λ x. Fits (returns x)) e h
  returned-Fits (goes_on w) labels end h e = absurd (ground arith)

  -- A name has at most the labels that the limit allows, and ends after the place that it was read
  -- from and inside the message, wherever its pointers lead.
  pub read_name-Fits :
      (labels : List Text) (end : ℕ)
      → read_name lossy buf start ≡ some (labels, end)
      → (start < end) × (end ≤ length buf) × (length labels ≤ max_labels)
  unfolding read_name
  read_name-Fits labels end e =
      returned-Fits (walk lossy enough buf _) labels end
        (walk-Fits enough (record { labels = []; offset = start; end_of_name = none; pointers = 0 })
          (omega arith, omega arith))
        e
