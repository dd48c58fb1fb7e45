-- ===== src/Capture/Dns/Stops.antt =====
-- src/capture/dns.rs: the loop of `read_name` ends, on any bytes.
use netgraspd.Base.{
  ℕ, zero, suc, ◌+◌, ◌*◌, ◌/◌, ◌%◌, ◌≤◌, ◌<◌, Bool, true, false, List, [], ◌∷◌, ◌++◌, Option, none,
  some, Text, ◌≡◌, refl, arith, Bool-cases, inl, inr, length, length-append, get_elem?, ltb, leb,
  eqb, if◌then◌else◌,
}
use netgraspd.Capture.Dns.{
  max_pointers, max_labels, Walk, Turn, goes_on, returns, or_return, follow_pointer, push_label,
  take_label, turn_on, turn, walk, and_then, enough, read_name, checked_add, get_range,
}

-- Each turn that goes on counts one label or one pointer more, within their limits.
abbrev Counts : Walk → Turn → Type 0
Counts w (returns r) = Unit {0}
Counts w (goes_on w') =
    (length w'.labels + w'.pointers ≡ suc (length w.labels + w.pointers))
    × (length w'.labels ≤ max_labels)
    × (w'.pointers ≤ max_pointers)

abbrev IsWithin : Walk → Type 0
IsWithin w = (length w.labels ≤ max_labels) × (w.pointers ≤ max_pointers)

or_return-Counts {ℓ} :
    {A : Type ℓ} (w : Walk) (o : Option A) (f : A → Turn)
    → ((a : A) → Counts w (f a))
    → Counts w (or_return o f)
unfolding or_return
or_return-Counts w none f h = tt
or_return-Counts w (some a) f h = h a

module _ (lossy : List ℕ → Text) (buf : List ℕ) (w : Walk) (within : IsWithin w) where
  if-Counts : (b : Bool) (t u : Turn) → Counts w t → Counts w u → Counts w (if b then t else u)
  if-Counts true t u h k = h
  if-Counts false t u h k = k

  follow_pointer-Counts : (len lo : ℕ) → Counts w (follow_pointer lossy buf w len lo)
  unfolding follow_pointer
  follow_pointer-Counts len lo = elim (Bool-cases (leb w.offset ((len % 64) * 256 + lo))) [
    | inl e ↦ rw e tt
    | inr e ↦ rw e elim (Bool-cases (ltb max_pointers (w.pointers + 1))) [
      | inl f ↦ rw f tt
      | inr f ↦ rw f (omega arith, within.0, ground arith)
    ]
  ]

  push_label-Counts : (to : ℕ) (label : List ℕ) → Counts w (push_label lossy w to label)
  unfolding push_label
  push_label-Counts to label =
      elim (Bool-cases (ltb max_labels (length (w.labels ++ (lossy label ∷ []))))) [
        | inl f ↦ rw f tt
        | inr f ↦
            rw f (omega (arith, length-append w.labels (lossy label ∷ [])), ground arith, within.1)
      ]

  take_label-Counts : (len : ℕ) → Counts w (take_label lossy buf w len)
  unfolding take_label
  take_label-Counts len = or_return-Counts w (checked_add (w.offset + 1) len) _ λ to.
      or_return-Counts w (get_range buf (w.offset + 1) to) _ λ label. push_label-Counts to label

  turn_on-Counts : (len : ℕ) → Counts w (turn_on lossy buf w len)
  unfolding turn_on
  turn_on-Counts len =
      if-Counts (eqb (len / 64) 0) _ _
        (if-Counts (eqb len 0) (returns _) _ tt (take_label-Counts len))
        (if-Counts (eqb (len / 64) 3) _ (returns none)
          (or_return-Counts w (get_elem? buf (w.offset + 1)) _ (follow_pointer-Counts len)) tt)

  turn-Counts : Counts w (turn lossy buf w)
  unfolding turn
  turn-Counts = or_return-Counts w (get_elem? buf w.offset) _ turn_on-Counts

abbrev Returns : Turn → Type 0
Returns t = (r : Option (List Text × ℕ)) × (t ≡ returns r)

and_then-Returns :
    (w : Walk) (t : Turn) (f : Walk → Turn)
    → Counts w t
    → ((w' : Walk) → Counts w (goes_on w') → Returns (f w'))
    → Returns (and_then t f)
and_then-Returns w (returns r) f c h = (r, refl)
and_then-Returns w (goes_on w') f c h = h w' c

-- What makes the rest of a walk return the same makes the whole do.
and_then-returns :
    (t : Turn) (f g : Walk → Turn) (r : Option (List Text × ℕ))
    → ((w : Walk) → f w ≡ returns r → g w ≡ returns r)
    → and_then t f ≡ returns r
    → and_then t g ≡ returns r
and_then-returns (returns r') f g r h e = e
and_then-returns (goes_on w) f g r h e = h w e

module _ (lossy : List ℕ → Text) (buf : List ℕ) where
  walk-Returns :
      (fuel : ℕ) (w : Walk)
      → IsWithin w
      → max_labels + max_pointers < fuel + (length w.labels + w.pointers)
      → Returns (walk lossy fuel buf w)
  unfolding walk
  walk-Returns zero w within h = absurd (ground arith)
  walk-Returns (suc fuel) w within h =
      and_then-Returns w (turn lossy buf w) (walk lossy fuel buf) (turn-Counts lossy buf w within)
        (λ w' c. walk-Returns fuel w' (c.1, c.2) (omega (arith, c.0)))

  walk_more :
      (fuel more : ℕ) (w : Walk) (r : Option (List Text × ℕ))
      → fuel ≤ more
      → walk lossy fuel buf w ≡ returns r
      → walk lossy more buf w ≡ returns r
  unfolding walk
  walk_more zero more w r h e = absurd (ground arith)
  walk_more (suc fuel) zero w r h e = absurd (ground arith)
  walk_more (suc fuel) (suc more) w r h e =
      and_then-returns (turn lossy buf w) (walk lossy fuel buf) (walk lossy more buf) r
        (λ w'. walk_more fuel more w' r (omega arith)) e

  -- The loop of `read_name` ends on any bytes, whatever its pointers do: on the fuel of the model,
  -- and on any more, it returns, with the same result, which is that of `read_name`.
  pub walk-stops :
      (start more : ℕ)
      → enough ≤ more
      → walk lossy more buf
          (record { labels = []; offset = start; end_of_name = none; pointers = 0 })
        ≡ returns (read_name lossy buf start)
  unfolding read_name
  walk-stops start more h =
      let w : Walk = record { labels = []; offset = start; end_of_name = none; pointers = 0 } in
      let (r, e) = walk-Returns enough w (omega arith, omega arith) (omega arith) in
      rw (walk_more enough more w r h e) rw e refl
