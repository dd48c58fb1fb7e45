-- ===== src/Capture/Dns/Spelled.antt =====
-- src/capture/dns.rs: a name spelled out as RFC 1035 has it is read back.
use netgraspd.Base.{
  ℕ, zero, suc, ◌+◌, ◌-◌, ◌/◌, ◌^◌, ◌≤◌, ◌<◌, List, [], ◌∷◌, ◌++◌, none, some, Text, ◌≡◌, refl, sym,
  ◌∙◌, ap, arith, length, length-append, append-nil, append_assoc, length-drop, get_elem?, take,
  drop, lt→ltb, le→leb, map, All,
}
use netgraspd.Capture.Dns.{
  max_labels, Walk, goes_on, returns, or_return, push_label, take_label, turn_on, turn, walk,
  returned, enough, read_name, checked_add, get_range,
}

-- Each label after its length, and a zero at the end.
abbrev pub spell : List (List ℕ) → List ℕ
spell [] = 0 ∷ []
spell (l ∷ ls) = length l ∷ (l ++ spell ls)

abbrev pub IsLabel : List ℕ → Type 0
IsLabel l = (0 < length l) × (length l < 64)

drop-head :
    (i : ℕ) (xs : List ℕ) (a : ℕ) (ys : List ℕ) → drop i xs ≡ a ∷ ys → get_elem? xs i ≡ some a
drop-head zero [] a ys h = absurd (ground arith)
drop-head zero (x ∷ xs) a ys h = ground arith
drop-head (suc i) [] a ys h = absurd (ground arith)
drop-head (suc i) (x ∷ xs) a ys h = drop-head i xs a ys h

drop-tail : (i : ℕ) (xs : List ℕ) (a : ℕ) (ys : List ℕ) → drop i xs ≡ a ∷ ys → drop (suc i) xs ≡ ys
drop-tail zero [] a ys h = absurd (ground arith)
drop-tail zero (x ∷ xs) a ys h = ground arith
drop-tail (suc i) [] a ys h = absurd (ground arith)
drop-tail (suc i) (x ∷ xs) a ys h = drop-tail i xs a ys h

drop-append : (i k : ℕ) (xs l ys : List ℕ) → drop i xs ≡ l ++ ys → k ≡ i + length l → drop k xs ≡ ys
drop-append i k xs [] ys h e = rw (the_same e) h
  where
    the_same : k ≡ i + 0 → k ≡ i
    the_same e = omega arith
drop-append i k xs (a ∷ l) ys h e =
    drop-append (suc i) k xs l ys (drop-tail i xs a (l ++ ys) h) (omega arith)

take-append : (l ys : List ℕ) → take (length l) (l ++ ys) ≡ l
take-append [] ys = refl
take-append (a ∷ l) ys = ap (λ t. a ∷ t) (take-append l ys)

get_range-append :
    (buf l ys : List ℕ) (from to : ℕ)
    → drop from buf ≡ l ++ ys
    → from ≤ length buf
    → to ≡ from + length l
    → get_range buf from to ≡ some l
unfolding get_range
get_range-append buf l ys from to h f e =
    let inside : to ≤ length buf =
      omega (arith, length-drop from buf, length-append l ys, ap length h) in
    let width : to - from ≡ length l = omega arith in
    rw (le→leb from to (omega arith)) rw (le→leb to (length buf) inside) rw width rw h
      (ap some (take-append l ys))

module _ (lossy : List ℕ → Text) (buf : List ℕ) (short : length buf < 2 ^ 64) where
  at_label : List Text → ℕ → Walk
  at_label labels offset = record {
    labels = labels;
    offset = offset;
    end_of_name = none;
    pointers = 0;
  }

  inside :
      (from : ℕ) (l ys : List ℕ)
      → drop from buf ≡ l ++ ys
      → 0 < length l
      → from + length l ≤ length buf
  inside from l ys h p = omega (arith, length-drop from buf, length-append l ys, ap length h)

  take_label-reads :
      (labels : List Text) (offset : ℕ) (l ys : List ℕ)
      → IsLabel l
      → length labels < max_labels
      → drop (offset + 1) buf ≡ l ++ ys
      → take_label lossy buf (at_label labels offset) (length l)
        ≡ goes_on (at_label (labels ++ (lossy l ∷ [])) (offset + 1 + length l))
  unfolding take_label push_label or_return at_label checked_add
  take_label-reads labels offset l ys is_label few h =
      let fits : offset + 1 + length l ≤ length buf = inside (offset + 1) l ys h is_label.0 in
      rw (lt→ltb (offset + 1 + length l) (2 ^ 64) (omega arith)) rw
        (get_range-append buf l ys (offset + 1) (offset + 1 + length l) h (omega arith) refl) ground
        (arith, length-append labels (lossy l ∷ []))

  turn_on-label :
      (w : Walk) (len : ℕ)
      → 0 < len
      → len < 64
      → turn_on lossy buf w len ≡ take_label lossy buf w len
  unfolding turn_on
  turn_on-label w len p q = let low : len / 64 ≡ 0 = omega arith in ground arith

  drop-next : (i a : ℕ) (ys : List ℕ) → drop i buf ≡ a ∷ ys → drop (i + 1) buf ≡ ys
  drop-next i a ys h = drop-append i (i + 1) buf (a ∷ []) ys h refl

  turn-label :
      (labels : List Text) (offset : ℕ) (l ys : List ℕ)
      → IsLabel l
      → length labels < max_labels
      → drop offset buf ≡ length l ∷ (l ++ ys)
      → turn lossy buf (at_label labels offset)
        ≡ goes_on (at_label (labels ++ (lossy l ∷ [])) (offset + 1 + length l))
  unfolding turn turn_on or_return at_label
  turn-label labels offset l ys is_label few h = rw (drop-head offset buf (length l) (l ++ ys) h) (
      turn_on-label (at_label labels offset) (length l) is_label.0 is_label.1
      ∙ take_label-reads labels offset l ys is_label few (drop-next offset (length l) (l ++ ys) h))

  turn-end :
      (labels : List Text) (offset : ℕ) (ys : List ℕ)
      → drop offset buf ≡ 0 ∷ ys
      → turn lossy buf (at_label labels offset) ≡ returns (some (labels, offset + 1))
  unfolding turn turn_on or_return at_label
  turn-end labels offset ys h = rw (drop-head offset buf 0 ys h) refl

  same_return :
      {xs ys : List Text} {a b : ℕ}
      → xs ≡ ys
      → a ≡ b
      → returns (some (xs, a)) ≡ returns (some (ys, b))
  same_return e f = rw e rw f refl

  walk-spell :
      (ls : List (List ℕ)) (labels : List Text) (fuel offset : ℕ) (rest : List ℕ)
      → All IsLabel ls
      → length ls < fuel
      → length labels + length ls ≤ max_labels
      → drop offset buf ≡ spell ls ++ rest
      → walk lossy fuel buf (at_label labels offset)
        ≡ returns (some (labels ++ map lossy ls, offset + length (spell ls)))
  unfolding walk
  walk-spell [] labels zero offset rest a f m h = absurd (ground arith)
  walk-spell [] labels (suc fuel) offset rest a f m h =
      rw (turn-end labels offset rest h)
        (ap (λ t. returns (some (t, offset + 1))) (sym (append-nil labels)))
  walk-spell (l ∷ ls) labels zero offset rest a f m h = absurd (ground arith)
  walk-spell (l ∷ ls) labels (suc fuel) offset rest a f m h =
      let here : drop offset buf ≡ length l ∷ (l ++ (spell ls ++ rest)) =
        h ∙ ap (λ t. length l ∷ t) (append_assoc l (spell ls) rest) in
      rw (turn-label labels offset l (spell ls ++ rest) a.0 (omega arith) here) (
        walk-spell ls (labels ++ (lossy l ∷ [])) fuel (offset + 1 + length l) rest a.1 (omega arith)
          (omega (arith, length-append labels (lossy l ∷ [])))
          (drop-append (offset + 1) (offset + 1 + length l) buf l (spell ls ++ rest)
            (drop-next offset (length l) (l ++ (spell ls ++ rest)) here) refl)
        ∙ same_return (append_assoc labels (lossy l ∷ []) (map lossy ls))
            (omega (arith, length-append l (spell ls))))

  -- In a message that is shorter than an address can count, a name that is spelled out from some
  -- place on, with no more labels than the limit and each of 1 to 63 bytes, is read as the text of
  -- its labels, and ends after its last byte.
  pub read_name-spell :
      (ls : List (List ℕ)) (start : ℕ) (rest : List ℕ)
      → All IsLabel ls
      → length ls ≤ max_labels
      → drop start buf ≡ spell ls ++ rest
      → read_name lossy buf start ≡ some (map lossy ls, start + length (spell ls))
  unfolding read_name at_label
  read_name-spell ls start rest a m h =
      ap returned (walk-spell ls [] enough start rest a (omega arith) (omega arith) h)
