-- ===== src/People/Whereabouts.antt =====
-- src/people/mod.rs: a person is where the device of theirs is that was heard from last.
use netgraspd.Base.{
  ℕ, Bool, true, false, List, [], ◌∷◌, Option, none, some, Text, list_eq, nat_eq, option_eq, ◌≡◌,
  refl, subst, Bool-cases, inl, inr, arith, if◌then◌else◌, All, option_beq_iff,
}
use netgraspd.Types.{mac_eq}
use netgraspd.People.{DeviceView}
use netgraspd.People.Views.{text_leb, time_leb, place_leb, view_leb, max_from, max_by}

text_leb_total : (xs ys : Text) → text_leb xs ys ≡ false → text_leb ys xs ≡ true
unfolding text_leb
text_leb_total [] ys h = absurd (ground arith)
text_leb_total (x ∷ xs) [] h = refl
text_leb_total (x ∷ xs) (y ∷ ys) h = ground (arith, text_leb_total xs ys)

text_leb_trans :
    (xs ys zs : Text) → text_leb xs ys ≡ true → text_leb ys zs ≡ true → text_leb xs zs ≡ true
unfolding text_leb
text_leb_trans [] ys zs h k = refl
text_leb_trans (x ∷ xs) [] zs h k = absurd (ground arith)
text_leb_trans (x ∷ xs) (y ∷ ys) [] h k = absurd (ground arith)
text_leb_trans (x ∷ xs) (y ∷ ys) (z ∷ zs) h k = ground (arith, text_leb_trans xs ys zs)

place_leb_total : (a b : Option Text) → place_leb a b ≡ false → place_leb b a ≡ true
unfolding place_leb
place_leb_total none b h = absurd (ground arith)
place_leb_total (some a) none h = refl
place_leb_total (some a) (some b) h = text_leb_total a b h

place_leb_trans :
    (a b c : Option Text) → place_leb a b ≡ true → place_leb b c ≡ true → place_leb a c ≡ true
unfolding place_leb
place_leb_trans none b c h k = refl
place_leb_trans (some a) none c h k = absurd (ground arith)
place_leb_trans (some a) (some b) none h k = absurd (ground arith)
place_leb_trans (some a) (some b) (some c) h k = text_leb_trans a b c h k

time_leb_total : (a b : Option ℕ) → time_leb a b ≡ false → time_leb b a ≡ true
unfolding time_leb
time_leb_total none b h = absurd (ground arith)
time_leb_total (some a) none h = refl
time_leb_total (some a) (some b) h = ground arith

time_leb_trans :
    (a b c : Option ℕ) → time_leb a b ≡ true → time_leb b c ≡ true → time_leb a c ≡ true
unfolding time_leb
time_leb_trans none b c h k = refl
time_leb_trans (some a) none c h k = absurd (ground arith)
time_leb_trans (some a) (some b) none h k = absurd (ground arith)
time_leb_trans (some a) (some b) (some c) h k = ground arith

time_leb_antisym : (a b : Option ℕ) → time_leb a b ≡ true → time_leb b a ≡ true → a ≡ b
unfolding time_leb
time_leb_antisym none none h k = refl
time_leb_antisym none (some b) h k = absurd (ground arith)
time_leb_antisym (some a) none h k = absurd (ground arith)
time_leb_antisym (some a) (some b) h k = ground arith

time_leb_refl : (a : Option ℕ) → time_leb a a ≡ true
unfolding time_leb
time_leb_refl none = refl
time_leb_refl (some a) = ground arith

pub view_leb_total : (a b : DeviceView) → view_leb a b ≡ false → view_leb b a ≡ true
unfolding view_leb
view_leb_total a b h = ground (
  arith,
  option_beq_iff a.last_active b.last_active,
  option_beq_iff b.last_active a.last_active,
  place_leb_total a.location b.location,
  time_leb_total a.last_active b.last_active,
)

pub view_leb-time :
    (a b : DeviceView) → view_leb a b ≡ true → time_leb a.last_active b.last_active ≡ true
unfolding view_leb
view_leb-time a b h =
    ground (arith, option_beq_iff a.last_active b.last_active, time_leb_refl a.last_active)

pub view_leb_trans :
    (a b c : DeviceView) → view_leb a b ≡ true → view_leb b c ≡ true → view_leb a c ≡ true
unfolding view_leb
view_leb_trans a b c h k = ground (
  arith,
  option_beq_iff a.last_active b.last_active,
  option_beq_iff b.last_active c.last_active,
  option_beq_iff a.last_active c.last_active,
  place_leb_trans a.location b.location c.location,
  time_leb_trans a.last_active b.last_active c.last_active,
  time_leb_antisym a.last_active b.last_active,
)

-- The greatest of a list is one of it, and none is greater.
module _ {ℓ} {A : Type ℓ} (le : A → A → Bool) where
  pub max_from-All {κ} :
      (P : A → Type κ) (best : A) (xs : List A) → P best → All P xs → P (max_from le best xs)
  unfolding max_from
  max_from-All P best [] p h = p
  max_from-All P best (y ∷ ys) p h = elim (Bool-cases (le best y)) [
    | inl e ↦ rw e (max_from-All P y ys h.0 h.1)
    | inr e ↦ rw e (max_from-All P best ys p h.1)
  ]

  module _ (total : (a b : A) → le a b ≡ false → le b a ≡ true)
      (trans : (a b c : A) → le a b ≡ true → le b c ≡ true → le a c ≡ true) where
    max_from-le : (best x : A) (xs : List A) → le x best ≡ true → le x (max_from le best xs) ≡ true
    unfolding max_from
    max_from-le best x [] h = h
    max_from-le best x (y ∷ ys) h = elim (Bool-cases (le best y)) [
      | inl e ↦ rw e (max_from-le y x ys (trans x best y h e))
      | inr e ↦ rw e (max_from-le best x ys h)
    ]

    le_refl : (a : A) → le a a ≡ true
    le_refl a = elim (Bool-cases (le a a)) [ inl e ↦ e | inr e ↦ total a a e ]

    max_from-head :
        (best y : A) (ys : List A) → le y (max_from le (if le best y then y else best) ys) ≡ true
    max_from-head best y ys = elim (Bool-cases (le best y)) [
      | inl e ↦ rw e (max_from-le y y ys (le_refl y))
      | inr e ↦ rw e (max_from-le best y ys (total best y e))
    ]

    max_from-Greatest : (best : A) (xs : List A) → All (λ x. le x (max_from le best xs) ≡ true) xs
    unfolding max_from
    max_from-Greatest best [] = tt
    max_from-Greatest best (y ∷ ys) =
        (max_from-head best y ys, max_from-Greatest (if le best y then y else best) ys)

    pub max_by-Greatest :
        (xs : List A) (m : A) → max_by le xs ≡ some m → All (λ x. le x m ≡ true) xs
    unfolding max_by
    max_by-Greatest [] m h = absurd (ground arith)
    max_by-Greatest (x ∷ xs) m h =
        let same : max_from le x xs ≡ m = ground arith in
        subst (λ n. All (λ y. le y n ≡ true) (x ∷ xs)) same
          (max_from-le x x xs (le_refl x), max_from-Greatest x xs)

  pub max_by-All {κ} :
      (P : A → Type κ) (xs : List A) (m : A) → All P xs → max_by le xs ≡ some m → P m
  unfolding max_by
  max_by-All P [] m p h = absurd (ground arith)
  max_by-All P (x ∷ xs) m p h =
      let same : max_from le x xs ≡ m = ground arith in subst P same (max_from-All P x xs p.0 p.1)
