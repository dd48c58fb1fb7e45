-- ===== src/Base/Eqs.antt =====
-- Types whose equality the program tests, and that test over numbers, lists and options.
use Prim.Native.Nat.{ℕ}
use Prim.Native.String.{String}
use text.Mathlib.Text.{◌==◌ as str_eq}
use text.Mathlib.TextEquality.{eq_iff}
use mathlib.Core.Path.{◌≡◌, refl}
use mathlib.Core.Logic.{◌↔◌}
use mathlib.Core.Bool.{Bool, true, false, ◌&&◌, ◌||◌, not}
use mathlib.Core.Option.{Option, none, some}
use mathlib.Core.List.{List, [], ◌∷◌, ◌++◌}
use native.Mathlib.Omega.{arith}
use netgraspd.Base.Tests.{eqb, eqb_iff}

pub record Eq {ℓ} (K : Type ℓ) : Type ℓ where
  pub beq : (x y : K) → Bool
  pub beq_iff : (x y : K) → (beq x y ≡ true) ↔ (x ≡ y)

infix 50 ◌==◌
abbrev pub ◌==◌ {ℓ} : {K : Type ℓ} ⦃eq : Eq K⦄ → (x y : K) → Bool
◌==◌ ⦃eq⦄ x y = eq.beq x y

pub ==_iff {ℓ} : {A : Type ℓ} ⦃e : Eq A⦄ (a b : A) → ((a == b) ≡ true) ↔ (a ≡ b)
==_iff ⦃e⦄ a b = e.beq_iff a b

pub ==_refl {ℓ} : {A : Type ℓ} ⦃e : Eq A⦄ (a : A) → (a == a) ≡ true
==_refl ⦃e⦄ a = (e.beq_iff a a).1 refl

instance abbrev pub nat_eq : Eq ℕ
nat_eq = record { beq = eqb; beq_iff = eqb_iff }

instance abbrev pub string_eq : Eq String
string_eq = record { beq = str_eq; beq_iff = eq_iff }

abbrev pub bool_beq : Bool → Bool → Bool
bool_beq true b = b
bool_beq false b = not b

pub bool_beq_iff : (a b : Bool) → (bool_beq a b ≡ true) ↔ (a ≡ b)
bool_beq_iff a b = ground arith

instance abbrev pub bool_eq : Eq Bool
bool_eq = record { beq = bool_beq; beq_iff = bool_beq_iff }

module _ {ℓ} {A : Type ℓ} ⦃e : Eq A⦄ where
  abbrev pub list_beq : List A → List A → Bool
  list_beq [] [] = true
  list_beq [] (y ∷ ys) = false
  list_beq (x ∷ xs) [] = false
  list_beq (x ∷ xs) (y ∷ ys) = (x == y) && list_beq xs ys

  pub list_beq_iff : (xs ys : List A) → (list_beq xs ys ≡ true) ↔ (xs ≡ ys)
  list_beq_iff [] [] = (λ h. refl, λ h. refl)
  list_beq_iff [] (y ∷ ys) = (λ h. absurd (ground arith), λ h. absurd (ground arith))
  list_beq_iff (x ∷ xs) [] = (λ h. absurd (ground arith), λ h. absurd (ground arith))
  list_beq_iff (x ∷ xs) (y ∷ ys) = ground (arith, e.beq_iff x y, list_beq_iff xs ys)

  abbrev pub option_beq : Option A → Option A → Bool
  option_beq none none = true
  option_beq none (some b) = false
  option_beq (some a) none = false
  option_beq (some a) (some b) = a == b

  pub option_beq_iff : (a b : Option A) → (option_beq a b ≡ true) ↔ (a ≡ b)
  option_beq_iff none none = (λ h. refl, λ h. refl)
  option_beq_iff none (some b) = ground arith
  option_beq_iff (some a) none = ground arith
  option_beq_iff (some a) (some b) = ground (arith, e.beq_iff a b)

instance abbrev pub list_eq {ℓ} : {A : Type ℓ} ⦃e : Eq A⦄ → Eq (List A)
list_eq = record { beq = list_beq; beq_iff = list_beq_iff }

instance abbrev pub option_eq {ℓ} : {A : Type ℓ} ⦃e : Eq A⦄ → Eq (Option A)
option_eq = record { beq = option_beq; beq_iff = option_beq_iff }

-- Text is the list of its code points.
abbrev pub Text : Type 0
Text = List ℕ

-- A membership test, as `contains` on a slice.
module _ {ℓ} {A : Type ℓ} ⦃e : Eq A⦄ where
  abbrev pub contains : List A → A → Bool
  contains [] a = false
  contains (x ∷ xs) a = (x == a) || contains xs a

  pub contains-append :
      (xs ys : List A) (a : A) → contains (xs ++ ys) a ≡ (contains xs a || contains ys a)
  contains-append [] ys a = refl
  contains-append (x ∷ xs) ys a = ground (arith, contains-append xs ys a)

  -- No element stands twice.
  abbrev pub Fresh : List A → Type 0
  Fresh [] = Unit {0}
  Fresh (x ∷ xs) = (contains xs x ≡ false) × Fresh xs

  -- No element of the first list stands in the second.
  abbrev pub Apart : List A → List A → Type 0
  Apart [] ys = Unit {0}
  Apart (x ∷ xs) ys = (contains ys x ≡ false) × Apart xs ys

  pub Fresh-append : (xs ys : List A) → Fresh xs → Fresh ys → Apart xs ys → Fresh (xs ++ ys)
  Fresh-append [] ys f g h = g
  Fresh-append (x ∷ xs) ys f g h =
      (rw (contains-append xs ys x) (ground arith), Fresh-append xs ys f.1 g h.1)

  pub Fresh-snoc : (xs : List A) (a : A) → Fresh xs → contains xs a ≡ false → Fresh (xs ++ (a ∷ []))
  Fresh-snoc [] a f h = (refl, tt)
  Fresh-snoc (x ∷ xs) a f h = (
    rw (contains-append xs (a ∷ []) x) (ground (arith, e.beq_iff x a, e.beq_iff a x)),
    Fresh-snoc xs a f.1 (ground arith),
  )

  pub Apart-snoc :
      (xs ys : List A) (a : A) → Apart xs ys → contains ys a ≡ false → Apart (xs ++ (a ∷ [])) ys
  Apart-snoc [] ys a h k = (k, tt)
  Apart-snoc (x ∷ xs) ys a h k = (h.0, Apart-snoc xs ys a h.1 k)

  pub Apart-nil : (xs : List A) → Apart xs []
  Apart-nil [] = tt
  Apart-nil (x ∷ xs) = (refl, Apart-nil xs)
