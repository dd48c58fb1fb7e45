-- ===== src/Base/Assoc.antt =====
-- A hash map as an association list: one entry for each key, in the order of iteration, which
-- the standard library leaves open and the theorems therefore leave open too.
use Prim.Native.Nat.{suc}
use mathlib.Core.Path.{◌≡◌, refl, sym, subst}
use mathlib.Core.Logic.{inl, inr}
use mathlib.Core.Bool.{Bool, true, false}
use mathlib.Core.Option.{Option, none, some}
use mathlib.Core.List.{List, [], ◌∷◌}
use native.Mathlib.Omega.{arith}
use netgraspd.Base.Tests.{Bool-cases, if◌then◌else◌, is_some}
use netgraspd.Base.Eqs.{Eq, ◌==◌}
use netgraspd.Base.Lists.{length, All}

module _ {ℓ κ} {K : Type ℓ} {V : Type κ} ⦃e : Eq K⦄ where
  unfoldable pub lookup : K → List (K × V) → Option V
  lookup k [] = none
  lookup k ((at, held) ∷ rest) = if at == k then some held else lookup k rest

  unfoldable pub insert : K → V → List (K × V) → List (K × V)
  insert k v [] = (k, v) ∷ []
  insert k v ((at, held) ∷ rest) = if at == k then (at, v) ∷ rest else (at, held) ∷ insert k v rest

  unfoldable pub remove : K → List (K × V) → List (K × V)
  remove k [] = []
  remove k ((j, w) ∷ m) = if j == k then m else (j, w) ∷ remove k m

  abbrev pub contains_key : K → List (K × V) → Bool
  contains_key k m = is_some (lookup k m)

  -- No key has two entries.
  unfoldable pub Distinct : List (K × V) → Type κ
  Distinct [] = Unit
  Distinct ((k, v) ∷ m) = (lookup k m ≡ none) × Distinct m

  pub lookup-insert :
      (k j : K) (v : V) (m : List (K × V))
      → lookup j (insert k v m) ≡ (if k == j then some v else lookup j m)
  unfolding insert lookup
  lookup-insert k j v [] = refl
  lookup-insert k j v ((at, held) ∷ rest) =
      ground (arith, lookup-insert k j v rest, e.beq_iff at j, e.beq_iff at k, e.beq_iff k j)

  pub lookup-insert_self : (k : K) (v : V) (m : List (K × V)) → lookup k (insert k v m) ≡ some v
  lookup-insert_self k v m = ground (arith, lookup-insert k k v m, e.beq_iff k k)

  pub insert-Distinct : (k : K) (v : V) (m : List (K × V)) → Distinct m → Distinct (insert k v m)
  unfolding Distinct lookup insert
  insert-Distinct k v [] d = (refl, tt)
  insert-Distinct k v ((j, w) ∷ m) d =
      ground (arith, insert-Distinct k v m d.1, lookup-insert k j v m, e.beq_iff j k, e.beq_iff k j)

  pub lookup-remove :
      (k j : K) (m : List (K × V))
      → Distinct m
      → lookup j (remove k m) ≡ (if k == j then none else lookup j m)
  unfolding Distinct lookup remove
  lookup-remove k j [] d = ground arith
  lookup-remove k j ((i, w) ∷ m) d =
      ground
        (arith, lookup-remove k j m d.1, e.beq_iff j k, e.beq_iff k j, e.beq_iff i j, e.beq_iff i k)

  pub remove-Distinct : (k : K) (m : List (K × V)) → Distinct m → Distinct (remove k m)
  unfolding Distinct lookup remove
  remove-Distinct k [] d = tt
  remove-Distinct k ((j, w) ∷ m) d =
      ground (arith, remove-Distinct k m d.1, lookup-remove k j m d.1, e.beq_iff j k, e.beq_iff k j)

  pub length-insert :
      (k : K) (v : V) (m : List (K × V))
      → length (insert k v m) ≡ (if contains_key k m then length m else suc (length m))
  unfolding lookup insert
  length-insert k v [] = refl
  length-insert k v ((j, w) ∷ m) = ground (arith, length-insert k v m)

  pub length-remove :
      (k : K) (m : List (K × V))
      → (if contains_key k m then suc (length (remove k m)) else length (remove k m)) ≡ length m
  unfolding lookup remove
  length-remove k [] = refl
  length-remove k ((j, w) ∷ m) = ground (arith, length-remove k m)

module _ {ℓ κ} {K : Type ℓ} {V : Type κ} ⦃e : Eq K⦄ where
  -- What is there already changes nothing.
  pub insert-same : (k : K) (v : V) (m : List (K × V)) → lookup k m ≡ some v → insert k v m ≡ m
  unfolding insert lookup
  insert-same k v [] h = absurd (ground arith)
  insert-same k v ((j, w) ∷ m) h = elim (Bool-cases (j == k)) [
    | inl f ↦ ground arith
    | inr f ↦ ground (arith, insert-same k v m (ground arith))
  ]

-- A hash set is a map to nothing.
abbrev pub HashSet : Type 0 → Type 0
HashSet K = List {0} (K × Unit)

module _ {ℓ κ} {K : Type ℓ} {V : Type κ} ⦃e : Eq K⦄ where
  found_head :
      (j k : K) (w v : V) (m : List (K × V))
      → (j == k) ≡ true
      → lookup k ((j, w) ∷ m) ≡ some v
      → w ≡ v
  unfolding lookup
  found_head j k w v m g f = ground arith

  found_tail :
      (j k : K) (w v : V) (m : List (K × V))
      → (j == k) ≡ false
      → lookup k ((j, w) ∷ m) ≡ some v
      → lookup k m ≡ some v
  unfolding lookup
  found_tail j k w v m g f = ground arith

-- A property of every entry.
module _ {ℓ κ π} {K : Type ℓ} {V : Type κ} ⦃e : Eq K⦄ (P : K × V → Type π) where
  pub All-remove : (k : K) (m : List (K × V)) → All P m → All P (remove k m)
  unfolding remove
  All-remove k [] h = tt
  All-remove k ((j, w) ∷ m) h = elim (Bool-cases (j == k)) [
    | inl f ↦ rw f h.1
    | inr f ↦ rw f (h.0, All-remove k m h.1)
  ]

  pub All-insert : (k : K) (v : V) (m : List (K × V)) → P (k, v) → All P m → All P (insert k v m)
  unfolding insert
  All-insert k v [] p h = (p, tt)
  All-insert k v ((j, w) ∷ m) p h = elim (Bool-cases (j == k)) [
    | inl f ↦ rw f (subst (λ i. P (i, v)) (sym ((e.beq_iff j k).0 f)) p, h.1)
    | inr f ↦ rw f (h.0, All-insert k v m p h.1)
  ]

  pub lookup-All : (k : K) (v : V) (m : List (K × V)) → All P m → lookup k m ≡ some v → P (k, v)
  unfolding lookup
  lookup-All k v [] h f = absurd (ground arith)
  lookup-All k v ((j, w) ∷ m) h f = elim (Bool-cases (j == k)) [
    | inl g ↦
        subst (λ i. P (i, v)) ((e.beq_iff j k).0 g)
          (subst (λ x. P (j, x)) (found_head j k w v m g f) h.0)
    | inr g ↦ lookup-All k v m h.1 (found_tail j k w v m g f)
  ]
