-- ===== src/Analyze/Window/Counting.antt =====
-- src/analyze/window.rs: what the windows count.
pub mod Members
use netgraspd.Base.{
  ℕ, suc, ◌≤◌, ◌≡◌, ◌≢◌, length-drop, inl, inr, refl, Bool, true, false, Option, none, some, List,
  [], ◌∷◌, ◌++◌, leb, length, drop, keep_if, All, Eq, arith, Bool-cases, keep_if-All,
  length-keep_if-le, All-append, length-append,
}
use netgraspd.Base.Assoc.{
  lookup, insert, contains_key, Distinct, lookup-insert_self, insert-Distinct, length-insert,
}
use netgraspd.Time.{within}
use netgraspd.Analyze.Window.{DistinctWindow, note_value, record_value, record_within}

module _ {T : Type 0} ⦃e : Eq T⦄ where
  pub keep_if-fresh :
      (p : T × ℕ → Bool) (k : T) (m : List (T × ℕ))
      → lookup k m ≡ none
      → lookup k (keep_if p m) ≡ none
  unfolding lookup
  keep_if-fresh p k [] f = refl
  keep_if-fresh p k ((j, t) ∷ m) f = ground (arith, keep_if-fresh p k m)

  pub keep_if-Distinct : (p : T × ℕ → Bool) (m : List (T × ℕ)) → Distinct m → Distinct (keep_if p m)
  unfolding Distinct lookup
  keep_if-Distinct p [] d = tt
  keep_if-Distinct p ((j, t) ∷ m) d =
      ground (arith, keep_if-Distinct p m d.1, keep_if-fresh p j m d.0)

  lookup-snoc :
      (k j : T) (t : ℕ) (m : List (T × ℕ))
      → lookup j m ≡ none
      → j ≢ k
      → lookup j (m ++ ((k, t) ∷ [])) ≡ none
  unfolding lookup
  lookup-snoc k j t [] f n = ground (arith, e.beq_iff k j)
  lookup-snoc k j t ((i, s) ∷ m) f n = ground (arith, lookup-snoc k j t m)

  snoc-Distinct :
      (k : T) (t : ℕ) (m : List (T × ℕ))
      → contains_key k m ≡ false
      → Distinct m
      → Distinct (m ++ ((k, t) ∷ [])) × (lookup k (m ++ ((k, t) ∷ [])) ≡ some t)
  unfolding Distinct lookup
  snoc-Distinct k t [] f d = ground (arith, e.beq_iff k k)
  snoc-Distinct k t ((j, s) ∷ m) f d =
      ground (arith, e.beq_iff k j, e.beq_iff j k, lookup-snoc k j t m, snoc-Distinct k t m)

  drop-Distinct : (m : List (T × ℕ)) → Distinct m → Distinct (drop 1 m)
  unfolding Distinct
  drop-Distinct [] d = tt
  drop-Distinct (x ∷ m) d = d.1

  drop-fresh :
      (k : T) (m : List (T × ℕ)) → contains_key k m ≡ false → contains_key k (drop 1 m) ≡ false
  unfolding lookup
  drop-fresh k [] f = refl
  drop-fresh k ((j, s) ∷ m) f = ground arith

  -- Seen no longer ago than `age`, as of `now`.
  abbrev pub Recent : ℕ → ℕ → List (T × ℕ) → Type 0
  Recent now age m = All (λ p. within p.1 now age ≡ true) m

  drop-Recent : (now age : ℕ) (m : List (T × ℕ)) → Recent now age m → Recent now age (drop 1 m)
  drop-Recent now age [] h = tt
  drop-Recent now age (x ∷ m) h = h.1

  insert-Recent :
      (now age : ℕ) (k : T) (m : List (T × ℕ)) → Recent now age m → Recent now age (insert k now m)
  unfolding insert
  insert-Recent now age k [] h = (ground arith, tt)
  insert-Recent now age k ((j, s) ∷ m) h = ground (arith, insert-Recent now age k m h.1)

  append_lem :
      (value : T) (now age capacity : ℕ) (seen : List (T × ℕ))
      → Distinct seen
      → Recent now age seen
      → contains_key value seen ≡ false
      → suc (length seen) ≤ capacity
      → (Distinct (seen ++ ((value, now) ∷ [])) × (length (seen ++ ((value, now) ∷ [])) ≤ capacity))
        × (Recent now age (seen ++ ((value, now) ∷ []))
            × (lookup value (seen ++ ((value, now) ∷ [])) ≡ some now))
  append_lem value now age capacity seen d r f l =
      let more = snoc-Distinct value now seen f d in
      (
        (more.0, omega (arith, length-append seen ((value, now) ∷ []))),
        (
          All-append (λ p. within p.1 now age ≡ true) seen ((value, now) ∷ []) r (ground arith, tt),
          more.1,
        ),
      )

  unfoldable pub IsWindow : DistinctWindow T → Type 0
  IsWindow w = Distinct w.seen × ((length w.seen ≤ w.capacity) × (1 ≤ w.capacity))

  -- One value more, whichever branch is taken.
  pub note_value_lem :
      (value : T) (now age capacity : ℕ) (seen : List (T × ℕ))
      → Distinct seen
      → Recent now age seen
      → length seen ≤ capacity
      → 1 ≤ capacity
      → (Distinct (note_value value now capacity seen)
          × (length (note_value value now capacity seen) ≤ capacity))
        × (Recent now age (note_value value now capacity seen)
            × (lookup value (note_value value now capacity seen) ≡ some now))
  unfolding note_value
  note_value_lem value now age capacity seen d r l c = elim (Bool-cases (contains_key value seen)) [
    | inl f ↦ rw f (
      (insert-Distinct value now seen d, ground (arith, length-insert value now seen)),
      (insert-Recent now age value seen r, lookup-insert_self value now seen),
    )
    | inr f ↦ elim (Bool-cases (leb capacity (length seen))) [
      | inl g ↦
          rw (f, g)
            (append_lem value now age capacity (drop 1 seen) (drop-Distinct seen d)
              (drop-Recent now age seen r) (drop-fresh value seen f)
              (ground (arith, length-drop 1 seen)))
      | inr g ↦ rw (f, g) (append_lem value now age capacity seen d r f (ground arith))
    ]
  ]
