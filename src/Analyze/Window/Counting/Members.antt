-- ===== src/Analyze/Window/Counting/Members.antt =====
-- src/analyze/window.rs: which values a window counts.
use netgraspd.Base.{
  ℕ, ◌≤◌, ◌≡◌, ◌≢◌, ◌⊎◌, length-drop, inl, inr, refl, ◌∙◌, Bool, true, Option, some, List, [], ◌∷◌,
  ◌++◌, leb, length, drop, keep_if, Eq, arith, Bool-cases, keep_if-All, length-keep_if-le,
  length-append,
}
use netgraspd.Base.Assoc.{lookup, contains_key, Distinct, lookup-insert}
use netgraspd.Time.{within}
use netgraspd.Analyze.Window.{DistinctWindow, note_value, record_value, record_within}
use netgraspd.Analyze.Window.Counting.{
  keep_if-Distinct, keep_if-fresh, Recent, IsWindow, note_value_lem,
}

module _ {T : Type 0} ⦃e : Eq T⦄ where
  lookup-past_last :
      (k u : T) (s : ℕ) (m : List (T × ℕ)) → u ≢ k → lookup u (m ++ ((k, s) ∷ [])) ≡ lookup u m
  unfolding lookup
  lookup-past_last k u s [] n = ground (arith, e.beq_iff k u)
  lookup-past_last k u s ((j, r) ∷ m) n = ground (arith, lookup-past_last k u s m n)

  lookup-drop :
      (u : T) (t : ℕ) (m : List (T × ℕ))
      → Distinct m
      → lookup u (drop 1 m) ≡ some t
      → lookup u m ≡ some t
  unfolding lookup Distinct
  lookup-drop u t [] d h = h
  lookup-drop u t ((j, r) ∷ m) d h = ground (arith, e.beq_iff j u)

  lookup-keep_if :
      (p : T × ℕ → Bool) (u : T) (t : ℕ) (m : List (T × ℕ))
      → lookup u m ≡ some t
      → p (u, t) ≡ true
      → lookup u (keep_if p m) ≡ some t
  unfolding lookup
  lookup-keep_if p u t [] h k = h
  lookup-keep_if p u t ((j, r) ∷ m) h k = ground (arith, lookup-keep_if p u t m, e.beq_iff j u)

  keep_if-lookup :
      (p : T × ℕ → Bool) (u : T) (t : ℕ) (m : List (T × ℕ))
      → Distinct m
      → lookup u (keep_if p m) ≡ some t
      → lookup u m ≡ some t
  unfolding lookup Distinct
  keep_if-lookup p u t [] d h = h
  keep_if-lookup p u t ((j, r) ∷ m) d h =
      ground (arith, keep_if-lookup p u t m, keep_if-fresh p j m, e.beq_iff j u)

  -- A value other than the new one is kept, or the window is full.
  note_value_keeps :
      (value u : T) (now t capacity : ℕ) (seen : List (T × ℕ))
      → length seen ≤ capacity
      → 1 ≤ capacity
      → u ≢ value
      → lookup u seen ≡ some t
      → (lookup u (note_value value now capacity seen) ≡ some t)
        ⊎ (length (note_value value now capacity seen) ≡ capacity)
  unfolding note_value
  note_value_keeps value u now t capacity seen l c n h =
      elim (Bool-cases (contains_key value seen)) [
        | inl f ↦ rw f (inl (ground (arith, lookup-insert value u now seen, e.beq_iff value u)))
        | inr f ↦ elim (Bool-cases (leb capacity (length seen))) [
          | inl g ↦
              rw (f, g)
                (inr (
                  ground
                    (arith, length-append (drop 1 seen) ((value, now) ∷ []), length-drop 1 seen)))
          | inr g ↦ rw (f, g) (inl (lookup-past_last value u now seen n ∙ h))
        ]
      ]

  -- And a value other than the new one was there before.
  note_value_had :
      (value u : T) (now t capacity : ℕ) (seen : List (T × ℕ))
      → Distinct seen
      → u ≢ value
      → lookup u (note_value value now capacity seen) ≡ some t
      → lookup u seen ≡ some t
  unfolding note_value
  note_value_had value u now t capacity seen d n h = ground (
    arith,
    h,
    lookup-insert value u now seen,
    e.beq_iff value u,
    lookup-past_last value u now seen n,
    lookup-past_last value u now (drop 1 seen) n,
    lookup-drop u t seen d,
  )

  -- Recording a value in a window whose length `from_std` accepts returns the number of values held,
  -- which are distinct, no more than the capacity and all seen inside the window. They are the
  -- recorded value and ones that were held before, at the times that they had, and unless the window
  -- is now full, all that were held before and seen inside the window.
  pub record_value_lem :
      (from_std : ℕ → Option ℕ) (value : T) (now window age : ℕ) (w : DistinctWindow T)
      → IsWindow w
      → from_std window ≡ some age
      → ((IsWindow (record_value from_std value now window w).0
            × Recent now age (record_value from_std value now window w).0.seen)
          × ((lookup value (record_value from_std value now window w).0.seen ≡ some now)
              × ((record_value from_std value now window w).1
                  ≡ length (record_value from_std value now window w).0.seen)))
        × (((u : T) (t : ℕ)
              → u ≢ value
              → lookup u (record_value from_std value now window w).0.seen ≡ some t
              → lookup u w.seen ≡ some t)
            × ((u : T) (t : ℕ)
                → u ≢ value
                → lookup u w.seen ≡ some t
                → within t now age ≡ true
                → (lookup u (record_value from_std value now window w).0.seen ≡ some t)
                  ⊎ ((record_value from_std value now window w).1 ≡ w.capacity)))
  unfolding record_value record_within IsWindow
  record_value_lem from_std value now window age w b f =
      let inside : T × ℕ → Bool = λ p. within p.1 now age in
      let kept : List (T × ℕ) = keep_if inside w.seen in
      let d = keep_if-Distinct inside w.seen b.0 in
      let l : length kept ≤ w.capacity = omega (arith, length-keep_if-le inside w.seen, b.1.0) in
      let noted =
        note_value_lem value now age w.capacity kept d (keep_if-All inside w.seen) l b.1.1 in
      rw f (
        (((noted.0.0, (noted.0.1, b.1.1)), noted.1.0), (noted.1.1, refl)),
        (
          λ u t n h.
              keep_if-lookup inside u t w.seen b.0
                (note_value_had value u now t w.capacity kept d n h),
          λ u t n h i.
              note_value_keeps value u now t w.capacity kept l b.1.1 n
                (lookup-keep_if inside u t w.seen h i),
        ),
      )
