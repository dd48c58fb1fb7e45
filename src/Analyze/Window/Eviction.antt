-- ===== src/Analyze/Window/Eviction.antt =====
-- src/analyze/window.rs: which entry a full map gives up.
use netgraspd.Base.{
  Bool, true, not, ◌&&◌, ℕ, suc, ◌≤◌, ◌≡◌, ◌⊎◌, ◌≢◌, inl, inr, refl, false, none, some, List, [],
  ◌∷◌, ltb, leb, length, All, if◌then◌else◌, Eq, arith, Bool-cases,
}
use netgraspd.Base.Assoc.{
  lookup, insert, remove, contains_key, Distinct, lookup-insert, lookup-insert_self,
  insert-Distinct, lookup-remove, remove-Distinct, length-insert, length-remove,
}
use netgraspd.Analyze.Window.{BoundedMap, oldest, evict_from, evict_oldest, make_room, insert_at}

with_full : {A B : Type 0} {b : Bool} → A ⊎ B → b ≡ true → A ⊎ ((b ≡ true) × B)
with_full (inl a) h = inl a
with_full (inr s) h = inr (h, s)

module _ {K : Type 0} {V : Type 0} ⦃e : Eq K⦄ where
  -- No entry was touched before `t`.
  abbrev pub Since : ℕ → List (K × (V × ℕ)) → Type 0
  Since t m = All (λ x. t ≤ x.1.1) m

  Since-weaken : (s t : ℕ) (m : List (K × (V × ℕ))) → s ≤ t → Since t m → Since s m
  Since-weaken s t [] l h = tt
  Since-weaken s t (x ∷ m) l h = (omega arith, Since-weaken s t m l h.1)

  lookup-Since :
      (t : ℕ) (k : K) (p : V × ℕ) (m : List (K × (V × ℕ)))
      → Since t m
      → lookup k m ≡ some p
      → t ≤ p.1
  unfolding lookup
  lookup-Since t k p [] h f = ground arith
  lookup-Since t k p ((j, q) ∷ m) h f = ground (arith, lookup-Since t k p m h.1, h.0)

  lookup_head : (k : K) (x : V × ℕ) (m : List (K × (V × ℕ))) → lookup k ((k, x) ∷ m) ≡ some x
  unfolding lookup
  lookup_head k x m = ground (arith, e.beq_iff k k)

  fresh_head :
      (k : K) (x : V × ℕ) (m : List (K × (V × ℕ))) → Distinct ((k, x) ∷ m) → lookup k m ≡ none
  unfolding Distinct
  fresh_head k x m d = d.0

  tail-Distinct : (k : K) (x : V × ℕ) (m : List (K × (V × ℕ))) → Distinct ((k, x) ∷ m) → Distinct m
  unfolding Distinct
  tail-Distinct k x m d = d.1

  head-Distinct :
      (k j : K) (x y : V × ℕ) (m : List (K × (V × ℕ)))
      → Distinct ((k, x) ∷ ((j, y) ∷ m))
      → Distinct ((k, x) ∷ m)
  unfolding lookup Distinct
  head-Distinct k j x y m d = ground arith

  -- Skipping an entry of another key.
  lookup-past :
      (k o : K) (x p : V × ℕ) (m : List (K × (V × ℕ)))
      → lookup k m ≡ none
      → lookup o m ≡ some p
      → lookup o ((k, x) ∷ m) ≡ some p
  unfolding lookup
  lookup-past k o x p m f g = ground (arith, e.beq_iff k o)

  lookup-over :
      (k j o : K) (x y p : V × ℕ) (m : List (K × (V × ℕ)))
      → Distinct ((k, x) ∷ ((j, y) ∷ m))
      → lookup o ((k, x) ∷ m) ≡ some p
      → lookup o ((k, x) ∷ ((j, y) ∷ m)) ≡ some p
  unfolding lookup Distinct
  lookup-over k j o x y p m d g = ground (arith, e.beq_iff k o, e.beq_iff j o, e.beq_iff j k)

  unfoldable Oldest : K → List (K × (V × ℕ)) → Type 0
  Oldest o m = (p : V × ℕ) × ((lookup o m ≡ some p) × Since p.1 m)

  oldest_lem :
      (k : K) (v : V) (t : ℕ) (m : List (K × (V × ℕ)))
      → Distinct ((k, (v, t)) ∷ m)
      → Oldest (oldest k t m) ((k, (v, t)) ∷ m)
  unfolding oldest Oldest
  oldest_lem k v t [] d = ((v, t), (lookup_head k (v, t) [], (omega arith, tt)))
  oldest_lem k v t ((j, (w, s)) ∷ m) d =
      let first = oldest_lem j w s m (tail-Distinct k (v, t) ((j, (w, s)) ∷ m) d) in
      let rest = oldest_lem k v t m (head-Distinct k j (v, t) (w, s) m d) in
      elim (Bool-cases (ltb s t)) [
        | inl l ↦ rw l (
          first.0,
          (
            lookup-past k (oldest j s m) (v, t) first.0 ((j, (w, s)) ∷ m)
                (fresh_head k (v, t) ((j, (w, s)) ∷ m) d) first.1.0,
            (ground (arith, first.1.1.0), first.1.1),
          ),
        )
        | inr l ↦ rw l (
          rest.0,
          (
            lookup-over k j (oldest k t m) (v, t) (w, s) rest.0 m d rest.1.0,
            (rest.1.1.0, (ground (arith, rest.1.1.0), rest.1.1.1)),
          ),
        )
      ]

  unfoldable pub IsBounded : BoundedMap K V → Type 0
  IsBounded m = Distinct m.entries × ((length m.entries ≤ m.capacity) × (1 ≤ m.capacity))

  -- What eviction leaves.
  unfoldable Evicted : List (K × (V × ℕ)) → List (K × (V × ℕ)) → Type 0
  Evicted before after = (o : K) × ((after ≡ remove o before) × Oldest o before)

  evict_from-Evicted :
      (m : BoundedMap K V) (es : List (K × (V × ℕ)))
      → m.entries ≡ es
      → Distinct es
      → 1 ≤ length es
      → Evicted m.entries (evict_from es m).entries × ((evict_from es m).capacity ≡ m.capacity)
  unfolding evict_from Evicted
  evict_from-Evicted m [] q d l = absurd (omega arith)
  evict_from-Evicted m ((k, (v, t)) ∷ rest) q d l =
      ((oldest k t rest, (refl, rw q (oldest_lem k v t rest d))), refl)

  Evicted-length :
      (before after : List (K × (V × ℕ)))
      → Evicted before after
      → suc (length after) ≡ length before
  unfolding Evicted Oldest
  Evicted-length before after h = ground (arith, h.1.0, h.1.1.1.0, length-remove h.0 before)

  Evicted-Distinct :
      (before after : List (K × (V × ℕ))) → Evicted before after → Distinct before → Distinct after
  unfolding Evicted
  Evicted-Distinct before after h d = rw h.1.0 (remove-Distinct h.0 before d)

  -- An entry stays, or none was touched before it.
  Evicted-lookup :
      (before after : List (K × (V × ℕ))) (j : K) (p : V × ℕ)
      → Evicted before after
      → Distinct before
      → lookup j before ≡ some p
      → (lookup j after ≡ some p) ⊎ Since p.1 before
  unfolding Evicted Oldest
  Evicted-lookup before after j p h d f =
      ground (arith, h.1.0, h.1.1.1, lookup-remove h.0 j before d, e.beq_iff h.0 j)

  Evicted-fresh :
      (before after : List (K × (V × ℕ))) (k : K)
      → Evicted before after
      → Distinct before
      → contains_key k before ≡ false
      → contains_key k after ≡ false
  unfolding Evicted
  Evicted-fresh before after k h d f = ground (arith, h.1.0, lookup-remove h.0 k before d)

  -- The key is new, and there is no room for it.
  abbrev pub is_full : K → BoundedMap K V → Bool
  is_full k m = not (contains_key k m.entries) && leb m.capacity (length m.entries)

  -- Making room gives up one entry of a full map, and none of another, and whether the key is held
  -- stays as it is.
  abbrev Sized : K → BoundedMap K V → BoundedMap K V → Type 0
  Sized k m r =
      ((if is_full k m then suc (length r.entries) else length r.entries) ≡ length m.entries)
      × (contains_key k r.entries ≡ contains_key k m.entries)

  -- Room for the key `k`.
  unfoldable HasRoom : K → BoundedMap K V → BoundedMap K V → Type 0
  HasRoom k m r =
      (Distinct r.entries × (r.capacity ≡ m.capacity))
      × (((if contains_key k r.entries then length r.entries else suc (length r.entries))
            ≤ r.capacity)
          × (((j : K) (p : V × ℕ)
                → lookup j m.entries ≡ some p
                → (lookup j r.entries ≡ some p) ⊎ ((is_full k m ≡ true) × Since p.1 m.entries))
              × Sized k m r))

  Evicted-HasRoom :
      (k : K) (m r : BoundedMap K V)
      → IsBounded m
      → contains_key k m.entries ≡ false
      → Evicted m.entries r.entries
      → r.capacity ≡ m.capacity
      → is_full k m ≡ true
      → HasRoom k m r
  unfolding HasRoom IsBounded
  Evicted-HasRoom k m r b f h c full = (
    (Evicted-Distinct m.entries r.entries h b.0, c),
    (
      ground (
        arith,
        Evicted-length m.entries r.entries h,
        Evicted-fresh m.entries r.entries k h b.0 f,
        b.1,
        c,
      ),
      (
        λ j p g. with_full (Evicted-lookup m.entries r.entries j p h b.0 g) full,
        (
          rw full (Evicted-length m.entries r.entries h),
          ground (arith, Evicted-fresh m.entries r.entries k h b.0 f),
        ),
      ),
    ),
  )

  same-HasRoom :
      (k : K) (m : BoundedMap K V)
      → IsBounded m
      → (if contains_key k m.entries then length m.entries else suc (length m.entries)) ≤ m.capacity
      → is_full k m ≡ false
      → HasRoom k m m
  unfolding HasRoom IsBounded
  same-HasRoom k m b l spare = ((b.0, refl), (l, (λ j p g. inl g, (rw spare refl, refl))))

  make_room-HasRoom : (k : K) (m : BoundedMap K V) → IsBounded m → HasRoom k m (make_room k m)
  unfolding make_room evict_oldest IsBounded
  make_room-HasRoom k m b = elim (Bool-cases (contains_key k m.entries)) [
    | inl c ↦ rw c (same-HasRoom k m b (rw c b.1.0) (rw c refl))
    | inr c ↦ elim (Bool-cases (leb m.capacity (length m.entries))) [
      | inl l ↦
          let gone = evict_from-Evicted m m.entries refl b.0 (ground arith) in
          rw (c, l)
            (Evicted-HasRoom k m (evict_from m.entries m) b c gone.0 gone.1 (rw (c, l) refl))
      | inr l ↦ rw (c, l) (same-HasRoom k m b (rw c (ground arith)) (rw (c, l) refl))
    ]
  ]

  fill-IsBounded :
      (k : K) (x : V × ℕ) (m r : BoundedMap K V)
      → IsBounded m
      → HasRoom k m r
      → IsBounded (record r { entries = insert k x r.entries })
  unfolding IsBounded HasRoom
  fill-IsBounded k x m r b h = (
    insert-Distinct k x r.entries h.0.0,
    (ground (arith, length-insert k x r.entries, h.1.0), ground (arith, b.1.1, h.0.1)),
  )

  fill_lookup :
      (k j : K) (x p : V × ℕ) (m r : BoundedMap K V)
      → HasRoom k m r
      → j ≢ k
      → lookup j m.entries ≡ some p
      → (lookup j (insert k x r.entries) ≡ some p) ⊎ ((is_full k m ≡ true) × Since p.1 m.entries)
  unfolding HasRoom
  fill_lookup k j x p m r h n f = elim (h.1.1.0 j p f) [
    | inl g ↦ inl (ground (arith, lookup-insert k j x r.entries, g, n, e.beq_iff k j))
    | inr s ↦ inr s
  ]

  fill-length :
      (k : K) (x : V × ℕ) (m r : BoundedMap K V)
      → HasRoom k m r
      → length (insert k x r.entries) ≡ (
          if contains_key k m.entries
          then length m.entries
          else if leb m.capacity (length m.entries)
          then length m.entries
          else suc (length m.entries))
  unfolding HasRoom
  fill-length k x m r h = ground (arith, length-insert k x r.entries, h.1.1.1)

  -- Inserting into a bounded map keeps it within its capacity with one entry for each key, and holds
  -- the key with the new value and time. The map has one entry more, unless the key was held or the
  -- map was full. Every other entry is still there, but for one that a full map gives up for a new
  -- key, and no entry of the map was touched before that one.
  pub insert_at_lem :
      (k : K) (v : V) (now : ℕ) (m : BoundedMap K V)
      → IsBounded m
      → IsBounded (insert_at k v now m)
        × ((lookup k (insert_at k v now m).entries ≡ some (v, now))
            × ((length (insert_at k v now m).entries ≡ (
                  if contains_key k m.entries
                  then length m.entries
                  else if leb m.capacity (length m.entries)
                  then length m.entries
                  else suc (length m.entries)))
                × ((j : K) (p : V × ℕ)
                    → j ≢ k
                    → lookup j m.entries ≡ some p
                    → (lookup j (insert_at k v now m).entries ≡ some p)
                      ⊎ ((is_full k m ≡ true) × Since p.1 m.entries))))
  unfolding insert_at
  insert_at_lem k v now m b =
      let r : BoundedMap K V = make_room k m in
      let room = make_room-HasRoom k m b in
      (
        fill-IsBounded k (v, now) m r b room,
        (
          lookup-insert_self k (v, now) r.entries,
          (fill-length k (v, now) m r room, λ j p n f. fill_lookup k j (v, now) p m r room n f),
        ),
      )
