-- ===== src/Capture/Dedup/Window.antt =====
-- src/capture/dedup.rs against its description: a queue of the last distinct keys.
use netgraspd.Base.{
  ℕ, suc, ◌≤◌, ◌≡◌, refl, Bool, true, false, not, List, [], ◌∷◌, ◌++◌, ◌/◌, if◌then◌else◌, ltb,
  length, contains, String, arith, subst, nat_eq, length-append, Fresh, Fresh-snoc, contains-append,
  max, ap, sym, ◌∙◌, Bool-cases, inl, inr, eqb_iff,
}
use netgraspd.Base.Assoc.{
  lookup, insert, HashSet, remove, contains_key, Distinct, lookup-insert, lookup-remove,
  insert-Distinct, remove-Distinct,
}
use netgraspd.Time.{second}
use netgraspd.Types.Mac.{MacAddr}
use netgraspd.Types.Observed.{Observation, observation_as_str}
use netgraspd.Capture.Dedup.{ObservationDedup, evict, key, admit_key, admit, admitted, new_dedup}

-- The description: an observation passes when its key is not among those of the last `capacity`
-- observations that passed. The history is oldest first.
unfoldable pub latest : ℕ → List ℕ → List ℕ
latest n [] = []
latest n (x ∷ xs) = let rest = latest n xs in if ltb n (suc (length xs)) then rest else x ∷ xs

unfoldable pub first_seen : ℕ → (Observation → ℕ) → List ℕ → List Observation → List Observation
first_seen capacity key_of history [] = []
first_seen capacity key_of history (o ∷ obs) =
    let dropped = first_seen capacity key_of history obs in
    let passed = first_seen capacity key_of (history ++ (key_of o ∷ [])) obs in
    if contains (latest capacity history) (key_of o) then dropped else o ∷ passed

latest-snoc :
    (n : ℕ) (xs : List ℕ) (k : ℕ) → latest n (latest n xs ++ (k ∷ [])) ≡ latest n (xs ++ (k ∷ []))
unfolding latest
latest-snoc n [] k = refl
latest-snoc n (x ∷ xs) k = ground (arith, latest-snoc n xs k, length-append xs (k ∷ []))

evict-latest : (n : ℕ) (seen : HashSet ℕ) (xs : List ℕ) → (evict n seen xs).1 ≡ latest n xs
unfolding latest evict
evict-latest n seen [] = refl
evict-latest n seen (x ∷ xs) = ground (arith, evict-latest n (remove x seen) xs)

-- The set and the queue hold the same keys, each once.
unfoldable Agrees : HashSet ℕ → List ℕ → Type 0
Agrees seen order =
    Distinct seen × (((k : ℕ) → contains_key k seen ≡ contains order k) × Fresh order)

Agrees-forget :
    (seen : HashSet ℕ) (x : ℕ) (xs : List ℕ) → Agrees seen (x ∷ xs) → Agrees (remove x seen) xs
unfolding Agrees
Agrees-forget seen x xs h = (
  remove-Distinct x seen h.0,
  (λ k. ground (arith, lookup-remove x k seen h.0, h.1.0 k, h.1.1.0, eqb_iff x k), h.1.1.1),
)

evict-Agrees :
    (n : ℕ) (seen : HashSet ℕ) (xs : List ℕ)
    → Agrees seen xs
    → Agrees (evict n seen xs).0 (evict n seen xs).1
unfolding evict
evict-Agrees n seen [] h = h
evict-Agrees n seen (x ∷ xs) h = elim (Bool-cases (ltb n (suc (length xs)))) [
  | inl l ↦ rw l (evict-Agrees n (remove x seen) xs (Agrees-forget seen x xs h))
  | inr l ↦ rw l h
]

Agrees-learn :
    (seen : HashSet ℕ) (order : List ℕ) (k : ℕ)
    → Agrees seen order
    → contains_key k seen ≡ false
    → Agrees (insert k tt seen) (order ++ (k ∷ []))
unfolding Agrees
Agrees-learn seen order k h f = (
  insert-Distinct k tt seen h.0,
  (
    λ j.
        ground (
          arith,
          lookup-insert k j tt seen,
          h.1.0 j,
          contains-append order (k ∷ []) j,
          eqb_iff k j,
        ),
    Fresh-snoc order k h.1.1 (ground (arith, h.1.0 k)),
  ),
)

-- What the state has of the history of passed keys.
unfoldable Follows : List ℕ → ObservationDedup → Type 0
Follows history d =
    Agrees d.seen d.order × ((d.order ≡ latest d.capacity history) × (1 ≤ d.capacity))

Follows-drop :
    (history : List ℕ) (k : ℕ) (d : ObservationDedup)
    → Follows history d
    → contains_key k d.seen ≡ true
    → Follows history (admit_key k d).0
unfolding admit_key Follows
Follows-drop history k d h f = rw f h

Follows-pass :
    (history : List ℕ) (k : ℕ) (d : ObservationDedup)
    → Follows history d
    → contains_key k d.seen ≡ false
    → Follows (history ++ (k ∷ [])) (admit_key k d).0
unfolding admit_key Follows
Follows-pass history k d h f = rw f (
  evict-Agrees d.capacity (insert k tt d.seen) (d.order ++ (k ∷ []))
      (Agrees-learn d.seen d.order k h.0 f),
  (
    evict-latest d.capacity (insert k tt d.seen) (d.order ++ (k ∷ []))
        ∙ (ap (λ o. latest d.capacity (o ++ (k ∷ []))) h.1.0 ∙ latest-snoc d.capacity history k),
    h.1.1,
  ),
)

admit_key_same :
    (k : ℕ) (d : ObservationDedup)
    → ((admit_key k d).0.capacity ≡ d.capacity)
      × ((admit_key k d).0.resolution_secs ≡ d.resolution_secs)
unfolding admit_key
admit_key_same k d = ground arith

-- The test of the set is that of the description.
seen_latest :
    (history : List ℕ) (k : ℕ) (d : ObservationDedup)
    → Follows history d
    → contains_key k d.seen ≡ contains (latest d.capacity history) k
unfolding Follows Agrees
seen_latest history k d h = h.0.1.0 k ∙ ap (λ o. contains o k) h.1.0

admit_key_new : (k : ℕ) (d : ObservationDedup) → (admit_key k d).1 ≡ not (contains_key k d.seen)
unfolding admit_key
admit_key_new k d = ground arith

-- The two branches of one step.
choose :
    (s t q : Bool) (o : Observation) (kept dropped passed : List Observation)
    → q ≡ not s
    → t ≡ s
    → (s ≡ true → kept ≡ dropped)
    → (s ≡ false → kept ≡ passed)
    → (if q then o ∷ kept else kept) ≡ (if t then dropped else o ∷ passed)
choose true t q o kept dropped passed eq et d p = rw (eq, et) (d refl)
choose false t q o kept dropped passed eq et d p = rw (eq, et) (ap (λ rest. o ∷ rest) (p refl))

module _ (hash : MacAddr → String → ℕ → ℕ) where
  -- The key of an observation depends on the configured resolution alone.
  unfoldable pub key_at : ℕ → Observation → ℕ
  key_at r o = hash o.mac (observation_as_str o.kind) (o.observed_at / second / r)

  admitted-first_seen :
      (r c : ℕ) (obs : List Observation) (history : List ℕ) (d : ObservationDedup)
      → d.resolution_secs ≡ r
      → d.capacity ≡ c
      → Follows history d
      → admitted hash obs d ≡ first_seen c (key_at r) history obs
  unfolding admitted admit first_seen key key_at
  admitted-first_seen r c [] history d er ec h = refl
  admitted-first_seen r c (o ∷ obs) history d er ec h =
      let k : ℕ = key hash d o in
      let ek : k ≡ key_at r o =
        ap (λ s. hash o.mac (observation_as_str o.kind) (o.observed_at / second / s)) er in
      let same = admit_key_same k d in
      let after : ObservationDedup = (admit_key k d).0 in
      choose (contains_key k d.seen) (contains (latest c history) (key_at r o)) (admit_key k d).1 o
        (admitted hash obs after) (first_seen c (key_at r) history obs)
        (first_seen c (key_at r) (history ++ (key_at r o ∷ [])) obs) (admit_key_new k d)
        (ap (λ j. contains (latest c history) j) (sym ek)
          ∙ (ap (λ n. contains (latest n history) k) (sym ec) ∙ sym (seen_latest history k d h)))
        (λ f.
          admitted-first_seen r c obs history after (same.1 ∙ er) (same.0 ∙ ec)
            (Follows-drop history k d h f))
        (λ f.
          admitted-first_seen r c obs (history ++ (key_at r o ∷ [])) after (same.1 ∙ er)
            (same.0 ∙ ec)
            (subst (λ j. Follows (history ++ (j ∷ [])) after) ek (Follows-pass history k d h f)))

  -- Run from its initial state, the filter passes exactly the observations whose key (MAC address,
  -- kind and time bucket, hashed) is not that of one of the last `capacity` observations passed,
  -- where a capacity of zero counts as one.
  pub run_dedup :
      (capacity resolution_secs : ℕ) (obs : List Observation)
      → admitted hash obs (new_dedup capacity resolution_secs)
        ≡ first_seen
            (max capacity 1)
            (key_at (new_dedup capacity resolution_secs).resolution_secs)
            []
            obs
  unfolding new_dedup Follows Agrees latest Distinct lookup
  run_dedup capacity resolution_secs obs =
      admitted-first_seen (new_dedup capacity resolution_secs).resolution_secs (max capacity 1) obs
        [] (new_dedup capacity resolution_secs) refl refl
        ((tt, (λ k. refl, tt)), (refl, omega arith))
