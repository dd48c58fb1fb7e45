-- ===== src/Identity/Scorer/Rank.antt =====
-- What the scorer picks: the strongest usable signal, and nothing else.
use netgraspd.Base.{
  ◌≤◌, ◌<◌, ◌≡◌, refl, inl, inr, true, false, List, [], ◌∷◌, Option, none, some, Text, contains,
  is_some, is_none, All, Option-cases, arith, nat_eq,
}
use netgraspd.Types.{
  mac_text, SignalKind, user_assigned, vendor, mac, weight, kind_eq, kind_beq_iff, Signal,
  signal_eq, signal_beq_iff, kind_beq, is_blank,
}
use netgraspd.Identity.Scorer.{
  IdentityInput, Identity, first_usable, naming, vendor_name, resolve_vendor, resolve_naming,
  resolve,
}

first_usable-IsSome :
    (ss : List Signal) (s : Signal)
    → contains ss s ≡ true
    → is_blank s.value ≡ false
    → is_some (first_usable ss s.kind) ≡ true
unfolding first_usable
first_usable-IsSome [] s m b = absurd (ground arith)
first_usable-IsSome (x ∷ ss) s m b = ground (
  arith,
  signal_beq_iff x s,
  kind_beq_iff x.kind s.kind,
  kind_beq_iff s.kind s.kind,
  first_usable-IsSome ss s,
)

resolve-usable :
    (input : IdentityInput) (k : SignalKind)
    → is_some (first_usable input.signals k) ≡ true
    → weight k ≤ (resolve input).confidence
unfolding resolve weight
resolve-usable input user_assigned h = ground arith
resolve-usable input k h = ground arith

-- No usable signal outweighs the identity that the scorer picks: whatever a device has been heard
-- to say, the confidence of its identity is at least the weight of each signal that is not blank.
pub resolve_strongest :
    (input : IdentityInput) (s : Signal)
    → contains input.signals s ≡ true
    → is_blank s.value ≡ false
    → weight s.kind ≤ (resolve input).confidence
resolve_strongest input s m b =
    resolve-usable input s.kind (first_usable-IsSome input.signals s m b)

-- No kind of more weight than this one has a usable signal.
abbrev pub Unrivalled : IdentityInput → SignalKind → Type 0
Unrivalled input k = (j : SignalKind) → weight k < weight j → first_usable input.signals j ≡ none

-- The evidence behind an identity: the bare address, the vendor's name put together with the
-- device type, or the first usable value of the kind that the identity names; its confidence is
-- the weight of that kind.
pub data Evidence (input : IdentityInput) : Identity → Type 0 where
  bare :
      is_none (first_usable input.signals vendor) ≡ true
      → Evidence input
          (record { display_name = mac_text input.mac; source = mac; confidence = weight mac })
  made :
      (v : Text)
      → first_usable input.signals vendor ≡ some v
      → Evidence input (record {
        display_name = vendor_name v input.device_type;
        source = vendor;
        confidence = weight vendor;
      })
  said :
      (k : SignalKind) (v : Text)
      → contains (user_assigned ∷ naming) k ≡ true
      → first_usable input.signals k ≡ some v
      → Evidence input (record { display_name = v; source = k; confidence = weight k })

resolve_vendor-Evidence : (input : IdentityInput) → Evidence input (resolve_vendor input)
unfolding resolve_vendor
resolve_vendor-Evidence input = elim (Option-cases (first_usable input.signals vendor)) [
  | inl e ↦ rw (e, resolve_vendor) (bare (rw e))
  | inr (v, e) ↦ rw (e, resolve_vendor) (made v e)
]

resolve_naming-Evidence :
    (input : IdentityInput) (ks : List SignalKind)
    → All (λ k. contains (user_assigned ∷ naming) k ≡ true) ks
    → Evidence input (resolve_naming input ks)
unfolding resolve_naming
resolve_naming-Evidence input [] h = resolve_vendor-Evidence input
resolve_naming-Evidence input (k ∷ ks) h = elim (Option-cases (first_usable input.signals k)) [
  | inl e ↦ rw (e, resolve_naming) (resolve_naming-Evidence input ks h.1)
  | inr (v, e) ↦ rw (e, resolve_naming) (said k v h.0 e)
]

resolve-supported : (input : IdentityInput) → Evidence input (resolve input)
unfolding resolve kind_beq
resolve-supported input = elim (Option-cases (first_usable input.signals user_assigned)) [
  | inl e ↦
      rw (e, resolve)
        (resolve_naming-Evidence input naming (refl, (refl, (refl, (refl, (refl, tt))))))
  | inr (v, e) ↦ rw (e, resolve) (said user_assigned v refl e)
]

unheard :
    (input : IdentityInput) (j : SignalKind) (o : Option Text)
    → first_usable input.signals j ≡ o
    → (resolve input).confidence < weight j
    → first_usable input.signals j ≡ none
unheard input j none e l = e
unheard input j (some v) e l = absurd (omega (arith, l, resolve-usable input j (rw e refl)))

source_weight :
    (input : IdentityInput) (i : Identity) → Evidence input i → i.confidence ≡ weight i.source
source_weight input i (bare h) = refl
source_weight input i (made v h) = refl
source_weight input i (said k v m h) = refl

-- An identity is always one that the evidence supports, and the strongest of those: it is a user's
-- name or a naming signal at its first usable value, the vendor's name or the address, its
-- confidence is the weight of its source, and no kind of more weight has a usable signal.
pub resolve-Evidence :
    (input : IdentityInput)
    → Evidence input (resolve input) × Unrivalled input (resolve input).source
resolve-Evidence input =
    let e = resolve-supported input in
    (e, λ j l. unheard input j (first_usable input.signals j) refl (rw (source_weight input _ e) l))

resolve-cons :
    (input : IdentityInput) (k : SignalKind) (v : Text)
    → weight k < (resolve input).confidence
    → resolve (record input { signals = record { kind = k; value = v } ∷ input.signals })
      ≡ resolve input
unfolding resolve weight first_usable kind_beq
resolve-cons input user_assigned v h = ground arith
resolve-cons input k v h = ground arith

-- A weaker signal that arrives later changes nothing: if it weighs less than the identity that
-- the device has, the scorer picks the same identity with it as without it.
pub resolve_weaker :
    (input : IdentityInput) (s : Signal)
    → weight s.kind < (resolve input).confidence
    → resolve (record input { signals = s ∷ input.signals }) ≡ resolve input
resolve_weaker input s h = resolve-cons input s.kind s.value h
