-- ===== src/People/Owned.antt =====
-- src/people/mod.rs: how a change to the view of one device shows in the views that a person owns.
use netgraspd.Base.{
  Bool, true, false, ◌||◌, List, [], ◌∷◌, Option, none, some, Text, ◌==◌, list_eq, nat_eq, any, ◌≡◌,
  refl, sym, ◌∙◌, ==_iff, arith, Bool-cases, inl, inr, if◌then◌else◌,
}
use netgraspd.Base.Assoc.{lookup, insert, lookup-insert, Distinct}
use netgraspd.Config.Timeouts.{unwrap_or}
use netgraspd.Types.{MacAddr, mac_eq}
use netgraspd.People.{DeviceView, default_view}
use netgraspd.People.Views.{owned_views, seen_view}

-- Whether a stored view, if there is one, is online.
abbrev pub online_of : Option DeviceView → Bool
online_of none = false
online_of (some v) = v.online

abbrev pub any_view_online : List (MacAddr × DeviceView) → Text → List (MacAddr × Text) → Bool
any_view_online devices item owners = any (λ v. v.online) (owned_views devices item owners)

seen_view-online :
    (o : Option DeviceView) (views : List DeviceView)
    → any (λ v. v.online) (seen_view o views) ≡ (online_of o || any (λ v. v.online) views)
unfolding seen_view
seen_view-online none views = refl
seen_view-online (some v) views = refl

any_view_online-nil :
    (devices : List (MacAddr × DeviceView)) (item : Text) → any_view_online devices item [] ≡ false
unfolding owned_views
any_view_online-nil devices item = refl

-- The devices of a person, one by one.
pub any_view_online-cons :
    (devices : List (MacAddr × DeviceView)) (item : Text) (mac : MacAddr) (owner : Text)
    (rest : List (MacAddr × Text))
    → any_view_online devices item ((mac, owner) ∷ rest) ≡ (
        if owner == item
        then online_of (lookup mac devices) || any_view_online devices item rest
        else any_view_online devices item rest)
unfolding owned_views
any_view_online-cons devices item mac owner rest = elim (Bool-cases (owner == item)) [
  | inl e ↦ rw e (seen_view-online (lookup mac devices) (owned_views devices item rest))
  | inr e ↦ rw e refl
]

module _ (devices : List (MacAddr × DeviceView)) (mac : MacAddr) (v : DeviceView) where
  -- A device that nobody owns shows nowhere.
  unowned_lem :
      (item : Text) (owners : List (MacAddr × Text))
      → lookup mac owners ≡ none
      → any_view_online (insert mac v devices) item owners ≡ any_view_online devices item owners
  unfolding lookup
  unowned_lem item [] h =
      any_view_online-nil (insert mac v devices) item ∙ sym (any_view_online-nil devices item)
  unowned_lem item ((j, o) ∷ rest) h = elim (Bool-cases (j == mac)) [
    | inl e ↦ absurd (ground arith)
    | inr e ↦
        rw (any_view_online-cons (insert mac v devices) item j o rest) rw
          (any_view_online-cons devices item j o rest) ground
          (
            arith,
            unowned_lem item rest (ground arith),
            lookup-insert mac j v devices,
            mac_eq.beq_iff mac j,
            mac_eq.beq_iff j mac,
          )
  ]

  -- The device of one person does not show with another.
  pub others_lem :
      (item q : Text) (owners : List (MacAddr × Text))
      → Distinct owners
      → lookup mac owners ≡ some item
      → (item == q) ≡ false
      → any_view_online (insert mac v devices) q owners ≡ any_view_online devices q owners
  unfolding lookup Distinct
  others_lem item q [] d h n =
      any_view_online-nil (insert mac v devices) q ∙ sym (any_view_online-nil devices q)
  others_lem item q ((j, o) ∷ rest) d h n =
      rw (any_view_online-cons (insert mac v devices) q j o rest) rw
        (any_view_online-cons devices q j o rest)
        elim (Bool-cases (j == mac)) [
          | inl e ↦ ground (arith, unowned_lem q rest, d.0, mac_eq.beq_iff j mac)
          | inr e ↦ ground (
            arith,
            others_lem item q rest d.1 (ground arith) n,
            lookup-insert mac j v devices,
            mac_eq.beq_iff mac j,
            mac_eq.beq_iff j mac,
          )
        ]

  -- A view that stays on or off changes nothing.
  pub same_lem :
      (q : Text) (owners : List (MacAddr × Text))
      → v.online ≡ (unwrap_or (lookup mac devices) default_view).online
      → any_view_online (insert mac v devices) q owners ≡ any_view_online devices q owners
  same_lem q [] h =
      any_view_online-nil (insert mac v devices) q ∙ sym (any_view_online-nil devices q)
  same_lem q ((j, o) ∷ rest) h =
      rw (any_view_online-cons (insert mac v devices) q j o rest) rw
        (any_view_online-cons devices q j o rest) ground
        (arith, same_lem q rest h, lookup-insert mac j v devices, mac_eq.beq_iff mac j)

  pub on_lem :
      (item : Text) (owners : List (MacAddr × Text))
      → lookup mac owners ≡ some item
      → v.online ≡ true
      → any_view_online (insert mac v devices) item owners ≡ true
  unfolding lookup
  on_lem item [] h on = absurd (ground arith)
  on_lem item ((j, o) ∷ rest) h on =
      rw (any_view_online-cons (insert mac v devices) item j o rest) elim (Bool-cases (j == mac)) [
        | inl e ↦ ground (
          arith,
          lookup-insert mac j v devices,
          mac_eq.beq_iff mac j,
          mac_eq.beq_iff j mac,
          ==_iff o item,
        )
        | inr e ↦ ground (arith, on_lem item rest (ground arith) on)
      ]

  pub off_lem :
      (q : Text) (owners : List (MacAddr × Text))
      → v.online ≡ false
      → any_view_online (insert mac v devices) q owners ≡ true
      → any_view_online devices q owners ≡ true
  off_lem q [] off h = absurd (ground (arith, any_view_online-nil (insert mac v devices) q))
  off_lem q ((j, o) ∷ rest) off h = rw (any_view_online-cons devices q j o rest) ground (
    arith,
    off_lem q rest off,
    any_view_online-cons (insert mac v devices) q j o rest,
    lookup-insert mac j v devices,
    mac_eq.beq_iff mac j,
  )
