-- ===== src/People/Latest.antt =====
-- src/people/mod.rs: which device gives a person their location.
use netgraspd.Base.{
  true, false, List, [], ◌∷◌, Option, none, some, Text, ◌==◌, list_eq, nat_eq, ◌≡◌, refl, sym,
  subst, Bool-cases, inl, inr, arith, if◌then◌else◌, All, keep_if, keep_if-All, All-keep_if,
  >>=-eq-some, ==_iff, ==_refl,
}
use netgraspd.Base.Assoc.{lookup, Distinct}
use netgraspd.Types.{MacAddr, mac_eq}
use netgraspd.People.{DeviceView, Registry}
use netgraspd.People.Views.{
  owned_views, seen_view, time_leb, view_leb, max_by, is_located, location_of_person,
}
use netgraspd.People.Whereabouts.{
  max_by-Greatest, max_by-All, view_leb_total, view_leb_trans, view_leb-time,
}

module _ (devices : List (MacAddr × DeviceView)) (item : Text) where
  abbrev Owned : List (MacAddr × Text) → DeviceView → Type 0
  Owned owners v = (mac : MacAddr) × (lookup mac owners ≡ some item) × (lookup mac devices ≡ some v)

  Owned-cons :
      (mac : MacAddr) (o : Text) (rest : List (MacAddr × Text)) (v : DeviceView)
      → lookup mac rest ≡ none
      → Owned rest v
      → Owned ((mac, o) ∷ rest) v
  unfolding lookup
  Owned-cons mac o rest v h (j, k, l) = (j, ground (arith, mac_eq.beq_iff mac j), l)

  All-Owned-cons :
      (mac : MacAddr) (o : Text) (rest : List (MacAddr × Text)) (views : List DeviceView)
      → lookup mac rest ≡ none
      → All (Owned rest) views
      → All (Owned ((mac, o) ∷ rest)) views
  All-Owned-cons mac o rest [] h a = tt
  All-Owned-cons mac o rest (v ∷ views) h a =
      (Owned-cons mac o rest v h a.0, All-Owned-cons mac o rest views h a.1)

  All-seen_view :
      (P : DeviceView → Type 0) (found : Option DeviceView) (views : List DeviceView)
      → ((v : DeviceView) → found ≡ some v → P v)
      → All P views
      → All P (seen_view found views)
  unfolding seen_view
  All-seen_view P none views h a = a
  All-seen_view P (some v) views h a = (h v refl, a)

  -- Every view of a person's is that of a device of theirs.
  owned_views-Owned :
      (owners : List (MacAddr × Text))
      → Distinct owners
      → All (Owned owners) (owned_views devices item owners)
  unfolding owned_views Distinct lookup
  owned_views-Owned [] d = tt
  owned_views-Owned ((mac, o) ∷ rest) d = elim (Bool-cases (o == item)) [
    | inl e ↦ rw e (
        All-seen_view (Owned ((mac, o) ∷ rest)) (lookup mac devices) (owned_views devices item rest)
          (λ v h. (mac, rw (==_refl mac) ground (arith, ==_iff o item), h))
          (All-Owned-cons mac o rest (owned_views devices item rest) d.0
            (owned_views-Owned rest d.1)))
    | inr e ↦
        rw e (
          All-Owned-cons mac o rest (owned_views devices item rest) d.0
            (owned_views-Owned rest d.1))
  ]

  All-seen :
      (P : DeviceView → Type 0) (found : Option DeviceView) (views : List DeviceView)
      → All P (seen_view found views)
      → ((v : DeviceView) → found ≡ some v → P v) × All P views
  unfolding seen_view
  All-seen P none views a = (λ v h. absurd (ground arith), a)
  All-seen P (some w) views a = (λ v h. subst P (ground arith) a.0, a.1)

  All-mine :
      (P : DeviceView → Type 0) (j : MacAddr) (o : Text) (rest : List (MacAddr × Text))
      → All P (owned_views devices item ((j, o) ∷ rest))
      → ((v : DeviceView) → (o == item) ≡ true → lookup j devices ≡ some v → P v)
        × All P (owned_views devices item rest)
  unfolding owned_views
  All-mine P j o rest a = elim (Bool-cases (o == item)) [
    | inl e ↦
        let (mine, others) = All-seen P (lookup j devices) (owned_views devices item rest) (
          subst
            (λ b. All P (
              if b
              then seen_view (lookup j devices) (owned_views devices item rest)
              else owned_views devices item rest))
            e a) in
        (λ v owned. mine v, others)
    | inr e ↦ (
      λ v owned. absurd (ground arith),
      subst
          (λ b. All P (
            if b
            then seen_view (lookup j devices) (owned_views devices item rest)
            else owned_views devices item rest))
          e a,
    )
  ]

  head_owner :
      (j mac : MacAddr) (o : Text) (rest : List (MacAddr × Text))
      → (j == mac) ≡ true
      → lookup mac ((j, o) ∷ rest) ≡ some item
      → (o == item) ≡ true
  unfolding lookup
  head_owner j mac o rest e h = ground (arith, ==_iff o item)

  tail_owner :
      (j mac : MacAddr) (o : Text) (rest : List (MacAddr × Text))
      → (j == mac) ≡ false
      → lookup mac ((j, o) ∷ rest) ≡ some item
      → lookup mac rest ≡ some item
  unfolding lookup
  tail_owner j mac o rest e h = ground arith

  -- And every device of theirs has its view among them.
  owned_views-all :
      (P : DeviceView → Type 0) (owners : List (MacAddr × Text)) (mac : MacAddr) (v : DeviceView)
      → All P (owned_views devices item owners)
      → lookup mac owners ≡ some item
      → lookup mac devices ≡ some v
      → P v
  unfolding lookup
  owned_views-all P [] mac v a h k = absurd (ground arith)
  owned_views-all P ((j, o) ∷ rest) mac v a h k =
      let (mine, others) = All-mine P j o rest a in
      elim (Bool-cases (j == mac)) [
        | inl e ↦
            mine v (head_owner j mac o rest e h)
              (subst (λ x. lookup x devices ≡ some v) (sym ((mac_eq.beq_iff j mac).0 e)) k)
        | inr e ↦ owned_views-all P rest mac v others (tail_owner j mac o rest e h) k
      ]

All-located :
    (P : DeviceView → Type 0) (views : List DeviceView)
    → All P (keep_if is_located views)
    → All (λ v. is_located v ≡ true → P v) views
All-located P [] a = tt
All-located P (v ∷ views) a = elim (Bool-cases (is_located v)) [
  | inl e ↦
      let b : P v × All P (keep_if is_located views) =
        subst (λ t. All P (if t then v ∷ keep_if is_located views else keep_if is_located views)) e
          a in
      (λ h. b.0, All-located P views b.1)
  | inr e ↦ (
    λ h. absurd (ground arith),
    All-located P views (
        subst (λ t. All P (if t then v ∷ keep_if is_located views else keep_if is_located views)) e
          a),
  )
]

located-online : (v : DeviceView) → is_located v ≡ true → v.online ≡ true
unfolding is_located
located-online v h = ground arith

-- Where a registry has one owner of each device and a person has a location, it is that of a
-- device of theirs that is online, and no device of theirs that is online and has a location was
-- heard from later. A device that has no location is passed over, however late it was heard from.
pub location_of_person_lem :
    (r : Registry) (item place : Text)
    → Distinct r.owner
    → location_of_person r item ≡ some place
    → (mac : MacAddr) × (v : DeviceView) × (lookup mac r.owner ≡ some item)
      × (lookup mac r.devices ≡ some v)
      × (v.online ≡ true)
      × (v.location ≡ some place)
      × ((j : MacAddr) (w : DeviceView)
          → lookup j r.owner ≡ some item
          → lookup j r.devices ≡ some w
          → is_located w ≡ true
          → time_leb w.last_active v.last_active ≡ true)
unfolding location_of_person
location_of_person_lem r item place d h =
    let views : List DeviceView = owned_views r.devices item r.owner in
    let (v, best, here) =
      >>=-eq-some (max_by view_leb (keep_if is_located views)) (λ v. v.location) h in
    let (mac, owner, device) =
      max_by-All view_leb (Owned r.devices item r.owner) (keep_if is_located views) v
        (All-keep_if (Owned r.devices item r.owner) is_located views
          (owned_views-Owned r.devices item r.owner d))
        best in
    (
      mac,
      v,
      owner,
      device,
      located-online v (
          max_by-All view_leb (λ w. is_located w ≡ true) (keep_if is_located views) v
            (keep_if-All is_located views) best),
      here,
      λ j w k l located. view_leb-time w v (
          owned_views-all r.devices item (λ x. is_located x ≡ true → view_leb x v ≡ true) r.owner j
            w
            (All-located (λ x. view_leb x v ≡ true) views
              (max_by-Greatest view_leb view_leb_total view_leb_trans (keep_if is_located views) v
                best))
            k l located),
    )
