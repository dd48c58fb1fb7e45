-- ===== src/Analyze/ArpSpoof/Claims.antt =====
-- src/analyze/arp_spoof.rs: the claims behind an alert.
use netgraspd.Base.{
  ℕ, ◌-◌, ◌≤◌, ◌<◌, ◌≡◌, refl, ◌∙◌, subst, Bool, true, false, ◌&&◌, ◌||◌, Option, none, some, List,
  [], ◌⊎◌, ◌∷◌, Text, ◌==◌, nat_eq, option_eq, length, any, All, arith, Bool-cases, inl, inr,
  ==_refl, eqb, is_some, >>=-eq-some,
}
use netgraspd.Base.Assoc.{lookup, All-insert, lookup-All}
use netgraspd.Types.Mac.{MacAddr, mac_eq}
use netgraspd.Types.Net.{IpAddr, v4_unspecified, v4_broadcast, v4_multicast}
use netgraspd.Types.Observed.{Observation, ArpDetail, arp_detail}
use netgraspd.Device.Manager.Feeds.{SecurityAlert}
use netgraspd.Analyze.Gateway.{proxy_arp_for}
use netgraspd.Analyze.Window.{new_map, make_room, insert_at}
use netgraspd.Analyze.Window.Entries.{make_room-All}
use netgraspd.Analyze.Detector.{Context, heard}
use netgraspd.Analyze.ArpSpoof.{
  Holder, ArpSpoof, SpoofDetails, new_spoof, holder_at, held_by_other, unless_same, still_active,
  active_since, impersonates, claim, claim_at, spoof_detail, spoof,
}

-- The address that an observation claims.
abbrev pub claimed_by : Option ArpDetail → Option ℕ
claimed_by none = none
claimed_by (some d) = d.sender_ip

unfoldable pub claims : Observation → MacAddr → ℕ → ℕ → Bool
claims o m x t = (o.mac == m) && ((claimed_by (arp_detail o) == some x) && eqb o.observed_at t)

abbrev pub claimed : List Observation → MacAddr → ℕ → ℕ → Bool
claimed history m x t = any (λ o. claims o m x t) history

-- The holder of an address did claim it.
unfoldable Vouched : List Observation → ℕ × (Holder × ℕ) → Type 0
Vouched history e = claimed history e.1.0.mac e.0 e.1.0.last_claim ≡ true

Vouched-more :
    (o : Observation) (history : List Observation) (m : List (ℕ × (Holder × ℕ)))
    → All (Vouched history) m
    → All (Vouched (o ∷ history)) m
unfolding Vouched
Vouched-more o history [] h = tt
Vouched-more o history (e ∷ m) h = (ground arith, Vouched-more o history m h.1)

claims_self :
    (o : Observation) (x : ℕ)
    → claimed_by (arp_detail o) ≡ some x
    → claims o o.mac x o.observed_at ≡ true
unfolding claims
claims_self o x e = rw e (ground (arith, ==_refl o.mac))

-- Another device claimed the address, no later than the observation and less than the grace
-- period before it.
abbrev pub Taken : Observation → List Observation → ℕ → ℕ → Type 0
Taken o history x grace =
    (other : MacAddr) × (t : ℕ) × ((other == o.mac) ≡ false)
    × (claimed history other x t ≡ true)
    × (t ≤ o.observed_at)
    × (o.observed_at - t < grace)

active-Taken :
    (o : Observation) (history : List Observation) (x grace : ℕ) (h : Option Holder)
    → ((k : Holder) → h ≡ some k → claimed history k.mac x k.last_claim ≡ true)
    → active_since (held_by_other o.mac h) o.observed_at grace ≡ true
    → Taken o history x grace
unfolding held_by_other unless_same
active-Taken o history x grace none v e = absurd (ground arith)
active-Taken o history x grace (some k) v e =
    (k.mac, k.last_claim, ground arith, v k refl, ground arith, ground arith)

holder_at-Vouched :
    (x : ℕ) (history : List Observation) (a : ArpSpoof) (k : Holder)
    → All (Vouched history) a.holders.entries
    → holder_at x a ≡ some k
    → claimed history k.mac x k.last_claim ≡ true
unfolding holder_at Vouched
holder_at-Vouched x history a k h e =
    let (p, found, same) = >>=-eq-some (lookup x a.holders.entries) (λ e. some e.0) e in
    let v = lookup-All (Vouched history) x p a.holders.entries h found in ground (arith, v)

module _ (show : IpAddr → Text) (render : SpoofDetails → Text) (c : Context) (o : Observation) where
  claim-Vouched :
      (d : ArpDetail) (x : ℕ) (history : List Observation) (a : ArpSpoof)
      → claimed_by (arp_detail o) ≡ some x
      → All (Vouched history) a.holders.entries
      → All (Vouched (o ∷ history)) (claim show render c o d x a).0.holders.entries
  unfolding claim insert_at Vouched
  claim-Vouched d x history a e h =
      All-insert (Vouched (o ∷ history)) x _ (make_room x a.holders).entries
        (ground (arith, claims_self o x e))
        (Vouched-more o history _ (make_room-All (Vouched history) x a.holders h))

  -- An attack: a stranger on the gateway's address, or a device on that of another.
  abbrev Attack : List Observation → ℕ → Type 0
  Attack history grace =
      (x : ℕ) × (claimed_by (arp_detail o) ≡ some x)
      × ((impersonates c o.mac x ≡ true) ⊎ Taken o history x grace)

  claim-Attack :
      (d : ArpDetail) (x : ℕ) (history : List Observation) (a : ArpSpoof)
      → claimed_by (arp_detail o) ≡ some x
      → All (Vouched history) a.holders.entries
      → 1 ≤ length (claim show render c o d x a).1
      → Attack history a.grace_period
  unfolding claim still_active
  claim-Attack d x history a e h l = elim (Bool-cases (impersonates c o.mac x)) [
    | inl i ↦ (x, e, inl i)
    | inr i ↦ (
      x,
      e,
      inr (
          active-Taken o history x a.grace_period (holder_at x a)
            (λ k found. holder_at-Vouched x history a k h found) (ground (arith, l, i))),
    )
  ]

  -- What holds of the state and the alerts after an observation.
  abbrev Sound : List Observation → ArpSpoof → ArpSpoof × List SecurityAlert → Type 0
  Sound history a result =
      All (Vouched (o ∷ history)) result.0.holders.entries
      × (result.0.grace_period ≡ a.grace_period)
      × (1 ≤ length result.1 → Attack history a.grace_period)

  ignored-Sound :
      (history : List Observation) (a : ArpSpoof)
      → All (Vouched history) a.holders.entries
      → Sound history a (a, [])
  ignored-Sound history a h =
      (Vouched-more o history a.holders.entries h, refl, λ l. absurd (omega (arith, l)))

  claim-Sound :
      (d : ArpDetail) (x : ℕ) (history : List Observation) (a : ArpSpoof)
      → claimed_by (arp_detail o) ≡ some x
      → All (Vouched history) a.holders.entries
      → Sound history a (claim show render c o d x a)
  unfolding claim
  claim-Sound d x history a e h =
      (claim-Vouched d x history a e h, refl, claim-Attack d x history a e h)

  claim_at-Sound :
      (d : ArpDetail) (ox : Option ℕ) (history : List Observation) (a : ArpSpoof)
      → claimed_by (arp_detail o) ≡ ox
      → All (Vouched history) a.holders.entries
      → Sound history a (claim_at show render c o d ox a)
  unfolding claim_at
  claim_at-Sound d none history a e h = ignored-Sound history a h
  claim_at-Sound d (some x) history a e h =
      elim (Bool-cases (v4_unspecified x || (v4_broadcast x || v4_multicast x))) [
        | inl f ↦ rw f (ignored-Sound history a h)
        | inr f ↦ rw f elim (Bool-cases (is_some (proxy_arp_for c.gateway o))) [
          | inl g ↦ rw g (ignored-Sound history a h)
          | inr g ↦ rw g (claim-Sound d x history a e h)
        ]
      ]

  detail-Sound :
      (od : Option ArpDetail) (history : List Observation) (a : ArpSpoof)
      → arp_detail o ≡ od
      → All (Vouched history) a.holders.entries
      → Sound history a (spoof_detail show render c o od a)
  unfolding spoof_detail
  detail-Sound none history a e h = ignored-Sound history a h
  detail-Sound (some d) history a e h = claim_at-Sound d d.sender_ip history a (rw e refl) h

module _ (show : IpAddr → Text) (render : SpoofDetails → Text) where
  -- The state after some traffic, newest first.
  unfoldable pub after_claims : List (Context × Observation) → ArpSpoof → ArpSpoof
  after_claims [] a = a
  after_claims ((c, o) ∷ earlier) a = (spoof show render c o (after_claims earlier a)).0

  after_claims-Vouched :
      (traffic : List (Context × Observation)) (a : ArpSpoof)
      → All (Vouched []) a.holders.entries
      → All (Vouched (heard traffic)) (after_claims traffic a).holders.entries
        × ((after_claims traffic a).grace_period ≡ a.grace_period)
  unfolding after_claims spoof
  after_claims-Vouched [] a h = (h, refl)
  after_claims-Vouched ((c, o) ∷ earlier) a h =
      let (vouched, grace) = after_claims-Vouched earlier a h in
      let (v, g, _) =
        detail-Sound show render c o (arp_detail o) (heard earlier) (after_claims earlier a) refl
          vouched in
      (v, g ∙ grace)

  -- An attack that is reported was one: if, after any traffic, an observation makes the detector
  -- raise an alert, then it claims an address, and either that is the gateway's and the device is
  -- not the gateway, or another device claimed it before, less than the grace period ago.
  pub spoof-Attack :
      (c : Context) (o : Observation) (traffic : List (Context × Observation))
      (grace_period max_tracked : ℕ)
      → 1
        ≤ length
            (spoof show render c o (after_claims traffic (new_spoof grace_period max_tracked))).1
      → (x : ℕ) × (claimed_by (arp_detail o) ≡ some x)
        × ((impersonates c o.mac x ≡ true) ⊎ Taken o (heard traffic) x grace_period)
  unfolding spoof new_spoof new_map
  spoof-Attack c o traffic grace_period max_tracked l =
      let start : ArpSpoof = new_spoof grace_period max_tracked in
      let (vouched, grace) = after_claims-Vouched traffic start tt in
      let (_, _, attack) =
        detail-Sound show render c o (arp_detail o) (heard traffic) (after_claims traffic start)
          refl vouched in
      subst
        (λ g.
          (x : ℕ) × (claimed_by (arp_detail o) ≡ some x)
          × ((impersonates c o.mac x ≡ true) ⊎ Taken o (heard traffic) x g))
        grace (attack l)
