-- ===== src/Analyze/IpConflict/Claimants.antt =====
-- src/analyze/ip_conflict.rs: the two devices behind an alert.
use netgraspd.Base.{
  ℕ, ◌-◌, ◌≤◌, ◌≡◌, refl, ◌∙◌, subst, Bool, true, false, ◌&&◌, ◌||◌, Option, none, some, List, [],
  ◌∷◌, Text, ◌==◌, nat_eq, option_eq, length, any, All, if◌then◌else◌, arith, Bool-cases, inl, inr,
  ==_refl, eqb, is_some,
}
use netgraspd.Base.Assoc.{lookup, All-insert, lookup-All}
use netgraspd.Types.Mac.{MacAddr, mac_eq, mac_beq_iff}
use netgraspd.Types.Net.{IpAddr}
use netgraspd.Types.Observed.{Observation}
use netgraspd.Analyze.Gateway.{proxy_arp_for, v4_of}
use netgraspd.Analyze.Window.{new_map, make_room, update_at, value_or}
use netgraspd.Analyze.Window.Entries.{make_room-All}
use netgraspd.Analyze.Detector.{Context, heard}
use netgraspd.Analyze.IpConflict.{
  Users, IpConflict, ConflictDetails, new_conflict, first_user, users_of, simultaneous, used_by,
  is_shared, use_address, conflict_at, conflict,
}

-- The observation comes from an address.
unfoldable pub uses : Observation → MacAddr → ℕ → ℕ → Bool
uses o m x t = (o.mac == m) && ((v4_of o.ip == some x) && eqb o.observed_at t)

abbrev pub used : List Observation → MacAddr → ℕ → ℕ → Bool
used history m x t = any (λ o. uses o m x t) history

-- The latest user of an address did use it.
unfoldable Vouched : List Observation → ℕ × (Users × ℕ) → Type 0
Vouched history e = used history e.1.0.latest.0 e.0 e.1.0.latest.1 ≡ true

Vouched-more :
    (o : Observation) (history : List Observation) (m : List (ℕ × (Users × ℕ)))
    → All (Vouched history) m
    → All (Vouched (o ∷ history)) m
unfolding Vouched
Vouched-more o history [] h = tt
Vouched-more o history (e ∷ m) h = (ground arith, Vouched-more o history m h.1)

uses_self : (o : Observation) (x : ℕ) → v4_of o.ip ≡ some x → uses o o.mac x o.observed_at ≡ true
unfolding uses
uses_self o x e = rw e (ground (arith, ==_refl o.mac))

used_more :
    (o : Observation) (history : List Observation) (m : MacAddr) (x t : ℕ)
    → used history m x t ≡ true
    → used (o ∷ history) m x t ≡ true
used_more o history m x t h = ground arith

held-Vouched :
    (o : Observation) (x : ℕ) (history : List Observation) (m : List (ℕ × (Users × ℕ)))
    (r : Option (Users × ℕ))
    → lookup x m ≡ r
    → v4_of o.ip ≡ some x
    → All (Vouched history) m
    → used (o ∷ history) (value_or (first_user o) r).latest.0 x (value_or (first_user o) r).latest.1
      ≡ true
unfolding Vouched
held-Vouched o x history m none f e h = ground (arith, uses_self o x e)
held-Vouched o x history m (some p) f e h =
    used_more o history p.0.latest.0 x p.0.latest.1 (lookup-All (Vouched history) x p m h f)

users_of-Vouched :
    (o : Observation) (x : ℕ) (history : List Observation) (a : IpConflict)
    → v4_of o.ip ≡ some x
    → All (Vouched history) a.addresses.entries
    → used (o ∷ history) (users_of o x a).latest.0 x (users_of o x a).latest.1 ≡ true
unfolding users_of
users_of-Vouched o x history a e h =
    held-Vouched o x history (make_room x a.addresses).entries
      (lookup x (make_room x a.addresses).entries) refl e
      (make_room-All (Vouched history) x a.addresses h)

used_by-Vouched :
    (o : Observation) (x t : ℕ) (history : List Observation) (u : Users) (fires : Bool)
    → v4_of o.ip ≡ some x
    → Vouched (o ∷ history) (x, (used_by o fires u, t))
unfolding used_by Vouched
used_by-Vouched o x t history u fires e =
    ground (arith, uses_self o x e, mac_beq_iff u.latest.0 o.mac)

module _ (show : IpAddr → Text) (render : ConflictDetails → Text) where
  use_address-Vouched :
      (c : Context) (o : Observation) (x : ℕ) (history : List Observation) (a : IpConflict)
      → v4_of o.ip ≡ some x
      → All (Vouched history) a.addresses.entries
      → All (Vouched (o ∷ history)) (use_address show render c o x a).0.addresses.entries
  unfolding use_address update_at
  use_address-Vouched c o x history a e h =
      All-insert (Vouched (o ∷ history)) x _ (make_room x a.addresses).entries
        (used_by-Vouched o x o.observed_at history _ _ e)
        (Vouched-more o history _ (make_room-All (Vouched history) x a.addresses h))

  at-Vouched :
      (c : Context) (o : Observation) (ox : Option ℕ) (history : List Observation) (a : IpConflict)
      → v4_of o.ip ≡ ox
      → All (Vouched history) a.addresses.entries
      → All (Vouched (o ∷ history)) (conflict_at show render c o ox a).0.addresses.entries
  unfolding conflict_at
  at-Vouched c o none history a e h = Vouched-more o history a.addresses.entries h
  at-Vouched c o (some x) history a e h =
      elim (Bool-cases (is_shared x || is_some (proxy_arp_for c.gateway o))) [
        | inl q ↦ rw q (Vouched-more o history a.addresses.entries h)
        | inr q ↦ rw q (use_address-Vouched c o x history a e h)
      ]

  at_within :
      (c : Context) (o : Observation) (ox : Option ℕ) (a : IpConflict)
      → (conflict_at show render c o ox a).0.active_within ≡ a.active_within
  unfolding conflict_at use_address
  at_within c o none a = refl
  at_within c o (some x) a =
      elim (Bool-cases (is_shared x || is_some (proxy_arp_for c.gateway o))) [
        | inl q ↦ rw q refl
        | inr q ↦ rw q refl
      ]

  -- The state after some traffic, newest first.
  unfoldable pub after_all : List (Context × Observation) → IpConflict → IpConflict
  after_all [] a = a
  after_all ((c, o) ∷ earlier) a = (conflict show render c o (after_all earlier a)).0

  after_all-Vouched :
      (traffic : List (Context × Observation)) (a : IpConflict)
      → All (Vouched []) a.addresses.entries
      → All (Vouched (heard traffic)) (after_all traffic a).addresses.entries
  unfolding after_all conflict
  after_all-Vouched [] a h = h
  after_all-Vouched ((c, o) ∷ earlier) a h =
      at-Vouched c o (v4_of o.ip) (heard earlier) (after_all earlier a) refl
        (after_all-Vouched earlier a h)

  after_all_within :
      (traffic : List (Context × Observation)) (a : IpConflict)
      → (after_all traffic a).active_within ≡ a.active_within
  unfolding after_all conflict
  after_all_within [] a = refl
  after_all_within ((c, o) ∷ earlier) a =
      at_within c o (v4_of o.ip) (after_all earlier a) ∙ after_all_within earlier a

  -- Two devices on one address: another one than the sender used the address that the observation
  -- comes from, no later than it and no longer before it than `bound`.
  abbrev pub Contested : Observation → List Observation → ℕ → Type 0
  Contested o history bound =
      (x : ℕ) × (other : MacAddr) × (t : ℕ) × (v4_of o.ip ≡ some x)
      × ((other == o.mac) ≡ false)
      × (used (o ∷ history) other x t ≡ true)
      × (t ≤ o.observed_at)
      × (o.observed_at - t ≤ bound)

  address-Contested :
      (c : Context) (o : Observation) (x : ℕ) (history : List Observation) (a : IpConflict)
      → v4_of o.ip ≡ some x
      → All (Vouched history) a.addresses.entries
      → 1 ≤ length (use_address show render c o x a).1
      → Contested o history a.active_within
  unfolding use_address simultaneous
  address-Contested c o x history a e h l =
      let u : Users = users_of o x a in
      (
        x,
        u.latest.0,
        u.latest.1,
        e,
        ground (arith, l),
        users_of-Vouched o x history a e h,
        ground (arith, l),
        ground (arith, l),
      )

  at-Contested :
      (c : Context) (o : Observation) (ox : Option ℕ) (history : List Observation) (a : IpConflict)
      → v4_of o.ip ≡ ox
      → All (Vouched history) a.addresses.entries
      → 1 ≤ length (conflict_at show render c o ox a).1
      → Contested o history a.active_within
  unfolding conflict_at
  at-Contested c o none history a e h l = absurd (omega arith)
  at-Contested c o (some x) history a e h l =
      elim (Bool-cases (is_shared x || is_some (proxy_arp_for c.gateway o))) [
        | inl q ↦ absurd (
            omega (
              arith,
              subst (λ b. 1 ≤ length (if b then (a, []) else use_address show render c o x a).1) q
                  l,
            ))
        | inr q ↦
            address-Contested c o x history a e h (
              subst (λ b. 1 ≤ length (if b then (a, []) else use_address show render c o x a).1) q
                l)
      ]

  -- A conflict that is reported was one: if, after any traffic, an observation makes the detector
  -- raise an alert, then it comes from an IPv4 address that another device used too, no later than
  -- it and no longer before it than the configured bound.
  pub conflict-Contested :
      (c : Context) (o : Observation) (traffic : List (Context × Observation))
      (active_within max_tracked : ℕ)
      → 1
        ≤ length
            (conflict show render c o
              (after_all traffic (new_conflict active_within max_tracked))).1
      → Contested o (heard traffic) active_within
  unfolding conflict new_conflict new_map
  conflict-Contested c o traffic active_within max_tracked l =
      let start = new_conflict active_within max_tracked in
      subst (Contested o (heard traffic)) (after_all_within traffic start) (
        at-Contested c o (v4_of o.ip) (heard traffic) (after_all traffic start) refl
          (after_all-Vouched traffic start tt) l)
