-- ===== src/Device/Attribution.antt =====
-- Whose name a frame's evidence is: `Manager::attribute`.
use netgraspd.Base.{
  if◌then◌else◌, ◌>>=◌, >>=-eq-some, ◌+◌, ◌≡◌, refl, Bool, true, false, ◌&&◌, ◌||◌, not, List, [],
  ◌∷◌, Option, none, some, any, list_eq, nat_eq, contains, length, ◌==◌, option_eq, arith, keep_if,
  Option-cases, inl, inr,
}
use netgraspd.Types.{
  MacAddr, mac_eq, mac_beq_iff, IpAddr, ip_eq, Signal, signal_eq, is_blank, NameClaim,
  claim_matches, Observation,
}
use netgraspd.Base.Assoc.{lookup}
use netgraspd.Device.Entry.{Env, Entry, holds}
use netgraspd.Device.Manager.{
  Manager, holder_of, find_holder, sender_addresses, speaks_for_others, attribute_claim,
  attribute_claims, attribute,
}

-- Every piece of evidence that is not blank is somebody's, the sender's or another device's, or
-- counted as nobody's, and none is two of these.
abbrev spoken : List NameClaim → List NameClaim
spoken = keep_if (λ c. not (is_blank c.signal.value))

attribute_claims_total :
    (env : Env) (m : Manager) (mac : MacAddr) (sender : List IpAddr) (speaks : Bool)
    (cs : List NameClaim)
    → let out = attribute_claims env m mac sender speaks cs in
      length out.mine + length out.others + out.unattributed ≡ length (spoken cs)
unfolding attribute_claims attribute_claim
attribute_claims_total env m mac sender speaks [] = refl
attribute_claims_total env m mac sender speaks (c ∷ cs) =
    ground (arith, attribute_claims_total env m mac sender speaks cs)

-- Every piece of evidence of a frame that is not blank is counted once: as the sender's, as that
-- of another device, or as nobody's.
pub attribute_total :
    (env : Env) (m : Manager) (obs : Observation)
    → let out = attribute env m obs in
      length out.mine + length out.others + out.unattributed ≡ length (spoken obs.claims)
unfolding attribute
attribute_total env m obs =
    let sender = sender_addresses env m obs in
    attribute_claims_total env m obs.mac sender (speaks_for_others sender obs.claims) obs.claims

-- The entry shows the address as its current IPv4 or IPv6 one.
abbrev pub shows : Env → Option Entry → IpAddr → Bool
shows env none a = false
shows env (some e) a = (e.last_ip == some (env.show_ip a)) || (e.last_ipv6 == some (env.show_ip a))

-- The device's own entry in the table shows the address.
abbrev pub holds_now : Env → Manager → MacAddr → IpAddr → Bool
holds_now env m k a = shows env (lookup k m.devices) a

-- A claim that vouches for a signal of a device: it carries the signal, it names no address of the
-- sender, and one that the device holds now.
abbrev pub vouches : Env → Manager → List IpAddr → MacAddr → Signal → NameClaim → Bool
vouches env m sender k s c =
    (c.signal == s)
    && (not (any (λ a. contains sender a) c.addresses)
        && any (λ a. holds_now env m k a) c.addresses)

entry_holds :
    (env : Env) (m : Manager) (mac : MacAddr) (a : IpAddr) (k : MacAddr) (e : Entry)
    → lookup mac m.devices ≡ some e
    → (if holds env e a then some mac else none) ≡ some k
    → holds_now env m k a ≡ true
unfolding holds
entry_holds env m mac a k e entry held =
    let same : mac ≡ k = ground arith in rw (← same, entry) (ground arith)

holder_holds :
    (env : Env) (m : Manager) (a : IpAddr) (k : MacAddr)
    → holder_of env m a ≡ some k
    → holds_now env m k a ≡ true
unfolding holder_of holds
holder_holds env m a k h =
    let (mac, indexed, rest) =
      >>=-eq-some (lookup a m.addresses)
        (λ mac. lookup mac m.devices >>= λ e. if holds env e a then some mac else none) h in
    let (e, entry, held) =
      >>=-eq-some (lookup mac m.devices) (λ e. if holds env e a then some mac else none) rest in
    entry_holds env m mac a k e entry held

abbrev has_pair : List (MacAddr × Signal) → MacAddr → Signal → Bool
has_pair ps k s = any (λ p. (p.0 == k) && (p.1 == s)) ps

find_holder-any :
    (env : Env) (m : Manager) (as' : List IpAddr) (k : MacAddr)
    → find_holder env m as' ≡ some k
    → any (λ a. holds_now env m k a) as' ≡ true
unfolding find_holder
find_holder-any env m [] k h = absurd (ground arith)
find_holder-any env m (a ∷ as') k h = elim (Option-cases (holder_of env m a)) [
  | inl nobody ↦ ground (arith, find_holder-any env m as' k)
  | inr (j, held) ↦ ground (arith, holder_holds env m a k)
]

attribute_claims_others :
    (env : Env) (m : Manager) (mac : MacAddr) (sender : List IpAddr) (speaks : Bool)
    (cs : List NameClaim) (k : MacAddr) (s : Signal)
    → has_pair (attribute_claims env m mac sender speaks cs).others k s ≡ true
    → ((k == mac) ≡ false) × (any (vouches env m sender k s) cs ≡ true)
unfolding attribute_claims attribute_claim claim_matches
attribute_claims_others env m mac sender speaks [] k s h = absurd (ground arith)
attribute_claims_others env m mac sender speaks (c ∷ cs) k s h =
    elim (Option-cases (find_holder env m c.addresses)) [
      | inl nobody ↦ ground (arith, attribute_claims_others env m mac sender speaks cs k s)
      | inr (j, held) ↦ ground (
        arith,
        attribute_claims_others env m mac sender speaks cs k s,
        find_holder-any env m c.addresses k,
        mac_beq_iff j k,
        mac_beq_iff j mac,
        mac_beq_iff k mac,
      )
    ]

-- Evidence that is taken to be about another device is vouched for: some claim of the frame carries
-- it together with an address that the device, which is not the sender, shows in its entry now, and
-- names no address of the sender.
pub attribute_vouched :
    (env : Env) (m : Manager) (obs : Observation) (k : MacAddr) (s : Signal)
    → has_pair (attribute env m obs).others k s ≡ true
    → ((k == obs.mac) ≡ false)
      × (any (vouches env m (sender_addresses env m obs) k s) obs.claims ≡ true)
unfolding attribute
attribute_vouched env m obs k s h =
    let sender = sender_addresses env m obs in
    attribute_claims_others env m obs.mac sender (speaks_for_others sender obs.claims) obs.claims k
      s h

-- A claim that names an address of the sender, by its own list or by the index of holders.
abbrev pub own_claim : Env → Manager → MacAddr → List IpAddr → Signal → NameClaim → Bool
own_claim env m mac sender s c =
    (c.signal == s) && (claim_matches c sender || (find_holder env m c.addresses == some mac))

attribute_claims_mine :
    (env : Env) (m : Manager) (mac : MacAddr) (sender : List IpAddr) (cs : List NameClaim)
    (s : Signal)
    → contains (attribute_claims env m mac sender true cs).mine s ≡ true
    → any (own_claim env m mac sender s) cs ≡ true
unfolding attribute_claims attribute_claim
attribute_claims_mine env m mac sender [] s h = absurd (ground arith)
attribute_claims_mine env m mac sender (c ∷ cs) s h =
    ground (arith, attribute_claims_mine env m mac sender cs s, mac_beq_iff mac mac)

-- A frame that has shown that it speaks for another host names its sender only by address: where
-- some claim of it names addresses of which none is the sender's, each signal that is taken to be
-- the sender's comes from a claim that names an address of the sender.
pub attribute_proxy :
    (env : Env) (m : Manager) (obs : Observation) (s : Signal)
    → speaks_for_others (sender_addresses env m obs) obs.claims ≡ true
    → contains (attribute env m obs).mine s ≡ true
    → any (own_claim env m obs.mac (sender_addresses env m obs) s) obs.claims ≡ true
unfolding attribute
attribute_proxy env m obs s proxy h =
    attribute_claims_mine env m obs.mac (sender_addresses env m obs) obs.claims s (rw proxy at h)
