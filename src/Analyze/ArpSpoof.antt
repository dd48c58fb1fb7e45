-- ===== src/Analyze/ArpSpoof.antt =====
-- src/analyze/arp_spoof.rs: a device that claims the address of another. `render` is the JSON text
-- of an alert's details and `show` the standard library's text of an address.
pub mod Claims
use netgraspd.Base.{
  ℕ, ◌-◌, ◌*◌, ◌/◌, Bool, true, false, ◌&&◌, ◌||◌, not, Option, none, some, List, [], ◌∷◌, Text,
  if◌then◌else◌, ◌==◌, nat_eq, ◌>>=◌, is_some,
}
use netgraspd.Base.Assoc.{lookup}
use netgraspd.Time.{second, elapsed, less_than}
use netgraspd.Types.Mac.{MacAddr, mac_eq}
use netgraspd.Types.Net.{IpAddr, v4, v4_unspecified, v4_broadcast, v4_multicast}
use netgraspd.Types.Event.{arp_spoof}
use netgraspd.Types.Observed.{Observation, ArpDetail, arp_detail}
use netgraspd.Device.Manager.Feeds.{SecurityAlert}
use netgraspd.Analyze.Gateway.{is_gateway, is_gateway_ip, proxy_arp_for}
use netgraspd.Analyze.Window.{BoundedMap, new_map, insert_at}
use netgraspd.Analyze.Detector.{Context, new_alert, with_ip, with_interface, cooled_down}

abbrev pub spoof_cooldown : ℕ
spoof_cooldown = 300 * second

pub record Holder : Type 0 where
  pub mac : MacAddr
  pub last_claim : ℕ
  pub last_alert : Option ℕ

pub record ArpSpoof : Type 0 where
  pub grace_period : ℕ
  pub holders : BoundedMap ℕ Holder

-- `ArpSpoof::new`, of the configured grace period.
unfoldable pub new_spoof : ℕ → ℕ → ArpSpoof
new_spoof grace_period max_tracked = record {
  grace_period = grace_period;
  holders = new_map max_tracked;
}

pub record SpoofDetails : Type 0 where
  pub claimed_ip : ℕ
  pub previous_holder : Option MacAddr
  pub previous_holder_silent_secs : Option ℕ
  pub grace_period_secs : ℕ
  pub gateway_impersonation : Bool
  pub forged_sender : Bool
  pub arp_sender_mac : MacAddr

-- `self.holders.get(&claimed)`
unfoldable pub holder_at : ℕ → ArpSpoof → Option Holder
holder_at claimed a = lookup claimed a.holders.entries >>= λ e. some e.0

unless_same : MacAddr → Option Holder → Option (MacAddr × ℕ)
unless_same m none = none
unless_same m (some h) = if h.mac == m then none else some (h.mac, h.last_claim)

-- `held_by_someone_else`
unfoldable pub held_by_other : MacAddr → Option Holder → Option (MacAddr × ℕ)
unfolding unless_same
held_by_other m h = unless_same m h

abbrev active_since : Option (MacAddr × ℕ) → ℕ → ℕ → Bool
active_since none now grace = false
active_since (some (m, last)) now grace = less_than (elapsed last now) grace

unfoldable pub still_active : MacAddr → ℕ → Option Holder → ArpSpoof → Bool
still_active m now h a = active_since (held_by_other m h) now a.grace_period

unfoldable pub impersonates : Context → MacAddr → ℕ → Bool
impersonates c m claimed = is_gateway_ip c.gateway claimed && not (is_gateway c.gateway m)

abbrev or_alert : Bool → ℕ → Option ℕ → Option ℕ
or_alert true now existing = some now
or_alert false now existing = existing

module _ (show : IpAddr → Text) (render : SpoofDetails → Text) where
  unfoldable pub spoof_alert :
      Context → Observation → ArpDetail → ℕ → Option Holder → ArpSpoof → SecurityAlert
  spoof_alert c o d claimed h a =
      let other = held_by_other o.mac h in
      with_interface
        (with_ip
          (new_alert arp_spoof o.mac o.observed_at c.priority (
            render (record {
              claimed_ip = claimed;
              previous_holder = other >>= λ p. some p.0;
              previous_holder_silent_secs = other >>= λ p. some ((o.observed_at - p.1) / second);
              grace_period_secs = a.grace_period / second;
              gateway_impersonation = impersonates c o.mac claimed;
              forged_sender = not (d.sender_mac == o.mac);
              arp_sender_mac = d.sender_mac;
            })))
          (show (v4 claimed)))
        o.interface

  unfoldable pub claim :
      Context → Observation → ArpDetail → ℕ → ArpSpoof → ArpSpoof × List SecurityAlert
  claim c o d claimed a =
      let h : Option Holder = holder_at claimed a in
      let existing : Option ℕ = h >>= λ x. x.last_alert in
      let fires : Bool =
        (impersonates c o.mac claimed || still_active o.mac o.observed_at h a)
        && cooled_down existing o.observed_at spoof_cooldown in
      (
        record a {
          holders =
              insert_at claimed
                (record {
                  mac = o.mac;
                  last_claim = o.observed_at;
                  last_alert = or_alert fires o.observed_at existing;
                })
                o.observed_at a.holders;
        },
        if fires then spoof_alert c o d claimed h a ∷ [] else [],
      )

  claim_at : Context → Observation → ArpDetail → Option ℕ → ArpSpoof → ArpSpoof × List SecurityAlert
  unfolding claim
  claim_at c o d none a = (a, [])
  claim_at c o d (some claimed) a =
      if v4_unspecified claimed || (v4_broadcast claimed || v4_multicast claimed)
      then (a, [])
      else if is_some (proxy_arp_for c.gateway o)
      then (a, [])
      else claim c o d claimed a

  spoof_detail : Context → Observation → Option ArpDetail → ArpSpoof → ArpSpoof × List SecurityAlert
  unfolding claim_at
  spoof_detail c o none a = (a, [])
  spoof_detail c o (some d) a = claim_at c o d d.sender_ip a

  -- `ArpSpoof::analyze`, on an observation.
  unfoldable pub spoof : Context → Observation → ArpSpoof → ArpSpoof × List SecurityAlert
  unfolding spoof_detail claim_at
  spoof c o a = spoof_detail c o (arp_detail o) a
