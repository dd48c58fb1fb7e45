-- ===== src/Device/Manager.antt =====
-- src/device/mod.rs: the device table and the transitions over it. A method returns the new table
-- and the effects in their order. Counters are unbounded numbers.
pub mod Observe
pub mod Sweep
pub mod Feeds
pub mod Restore
use netgraspd.Base.{
  ℕ, zero, suc, ◌+◌, Bool, true, false, ◌&&◌, ◌||◌, not, List, [], ◌∷◌, ◌++◌, Option, none, some,
  Text, String, ◌==◌, list_eq, nat_eq, contains, any, if◌then◌else◌, is_some, ◌>>=◌, length, map,
}
use netgraspd.Base.Assoc.{lookup, insert, contains_key}
use netgraspd.Types.{
  MacAddr, mac_eq, IpAddr, v4, v6, ip_eq, is_recordable, v4_unspecified, v4_multicast, Signal,
  SignalKind, vendor, is_blank, NameClaim, claim_matches, Observation,
}
use netgraspd.Types.Event.{DeviceState, online, idle, offline, EventType, EventPriority, normal}
use netgraspd.Identity.Classification.{Classification}
use netgraspd.Config.Timeouts.{StateConfig}
use netgraspd.Device.Effect.{Details, DeviceEvent, display}
use netgraspd.Device.Entry.{Env, Entry, snapshot, best, holds, current_addresses}

pub record Reclassification : Type 0 where
  pub mac : MacAddr
  pub display_name : Text
  pub previous : Classification
  pub current : Classification
  pub interface : Option Text
  pub at : ℕ

pub record Attributed : Type 0 where
  pub mine : List Signal
  pub others : List (MacAddr × Signal)
  pub unattributed : ℕ

pub record Manager : Type 0 where
  pub devices : List (MacAddr × Entry)
  pub addresses : List (IpAddr × MacAddr)
  pub config : StateConfig
  pub learning : Bool
  pub reclassifications : List Reclassification
  pub unattributed_claims : ℕ

-- `Manager::new`
unfoldable pub new_manager : StateConfig → Bool → Manager
new_manager config learning = record {
  devices = [];
  addresses = [];
  config = config;
  learning = learning;
  reclassifications = [];
  unattributed_claims = 0;
}

unfoldable pub end_learning : Manager → Manager
end_learning m = record m { learning = false }

unfoldable pub take_reclassifications : Manager → Manager × List Reclassification
take_reclassifications m = (record m { reclassifications = [] }, m.reclassifications)

count_states : List (MacAddr × Entry) → ℕ × ℕ × ℕ
count_states [] = (0, 0, 0)
count_states ((k, e) ∷ rest) =
    let (a, b, c) = count_states rest in
    elim e.state [ online ↦ (suc a, b, c) | idle ↦ (a, suc b, c) | offline ↦ (a, b, suc c) ]

unfoldable pub state_counts : Manager → ℕ × ℕ × ℕ
unfolding count_states
state_counts m = count_states m.devices

unfoldable pub state_of : Manager → MacAddr → Option (DeviceState × ℕ)
state_of m mac = lookup mac m.devices >>= λ e. some (e.state, e.last_seen_at)

-- The fields that every event of a device takes from its entry.
unfoldable pub entry_event :
    EventType → Entry → Bool → Option Text → Option Text → ℕ → Details → DeviceEvent
entry_event event_type e learning ip interface at details = record {
  event_type = event_type;
  mac = e.mac;
  display_name = display (snapshot e);
  vendor = best e vendor;
  ip = ip;
  interface = interface;
  at = at;
  baseline = e.baseline;
  during_learning = learning;
  notify = e.notify;
  priority = normal;
  details = details;
}

add_sender : Option IpAddr → List IpAddr → List IpAddr
add_sender none sender = sender
add_sender (some ip) sender = if contains sender ip then sender else sender ++ (ip ∷ [])

abbrev pub is_nil : List IpAddr → Bool
is_nil [] = true
is_nil (a ∷ r) = false

unfoldable pub speaks_for_others : List IpAddr → List NameClaim → Bool
speaks_for_others sender claims =
    any (λ c. not (is_nil c.addresses) && not (claim_matches c sender)) claims

abbrev pub attribute_other : MacAddr → Signal → Option MacAddr → Attributed → Attributed
attribute_other mac s none rest = record rest { unattributed = suc rest.unattributed }
attribute_other mac s (some h) rest =
    if h == mac
    then record rest { mine = s ∷ rest.mine }
    else record rest { others = (h, s) ∷ rest.others }

module _ (env : Env) where
  -- `ipv4_string`
  unfoldable pub ipv4_string : Option IpAddr → Option Text
  ipv4_string none = none
  ipv4_string (some (v4 a)) =
      if not (v4_unspecified a) && not (v4_multicast a) then some (env.show_ip (v4 a)) else none
  ipv4_string (some (v6 a)) = none

  -- `Manager::holder_of`
  unfoldable pub holder_of : Manager → IpAddr → Option MacAddr
  holder_of m a = do
    mac ← lookup a m.addresses
    entry ← lookup mac m.devices
    if holds env entry a then some mac else none

  unfoldable pub find_holder : Manager → List IpAddr → Option MacAddr
  unfolding holder_of
  find_holder m [] = none
  find_holder m (a ∷ as') =
      let rest = find_holder m as' in elim (holder_of m a) [ some h ↦ some h | none ↦ rest ]

  -- The addresses that count as the sender's.
  unfoldable pub sender_addresses : Manager → Observation → List IpAddr
  unfolding add_sender
  sender_addresses m obs =
      add_sender obs.ip
        (elim (lookup obs.mac m.devices) [ none ↦ [] | some e ↦ current_addresses env e ])

  -- One round of the loop of `Manager::attribute`, put in front of the rounds that follow it.
  unfoldable pub attribute_claim :
      Manager → MacAddr → List IpAddr → Bool → NameClaim → Attributed → Attributed
  unfolding find_holder
  attribute_claim m mac sender speaks c rest =
      if is_blank c.signal.value
      then rest
      else if is_nil c.addresses
      then (if speaks
          then record rest { unattributed = suc rest.unattributed }
          else record rest { mine = c.signal ∷ rest.mine })
      else if claim_matches c sender
      then record rest { mine = c.signal ∷ rest.mine }
      else attribute_other mac c.signal (find_holder m c.addresses) rest

  unfoldable pub attribute_claims :
      Manager → MacAddr → List IpAddr → Bool → List NameClaim → Attributed
  unfolding attribute_claim
  attribute_claims m mac sender speaks [] = record { mine = []; others = []; unattributed = 0 }
  attribute_claims m mac sender speaks (c ∷ cs) =
      attribute_claim m mac sender speaks c (attribute_claims m mac sender speaks cs)

  -- `Manager::attribute`
  unfoldable pub attribute : Manager → Observation → Attributed
  unfolding attribute_claims
  attribute m obs =
      let sender = sender_addresses m obs in
      attribute_claims m obs.mac sender (speaks_for_others sender obs.claims) obs.claims
