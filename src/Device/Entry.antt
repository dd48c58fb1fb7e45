-- ===== src/Device/Entry.antt =====
-- src/device/mod.rs: one device's in-memory state. `Env` is what the state machine takes from
-- elsewhere: the classifier, the vendor registry, and the standard library's text of an address.
pub mod Signals
pub mod Settle
use netgraspd.Base.{
  ℕ, zero, suc, ◌+◌, ◌-◌, ◌*◌, ◌/◌, ◌^◌, ◌≡◌, Bool, true, false, ◌&&◌, not, List, [], ◌∷◌, ◌++◌,
  Option, none, some, Text, ◌==◌, list_eq, nat_eq, option_eq, reverse, contains, eqb, leb, min,
  if◌then◌else◌, is_some, is_none, ◌>>=◌,
}
use netgraspd.Time.{second}
use netgraspd.Types.{
  MacAddr, IpAddr, v4, v6, is_link_local, Signal, SignalKind, vendor, reverse_dns, mdns_name,
  kind_eq, signal_eq, is_blank,
}
use netgraspd.Types.Event.{DeviceState, is_offline}
use netgraspd.Identity.Scorer.{
  Identity, IdentityInput, resolve, compare, same, better, rival, worse, settled,
}
use netgraspd.Identity.Classification.{
  Classification, ClassifyInput, changed_at_all, always_on_hours,
}
use netgraspd.Device.Effect.{DeviceSnapshot}

pub record Env : Type 0 where
  pub classify : ClassifyInput → Classification
  pub vendor_signal : MacAddr → Option Signal
  pub show_ip : IpAddr → Text
  pub parse_ip : Text → Option IpAddr
  -- Reading the text of an address gives the address.
  pub parse-show : (a : IpAddr) → parse_ip (show_ip a) ≡ some a

pub record Entry : Type 0 where
  pub mac : MacAddr
  pub state : DeviceState
  pub first_seen_at : ℕ
  pub last_seen_at : ℕ
  pub last_ip : Option Text
  pub last_ipv6 : Option Text
  pub last_interface : Option Text
  pub signals : List Signal
  pub identity : Identity
  pub pending_identity : Option (Identity × ℕ)
  pub classification : Classification
  pub display_name : Option Text
  pub current_ap : Option Text
  pub current_location : Option Text
  pub baseline : Bool
  pub notify : Bool
  pub offline_transitions : ℕ
  pub observations_since_flush : ℕ
  pub dirty : Bool

best_of : SignalKind → List Signal → Option Text
best_of k [] = none
best_of k (s ∷ ss) =
    let rest = best_of k ss in
    if (s.kind == k) && not (is_blank s.value) then some s.value else rest

-- `Entry::best`
unfoldable pub best : Entry → SignalKind → Option Text
unfolding best_of
best e k = best_of k e.signals

-- `Entry::snapshot`
unfoldable pub snapshot : Entry → DeviceSnapshot
snapshot e = record {
  mac = e.mac;
  state = e.state;
  last_ip = e.last_ip;
  last_ipv6 = e.last_ipv6;
  last_interface = e.last_interface;
  first_seen_at = e.first_seen_at;
  last_seen_at = e.last_seen_at;
  baseline = e.baseline;
  identity = e.identity;
  display_name = e.display_name;
  hostname = best e reverse_dns;
  mdns_name = best e mdns_name;
  vendor = best e vendor;
  device_type = e.classification.device_type;
  device_type_confidence =
      if is_some e.classification.device_type then some e.classification.confidence else none;
  os_family = e.classification.os_family;
  current_ap = e.current_ap;
  current_location = e.current_location;
  observations_since_flush = e.observations_since_flush;
}

-- An hour, in the unit of timestamps.
abbrev hour : ℕ
hour = 3600 * second

-- `Entry::always_on`
unfoldable pub always_on : Entry → ℕ → Bool
always_on e now =
    eqb e.offline_transitions 0
    && (not (is_offline e.state) && leb always_on_hours ((now - e.first_seen_at) / hour))

-- The loop of `Entry::record_signals`: what is left of the old list, the batch, and whether any
-- of it is new.
pub record Batch : Type 0 where
  pub left : List Signal
  pub batch : List Signal
  pub any_new : Bool

unfoldable pub remove_first : Signal → List Signal → List Signal
remove_first s [] = []
remove_first s (x ∷ xs) = if x == s then xs else x ∷ remove_first s xs

unfoldable pub take_signal : Signal → Batch → Batch
take_signal s b =
    if contains b.batch s
    then b
    else if contains b.left s
    then record b { left = remove_first s b.left; batch = b.batch ++ (s ∷ []) }
    else record b { batch = b.batch ++ (s ∷ []); any_new = true }

unfoldable pub take_signals : List Signal → Batch → Batch
take_signals [] b = b
take_signals (s ∷ ss) b = take_signals ss (take_signal s b)

-- Each of them in turn inserted at the front.
unfoldable pub insert_each : List Signal → List Signal → List Signal
insert_each [] signals = signals
insert_each (s ∷ ss) signals = insert_each ss (s ∷ signals)

-- `Entry::record_signals`, on the entry's list.
unfoldable pub record_list : List Signal → List Signal → List Signal × Bool
unfolding insert_each
record_list signals incoming =
    let b = take_signals incoming (record { left = signals; batch = []; any_new = false }) in
    (insert_each (reverse b.batch) b.left, b.any_new)

unfoldable pub record_signals : Entry → List Signal → Entry × Bool
record_signals e incoming =
    let (signals, any_new) = record_list e.signals incoming in
    (record e { signals = signals }, any_new)

-- The start of the candidate's unbroken run.
unfoldable pub run_start : Option (Identity × ℕ) → Identity → ℕ → ℕ
run_start none candidate now = now
run_start (some (pending, since)) candidate now =
    if pending.display_name == candidate.display_name then since else now

-- `Entry::rescore` once the scorer has picked its candidate.
unfoldable pub adopt : Entry → Identity → ℕ → Entry × Option Identity
unfolding run_start
adopt e candidate now = elim (compare candidate e.identity) [
  | worse ↦ (record e { pending_identity = none }, none)
  | same ↦ (record e { pending_identity = none }, none)
  | better ↦ (record e { pending_identity = none; identity = candidate }, some e.identity)
  | rival ↦
      let since = run_start e.pending_identity candidate now in
      if settled since now
      then (record e { pending_identity = none; identity = candidate }, some e.identity)
      else (record e { pending_identity = some (candidate, since) }, none)
]

unfoldable pub candidate_of : Entry → Identity
candidate_of e =
    resolve
      (record { mac = e.mac; signals = e.signals; device_type = e.classification.device_type })

unfoldable pub rescore : Entry → ℕ → Entry × Option Identity
rescore e now = adopt e (candidate_of e) now

module _ (env : Env) where
  as_v6 : Option IpAddr → Option ℕ
  as_v6 (some (v6 a)) = some a
  as_v6 _ = none

  -- True when the current IPv6 address is a global one.
  holds_global : Option Text → Bool
  unfolding as_v6
  holds_global none = false
  holds_global (some t) = elim (as_v6 (env.parse_ip t)) [
    | none ↦ false
    | some a ↦ not (is_link_local a)
  ]

  unfoldable pub record_ipv6 : Entry → ℕ → Entry
  unfolding holds_global
  record_ipv6 e addr =
      if is_link_local addr && holds_global e.last_ipv6
      then e
      else record e { last_ipv6 = some (env.show_ip (v6 addr)) }

  -- `Entry::reclassify`: the previous classification where the conclusion changed.
  unfoldable pub reclassify : Entry → ℕ → Entry × Option Classification
  reclassify e now =
      let candidate = env.classify (record {
        mac = e.mac;
        signals = e.signals;
        vendor = best e vendor;
        always_on = always_on e now;
      }) in
      (
        record e { classification = candidate },
        if changed_at_all candidate e.classification then some e.classification else none,
      )

  -- `Entry::holds`
  unfoldable pub holds : Entry → IpAddr → Bool
  holds e a =
      let text = some (env.show_ip a) in if e.last_ip == text then true else e.last_ipv6 == text

  parsed : Option Text → List IpAddr → List IpAddr
  parsed none rest = rest
  parsed (some t) rest = elim (env.parse_ip t) [ none ↦ rest | some a ↦ a ∷ rest ]

  -- `Entry::current_addresses`
  unfoldable pub current_addresses : Entry → List IpAddr
  unfolding parsed
  current_addresses e = parsed e.last_ip (parsed e.last_ipv6 [])
