-- ===== src/Types/Observed.antt =====
-- src/types.rs: what a capture source saw. A timestamp is the number of nanoseconds since the
-- epoch, which no capture precedes.
use netgraspd.Base.{
  ℕ, ◌≡◌, ◌⊎◌, inl, inr, refl, Bool, List, [], ◌∷◌, ◌++◌, Option, none, some, String, Text,
}
use netgraspd.Types.Mac.{MacAddr}
use netgraspd.Types.Net.{IpAddr}
use netgraspd.Types.Evidence.{Signal, NameClaim}
use netgraspd.Types.Event.{DhcpMessageType}

pub data ObservationKind : Type 0 where
  request reply announcement query : ObservationKind

unfoldable pub observation_as_str : ObservationKind → String
observation_as_str request = "request"
observation_as_str reply = "reply"
observation_as_str announcement = "announcement"
observation_as_str query = "query"

pub data ArpOp : Type 0 where
  request reply : ArpOp

pub record ArpDetail : Type 0 where
  pub op : ArpOp
  pub sender_mac : MacAddr
  pub sender_ip : Option ℕ
  pub target_ip : ℕ
  pub gratuitous : Bool

pub record DhcpDetail : Type 0 where
  pub message_type : DhcpMessageType
  pub client_mac : Option MacAddr
  pub assigned_ip : Option ℕ
  pub router : Option ℕ

pub data ProtocolDetail : Type 0 where
  arp : ArpDetail → ProtocolDetail
  dhcp : DhcpDetail → ProtocolDetail

pub record Observation : Type 0 where
  pub mac : MacAddr
  pub ip : Option IpAddr
  pub interface : Text
  pub source : String
  pub kind : ObservationKind
  pub signals : List Signal
  pub claims : List NameClaim
  pub detail : Option ProtocolDetail
  pub observed_at : ℕ

-- `Observation::new`
unfoldable pub new_observation :
    MacAddr → Option IpAddr → Text → String → ObservationKind → ℕ → Observation
new_observation mac ip interface source kind observed_at = record {
  mac = mac;
  ip = ip;
  interface = interface;
  source = source;
  kind = kind;
  signals = [];
  claims = [];
  detail = none;
  observed_at = observed_at;
}

unfoldable pub with_signal : Observation → Signal → Observation
with_signal o s = record o { signals = o.signals ++ (s ∷ []) }

unfoldable pub with_claim : Observation → NameClaim → Observation
with_claim o c = record o { claims = o.claims ++ (c ∷ []) }

unfoldable pub with_detail : Observation → ProtocolDetail → Observation
with_detail o d = record o { detail = some d }

as_arp : Option ProtocolDetail → Option ArpDetail
as_arp (some (arp d)) = some d
as_arp _ = none

as_dhcp : Option ProtocolDetail → Option DhcpDetail
as_dhcp (some (dhcp d)) = some d
as_dhcp _ = none

-- `Observation::arp` and `Observation::dhcp`
unfoldable pub arp_detail : Observation → Option ArpDetail
unfolding as_arp
arp_detail o = as_arp o.detail

unfoldable pub dhcp_detail : Observation → Option DhcpDetail
unfolding as_dhcp
dhcp_detail o = as_dhcp o.detail

detail_apart : (d : Option ProtocolDetail) → (as_arp d ≡ none) ⊎ (as_dhcp d ≡ none)
unfolding as_arp as_dhcp
detail_apart none = inl refl
detail_apart (some (arp d)) = inr refl
detail_apart (some (dhcp d)) = inl refl

-- One observation has one protocol's detail.
pub one_detail : (o : Observation) → (arp_detail o ≡ none) ⊎ (dhcp_detail o ≡ none)
unfolding arp_detail dhcp_detail
one_detail o = detail_apart o.detail
