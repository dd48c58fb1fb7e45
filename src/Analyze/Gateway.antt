-- ===== src/Analyze/Gateway.antt =====
-- src/analyze/gateway.rs: what is known of the network's gateway, learned from configuration,
-- DHCP and traffic. `askers` is a hash map and `proxied` a set, in the order of insertion, which
-- nothing here reads. The log lines are not modelled.
use netgraspd.Base.{
  ℕ, ◌≤◌, Bool, true, false, ◌&&◌, ◌||◌, not, Option, none, some, List, [], ◌∷◌, ◌++◌, String, ltb,
  leb, length, contains, if◌then◌else◌, is_some, ◌==◌, nat_eq, option_eq,
}
use netgraspd.Base.Assoc.{lookup, insert, contains_key}
use netgraspd.Types.Mac.{MacAddr, mac_eq}
use netgraspd.Types.Net.{IpAddr, v4, v6, v4_unspecified, v4_broadcast, v4_multicast}
use netgraspd.Types.Observed.{
  Observation, ArpOp, request, reply, ArpDetail, DhcpDetail, arp_detail, dhcp_detail,
}
pub mod Steps
pub mod Trust
pub mod Bounds
pub mod Replace

pub data GatewaySource : Type 0 where
  unknown configured dhcp inferred : GatewaySource

unfoldable pub source_as_str : GatewaySource → String
source_as_str unknown = "unknown"
source_as_str configured = "configured"
source_as_str dhcp = "dhcp"
source_as_str inferred = "inferred"

unfoldable pub rank : GatewaySource → ℕ
rank unknown = 0
rank inferred = 1
rank dhcp = 2
rank configured = 3

abbrev pub inference_quorum : ℕ
inference_quorum = 3

abbrev pub max_candidates : ℕ
max_candidates = 512

abbrev pub max_proxied : ℕ
max_proxied = 256

pub record GatewayTracker : Type 0 where
  pub ip : Option ℕ
  pub ip_source : GatewaySource
  pub mac : Option MacAddr
  pub mac_source : GatewaySource
  pub askers : List (ℕ × List MacAddr)
  pub proxy_arp : Bool
  pub proxied : List ℕ

unfoldable pub new_tracker : Option ℕ → Option MacAddr → GatewayTracker
new_tracker ip mac = record {
  ip = ip;
  ip_source = if is_some ip then configured else unknown;
  mac = mac;
  mac_source = if is_some mac then configured else unknown;
  askers = [];
  proxy_arp = true;
  proxied = [];
}

unfoldable pub with_proxy_arp : Bool → GatewayTracker → GatewayTracker
with_proxy_arp b g = record g { proxy_arp = b }

unfoldable pub is_gateway : GatewayTracker → MacAddr → Bool
is_gateway g m = g.mac == some m

unfoldable pub is_gateway_ip : GatewayTracker → ℕ → Bool
is_gateway_ip g a = g.ip == some a

abbrev pub is_reply : ArpOp → Bool
is_reply reply = true
is_reply request = false

abbrev is_unknown : GatewaySource → Bool
is_unknown unknown = true
is_unknown _ = false

abbrev is_configured : GatewaySource → Bool
is_configured configured = true
is_configured _ = false

unless_gateway_ip : GatewayTracker → Option ℕ → Option ℕ
unfolding is_gateway_ip
unless_gateway_ip g none = none
unless_gateway_ip g (some claimed) = if is_gateway_ip g claimed then none else some claimed

proxied_claim : GatewayTracker → MacAddr → Option ArpDetail → Option ℕ
unfolding is_gateway unless_gateway_ip
proxied_claim g m none = none
proxied_claim g m (some a) =
    if is_reply a.op && is_gateway g m then unless_gateway_ip g a.sender_ip else none

-- `GatewayTracker::proxy_arp_for`
unfoldable pub proxy_arp_for : GatewayTracker → Observation → Option ℕ
unfolding proxied_claim arp_detail
proxy_arp_for g o = if g.proxy_arp then proxied_claim g o.mac (arp_detail o) else none

unfoldable pub note_proxy_arp : ℕ → GatewayTracker → GatewayTracker
note_proxy_arp a g =
    if contains g.proxied a || leb max_proxied (length g.proxied)
    then g
    else record g { proxied = g.proxied ++ (a ∷ []) }

-- The hardware address belonged to the old address, unless it is configured.
unfoldable pub forget_mac : GatewayTracker → GatewayTracker
forget_mac g =
    if is_configured g.mac_source then g else record g { mac = none; mac_source = unknown }

unfoldable pub set_ip : ℕ → GatewaySource → GatewayTracker → GatewayTracker
unfolding rank forget_mac
set_ip a source g =
    let held : GatewayTracker = if g.ip == some a then g else forget_mac g in
    if ltb (rank source) (rank g.ip_source)
    then g
    else record held { ip = some a; ip_source = source; askers = [] }

unfoldable pub weigh_mac :
    Option MacAddr → MacAddr → GatewaySource → GatewayTracker → GatewayTracker
unfolding rank
weigh_mac (some known) m source g =
    if ltb (rank g.mac_source) (rank source)
    then (if known == m
        then record g { mac_source = source }
        else record g { mac = some m; mac_source = source })
    else g
weigh_mac none m source g =
    if leb (rank g.mac_source) (rank source)
    then record g { mac = some m; mac_source = source }
    else g

unfoldable pub set_mac : MacAddr → GatewaySource → GatewayTracker → GatewayTracker
unfolding weigh_mac
set_mac m source g = if is_unknown source then g else weigh_mac g.mac m source g

abbrev pub or_default : Option (List MacAddr) → List MacAddr
or_default none = []
or_default (some ms) = ms

abbrev pub push_new : MacAddr → List MacAddr → List MacAddr
push_new m ms = if contains ms m then ms else ms ++ (m ∷ [])

unfoldable pub count_asker : ℕ → MacAddr → GatewayTracker → GatewayTracker
unfolding set_ip
count_asker target asker g =
    let ms : List MacAddr = push_new asker (or_default (lookup target g.askers)) in
    let counted : GatewayTracker = record g { askers = insert target ms g.askers } in
    if leb inference_quorum (length ms) then set_ip target inferred counted else counted

unfoldable pub record_asker : ℕ → MacAddr → GatewayTracker → GatewayTracker
unfolding count_asker rank v4_unspecified v4_broadcast v4_multicast
record_asker target asker g =
    if v4_unspecified target || (v4_broadcast target || v4_multicast target)
    then g
    else if ltb (rank inferred) (rank g.ip_source)
    then g
    else if not (contains_key target g.askers) && leb max_candidates (length g.askers)
    then g
    else count_asker target asker g

-- The four parts of `GatewayTracker::observe`, in order.
unfoldable pub hear_router : Option ℕ → GatewayTracker → GatewayTracker
unfolding set_ip
hear_router none g = g
hear_router (some router) g = set_ip router dhcp g

unfoldable pub hear_dhcp : Option DhcpDetail → GatewayTracker → GatewayTracker
unfolding hear_router
hear_dhcp none g = g
hear_dhcp (some d) g = hear_router d.router g

-- Traffic from the gateway's address, or an answer for it.
unfoldable pub hear_sender : Option ℕ → MacAddr → GatewayTracker → GatewayTracker
unfolding set_mac
hear_sender none m g = g
hear_sender (some a) m g = if g.ip == some a then set_mac m g.ip_source g else g

unfoldable pub hear_arp : Option ArpDetail → MacAddr → GatewayTracker → GatewayTracker
unfolding hear_sender record_asker
hear_arp none m g = g
hear_arp (some a) m g =
    if is_reply a.op
    then hear_sender a.sender_ip m g
    else if a.gratuitous
    then g
    else record_asker a.target_ip m g

abbrev pub v4_of : Option IpAddr → Option ℕ
v4_of (some (v4 a)) = some a
v4_of _ = none

unfoldable pub hear_proxy : Option ℕ → GatewayTracker → GatewayTracker
unfolding note_proxy_arp
hear_proxy none g = g
hear_proxy (some a) g = note_proxy_arp a g

unfoldable pub observe_gateway : Observation → GatewayTracker → GatewayTracker
unfolding hear_dhcp hear_arp hear_sender hear_proxy proxy_arp_for dhcp_detail arp_detail
observe_gateway o g =
    let g1 : GatewayTracker = hear_dhcp (dhcp_detail o) g in
    let g2 : GatewayTracker = hear_arp (arp_detail o) o.mac g1 in
    let g3 : GatewayTracker = hear_sender (v4_of o.ip) o.mac g2 in
    hear_proxy (proxy_arp_for g3 o) g3

-- A run over the traffic.
unfoldable pub observe_all : List Observation → GatewayTracker → GatewayTracker
unfolding observe_gateway
observe_all [] g = g
observe_all (o ∷ obs) g = observe_all obs (observe_gateway o g)
