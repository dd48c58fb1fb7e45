-- ===== src/Analyze/Gateway/Trust.antt =====
-- src/analyze/gateway.rs: whom the tracker believes.
use netgraspd.Base.{
  ℕ, ◌≤◌, ◌<◌, ◌≡◌, refl, sym, ◌∙◌, Option, none, some, List, arith, subst, nat_eq, option_eq,
}
use netgraspd.Types.Mac.{MacAddr, mac_eq}
use netgraspd.Types.Observed.{Observation}
use netgraspd.Analyze.Gateway.Steps.{Preserved, observe_run}
use netgraspd.Analyze.Gateway.{
  GatewaySource, unknown, configured, dhcp, inferred, rank, GatewayTracker, new_tracker, set_ip,
  forget_mac, weigh_mac, set_mac, count_asker, record_asker, note_proxy_arp, observe_all,
}

-- A configured hardware address, and a configured address.
unfoldable PinnedMac : MacAddr → GatewayTracker → Type 0
PinnedMac m g = (g.mac ≡ some m) × (g.mac_source ≡ configured)

unfoldable PinnedIp : ℕ → GatewayTracker → Type 0
PinnedIp a g = (g.ip ≡ some a) × (g.ip_source ≡ configured)

set_ip-PinnedMac :
    (m : MacAddr) (a : ℕ) (s : GatewaySource) (g : GatewayTracker)
    → PinnedMac m g
    → PinnedMac m (set_ip a s g)
unfolding PinnedMac set_ip forget_mac
set_ip-PinnedMac m a s g h = ground arith

rank-le : (s : GatewaySource) → rank s ≤ 3
unfolding rank
rank-le unknown = omega arith
rank-le configured = omega arith
rank-le dhcp = omega arith
rank-le inferred = omega arith

weigh-PinnedMac :
    (m c : MacAddr) (s : GatewaySource) (g : GatewayTracker)
    → PinnedMac m g
    → weigh_mac g.mac c s g ≡ g
unfolding PinnedMac weigh_mac rank
weigh-PinnedMac m c s g h = rw (h.0, h.1) (ground (arith, rank-le s))

weigh_mac_ip :
    (k : Option MacAddr) (c : MacAddr) (s : GatewaySource) (g : GatewayTracker)
    → ((weigh_mac k c s g).ip ≡ g.ip) × ((weigh_mac k c s g).ip_source ≡ g.ip_source)
unfolding weigh_mac rank
weigh_mac_ip none c s g = ground arith
weigh_mac_ip (some k) c s g = ground arith

set_mac-PinnedMac :
    (m c : MacAddr) (s : GatewaySource) (g : GatewayTracker)
    → PinnedMac m g
    → PinnedMac m (set_mac c s g)
unfolding PinnedMac set_mac
set_mac-PinnedMac m c s g h = ground (arith, rank-le s, weigh-PinnedMac m c s g h)

set_ip-PinnedIp :
    (i a : ℕ) (s : GatewaySource) (g : GatewayTracker)
    → rank s < rank configured
    → PinnedIp i g
    → set_ip a s g ≡ g
unfolding PinnedIp set_ip rank
set_ip-PinnedIp i a s g l h = ground arith

pub set_mac_ip :
    (c : MacAddr) (s : GatewaySource) (g : GatewayTracker)
    → ((set_mac c s g).ip ≡ g.ip) × ((set_mac c s g).ip_source ≡ g.ip_source)
unfolding set_mac
set_mac_ip c s g = ground (arith, weigh_mac_ip g.mac c s g)

asker-PinnedMac :
    (m c : MacAddr) (a : ℕ) (g : GatewayTracker) → PinnedMac m g → PinnedMac m (record_asker a c g)
unfolding record_asker count_asker PinnedMac set_ip forget_mac
asker-PinnedMac m c a g h = ground arith

asker-PinnedIp :
    (i a : ℕ) (c : MacAddr) (g : GatewayTracker) → PinnedIp i g → PinnedIp i (record_asker a c g)
unfolding record_asker PinnedIp rank
asker-PinnedIp i a c g h = rw h.1 (ground arith)

proxy-PinnedMac :
    (m : MacAddr) (a : ℕ) (g : GatewayTracker) → PinnedMac m g → PinnedMac m (note_proxy_arp a g)
unfolding note_proxy_arp PinnedMac
proxy-PinnedMac m a g h = ground arith

proxy-PinnedIp : (i a : ℕ) (g : GatewayTracker) → PinnedIp i g → PinnedIp i (note_proxy_arp a g)
unfolding note_proxy_arp PinnedIp
proxy-PinnedIp i a g h = ground arith

set_mac-PinnedIp :
    (i : ℕ) (c : MacAddr) (s : GatewaySource) (g : GatewayTracker)
    → PinnedIp i g
    → PinnedIp i (set_mac c s g)
unfolding PinnedIp
set_mac-PinnedIp i c s g h = ((set_mac_ip c s g).0 ∙ h.0, (set_mac_ip c s g).1 ∙ h.1)

PinnedMac-Preserved : (m : MacAddr) → Preserved (PinnedMac m)
PinnedMac-Preserved m = record {
  router = λ a g h. set_ip-PinnedMac m a dhcp g h;
  asker = λ a c g h. asker-PinnedMac m c a g h;
  sender = λ c g h. set_mac-PinnedMac m c g.ip_source g h;
  proxy = λ a g h. proxy-PinnedMac m a g h;
}

PinnedIp-Preserved : (i : ℕ) → Preserved (PinnedIp i)
unfolding rank
PinnedIp-Preserved i = record {
  router = λ a g h. subst (PinnedIp i) (sym (set_ip-PinnedIp i a dhcp g (omega arith) h)) h;
  asker = λ a c g h. asker-PinnedIp i a c g h;
  sender = λ c g h. set_mac-PinnedIp i c g.ip_source g h;
  proxy = λ a g h. proxy-PinnedIp i a g h;
}

-- A configured gateway hardware address survives all traffic: whatever observations follow, whether
-- or not an address is configured too, the tracker still names that hardware address.
pub configured_mac_run :
    (ip : Option ℕ) (m : MacAddr) (obs : List Observation)
    → (observe_all obs (new_tracker ip (some m))).mac ≡ some m
unfolding PinnedMac new_tracker
configured_mac_run ip m obs =
    (observe_run (PinnedMac-Preserved m) obs (new_tracker ip (some m)) (refl, refl)).0

-- A configured gateway address survives all traffic: no DHCP answer and no number of ARP requests
-- for another address replaces it.
pub configured_ip_run :
    (a : ℕ) (mac : Option MacAddr) (obs : List Observation)
    → (observe_all obs (new_tracker (some a) mac)).ip ≡ some a
unfolding PinnedIp new_tracker
configured_ip_run a mac obs =
    (observe_run (PinnedIp-Preserved a) obs (new_tracker (some a) mac) (refl, refl)).0
