-- ===== src/Analyze/Gateway/Bounds.antt =====
-- src/analyze/gateway.rs: what the tracker holds at most.
use netgraspd.Base.{
  ℕ, ◌≤◌, ◌<◌, ◌≡◌, false, Option, none, some, List, [], ◌∷◌, length, arith, nat_eq, option_eq,
  length-append,
}
use netgraspd.Base.Assoc.{lookup, insert, contains_key, Distinct, insert-Distinct, length-insert}
use netgraspd.Types.Mac.{MacAddr, mac_eq}
use netgraspd.Types.Observed.{Observation}
use netgraspd.Analyze.Gateway.{
  GatewaySource, dhcp, inferred, rank, GatewayTracker, new_tracker, set_ip, forget_mac, weigh_mac,
  set_mac, count_asker, record_asker, note_proxy_arp, observe_all, push_new, or_default,
  inference_quorum, max_candidates, max_proxied,
}
use netgraspd.Analyze.Gateway.Steps.{Preserved, observe_run}

-- No candidate has a quorum, which would have made it the gateway.
unfoldable pub BelowQuorum : List (ℕ × List MacAddr) → Type 0
BelowQuorum [] = Unit
BelowQuorum ((a, ms) ∷ m) = (length ms < inference_quorum) × BelowQuorum m

unfoldable pub Bounded : GatewayTracker → Type 0
unfolding BelowQuorum
Bounded g =
    (Distinct g.askers × BelowQuorum g.askers)
    × ((length g.askers ≤ max_candidates) × (length g.proxied ≤ max_proxied))

insert-BelowQuorum :
    (a : ℕ) (ms : List MacAddr) (m : List (ℕ × List MacAddr))
    → length ms < inference_quorum
    → BelowQuorum m
    → BelowQuorum (insert a ms m)
unfolding BelowQuorum insert
insert-BelowQuorum a ms [] l h = (l, tt)
insert-BelowQuorum a ms ((b, ns) ∷ m) l h = ground (arith, insert-BelowQuorum a ms m l h.1)

set_ip-Bounded :
    (a : ℕ) (s : GatewaySource) (g : GatewayTracker) → Bounded g → Bounded (set_ip a s g)
unfolding Bounded set_ip forget_mac Distinct BelowQuorum
set_ip-Bounded a s g h = ground arith

-- A stronger or equal source empties the candidates.
set_ip-clears :
    (a : ℕ) (g : GatewayTracker)
    → rank g.ip_source ≤ 1
    → ((set_ip a inferred g).askers ≡ []) × ((set_ip a inferred g).proxied ≡ g.proxied)
unfolding set_ip forget_mac rank
set_ip-clears a g l = ground arith

weigh_mac_rest :
    (k : Option MacAddr) (c : MacAddr) (s : GatewaySource) (g : GatewayTracker)
    → ((weigh_mac k c s g).askers ≡ g.askers) × ((weigh_mac k c s g).proxied ≡ g.proxied)
unfolding weigh_mac rank
weigh_mac_rest none c s g = ground arith
weigh_mac_rest (some k) c s g = ground arith

Bounded-same :
    (g h : GatewayTracker) → h.askers ≡ g.askers → h.proxied ≡ g.proxied → Bounded g → Bounded h
unfolding Bounded
Bounded-same g h e p b = rw (e, p) b

set_mac-Bounded :
    (c : MacAddr) (s : GatewaySource) (g : GatewayTracker) → Bounded g → Bounded (set_mac c s g)
unfolding set_mac
set_mac-Bounded c s g h = ground (
  arith,
  Bounded-same g (weigh_mac g.mac c s g) (weigh_mac_rest g.mac c s g).0
      (weigh_mac_rest g.mac c s g).1 h,
)

proxy-Bounded : (a : ℕ) (g : GatewayTracker) → Bounded g → Bounded (note_proxy_arp a g)
unfolding note_proxy_arp Bounded
proxy-Bounded a g h = ground (arith, length-append g.proxied (a ∷ []))

count-Bounded :
    (a : ℕ) (m : MacAddr) (g : GatewayTracker)
    → rank g.ip_source ≤ 1
    → ((contains_key a g.askers ≡ false) → length g.askers < max_candidates)
    → Bounded g
    → Bounded (count_asker a m g)
unfolding count_asker set_ip forget_mac rank Bounded Distinct BelowQuorum
count-Bounded a m g r l h =
    let ms : List MacAddr = push_new m (or_default (lookup a g.askers)) in
    ground (
      arith,
      insert-BelowQuorum a ms g.askers,
      insert-Distinct a ms g.askers h.0.0,
      length-insert a ms g.askers,
      l,
    )

asker-Bounded :
    (a : ℕ) (m : MacAddr) (g : GatewayTracker) → Bounded g → Bounded (record_asker a m g)
unfolding record_asker rank
asker-Bounded a m g h = ground (arith, count-Bounded a m g)

Bounded-Preserved : Preserved Bounded
Bounded-Preserved = record {
  router = λ a g h. set_ip-Bounded a dhcp g h;
  asker = asker-Bounded;
  sender = λ m g h. set_mac-Bounded m g.ip_source g h;
  proxy = proxy-Bounded;
}

-- Whatever traffic follows, the tracker holds at most 512 candidate addresses, each once and with
-- fewer askers than the quorum, and at most 256 proxied addresses.
pub observe_all-Bounded :
    (ip : Option ℕ) (mac : Option MacAddr) (obs : List Observation)
    → Bounded (observe_all obs (new_tracker ip mac))
unfolding Bounded new_tracker Distinct BelowQuorum
observe_all-Bounded ip mac obs =
    observe_run Bounded-Preserved obs (new_tracker ip mac) ((tt, tt), (omega arith, omega arith))
