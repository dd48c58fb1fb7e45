-- ===== src/Analyze/Gateway/Steps.antt =====
-- src/analyze/gateway.rs: the four ways in which an observation changes the tracker, and the
-- principle that what they preserve holds after any traffic.
use netgraspd.Base.{
  ℕ, Bool, true, false, Option, none, some, List, [], ◌∷◌, ◌==◌, nat_eq, option_eq, if◌then◌else◌,
}
use netgraspd.Types.Mac.{MacAddr}
use netgraspd.Types.Observed.{Observation, ArpDetail, DhcpDetail, arp_detail, dhcp_detail}
use netgraspd.Analyze.Gateway.{
  GatewayTracker, dhcp, set_ip, set_mac, record_asker, note_proxy_arp, hear_router, hear_dhcp,
  hear_sender, hear_arp, hear_proxy, observe_gateway, observe_all, v4_of, is_reply,
}

pub record Preserved {ℓ} (P : GatewayTracker → Type ℓ) : Type ℓ where
  pub router : (a : ℕ) (g : GatewayTracker) → P g → P (set_ip a dhcp g)
  pub asker : (a : ℕ) (m : MacAddr) (g : GatewayTracker) → P g → P (record_asker a m g)
  pub sender : (m : MacAddr) (g : GatewayTracker) → P g → P (set_mac m g.ip_source g)
  pub proxy : (a : ℕ) (g : GatewayTracker) → P g → P (note_proxy_arp a g)

module _ {ℓ} {P : GatewayTracker → Type ℓ} (p : Preserved P) where
  both : (b : Bool) {g h : GatewayTracker} → P g → P h → P (if b then g else h)
  both true x y = x
  both false x y = y

  dhcp_step : (d : Option DhcpDetail) (g : GatewayTracker) → P g → P (hear_dhcp d g)
  unfolding hear_dhcp hear_router
  dhcp_step none g h = h
  dhcp_step (some d) g h = router_step d.router
    where
      router_step : (r : Option ℕ) → P (hear_router r g)
      router_step none = h
      router_step (some a) = p.router a g h

  sender_step : (a : Option ℕ) (m : MacAddr) (g : GatewayTracker) → P g → P (hear_sender a m g)
  unfolding hear_sender
  sender_step none m g h = h
  sender_step (some a) m g h = both (g.ip == some a) (p.sender m g h) h

  arp_step : (a : Option ArpDetail) (m : MacAddr) (g : GatewayTracker) → P g → P (hear_arp a m g)
  unfolding hear_arp
  arp_step none m g h = h
  arp_step (some a) m g h =
      both (is_reply a.op) (sender_step a.sender_ip m g h)
        (both a.gratuitous h (p.asker a.target_ip m g h))

  proxy_step : (a : Option ℕ) (g : GatewayTracker) → P g → P (hear_proxy a g)
  unfolding hear_proxy
  proxy_step none g h = h
  proxy_step (some a) g h = p.proxy a g h

  pub observe_step : (o : Observation) (g : GatewayTracker) → P g → P (observe_gateway o g)
  unfolding observe_gateway
  observe_step o g h =
      let h3 =
        sender_step (v4_of o.ip) o.mac (hear_arp (arp_detail o) o.mac (hear_dhcp (dhcp_detail o) g))
          (arp_step (arp_detail o) o.mac (hear_dhcp (dhcp_detail o) g)
            (dhcp_step (dhcp_detail o) g h)) in
      proxy_step _ _ h3

  pub observe_run : (obs : List Observation) (g : GatewayTracker) → P g → P (observe_all obs g)
  unfolding observe_all
  observe_run [] g h = h
  observe_run (o ∷ obs) g h = observe_run obs (observe_gateway o g) (observe_step o g h)
