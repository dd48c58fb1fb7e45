-- ===== src/Analyze/Gateway/Replace.antt =====
-- src/analyze/gateway.rs: what it takes to replace the gateway's known hardware address.
use netgraspd.Base.{
  ℕ, ◌≤◌, ◌<◌, ◌≡◌, ◌≢◌, ◌⊎◌, inl, inr, refl, sym, ◌∙◌, Option, none, some, arith, ◌==◌, nat_eq,
  option_eq, Bool-cases, option_beq_iff,
}
use netgraspd.Types.Mac.{MacAddr, mac_eq}
use netgraspd.Types.Observed.{
  Observation, ArpDetail, DhcpDetail, arp_detail, dhcp_detail, one_detail,
}
use netgraspd.Analyze.Gateway.{
  GatewaySource, dhcp, rank, GatewayTracker, set_ip, forget_mac, weigh_mac, set_mac, count_asker,
  record_asker, note_proxy_arp, hear_router, hear_dhcp, hear_sender, hear_arp, hear_proxy,
  observe_gateway, v4_of,
}
use netgraspd.Analyze.Gateway.Trust.{set_mac_ip}

-- The address is still `m`, or the evidence for another is stronger than `r`.
unfoldable Held : MacAddr → ℕ → GatewayTracker → Type 0
Held m r h = (r ≤ rank h.mac_source) × ((h.mac ≡ some m) ⊎ (r < rank h.mac_source))

-- The same, unless the gateway's address has moved away from `ip`.
unfoldable HeldAt : MacAddr → ℕ → Option ℕ → GatewayTracker → Type 0
HeldAt m r ip h = (h.ip ≢ ip) ⊎ Held m r h

weigh-Held :
    (m c : MacAddr) (r : ℕ) (s : GatewaySource) (k : Option MacAddr) (h : GatewayTracker)
    → h.mac ≡ k
    → Held m r h
    → Held m r (weigh_mac k c s h)
unfolding weigh_mac Held
weigh-Held m c r s none h e held = ground arith
weigh-Held m c r s (some k) h e held = ground arith

module _ (m : MacAddr) (r : ℕ) (ip : Option ℕ) where
  set_mac-HeldAt :
      (c : MacAddr) (s : GatewaySource) (h : GatewayTracker)
      → HeldAt m r ip h
      → HeldAt m r ip (set_mac c s h)
  unfolding HeldAt set_mac
  set_mac-HeldAt c s h (inl moved) = inl (λ e. moved (sym (set_mac_ip c s h).0 ∙ e))
  set_mac-HeldAt c s h (inr held) = ground (arith, weigh-Held m c r s h.mac h refl held)

  sender-HeldAt :
      (a : Option ℕ) (c : MacAddr) (h : GatewayTracker)
      → HeldAt m r ip h
      → HeldAt m r ip (hear_sender a c h)
  unfolding hear_sender
  sender-HeldAt none c h p = p
  sender-HeldAt (some a) c h p = elim (Bool-cases (h.ip == some a)) [
    | inl e ↦ rw e (set_mac-HeldAt c h.ip_source h p)
    | inr e ↦ rw e p
  ]

  proxy-HeldAt :
      (a : Option ℕ) (h : GatewayTracker) → HeldAt m r ip h → HeldAt m r ip (hear_proxy a h)
  unfolding hear_proxy note_proxy_arp HeldAt Held
  proxy-HeldAt none h p = p
  proxy-HeldAt (some a) h p = ground arith

set_ip-HeldAt :
    (m : MacAddr) (a : ℕ) (s : GatewaySource) (g : GatewayTracker)
    → g.mac ≡ some m
    → HeldAt m (rank g.mac_source) g.ip (set_ip a s g)
unfolding HeldAt Held set_ip forget_mac
set_ip-HeldAt m a s g e = ground (arith, option_beq_iff g.ip (some a))

module _ (m : MacAddr) (g : GatewayTracker) (known : g.mac ≡ some m) where
  here : HeldAt m (rank g.mac_source) g.ip g
  unfolding HeldAt Held
  here = inr (omega arith, inl known)

  asker-HeldAt : (a : ℕ) (c : MacAddr) → HeldAt m (rank g.mac_source) g.ip (record_asker a c g)
  unfolding record_asker count_asker set_ip forget_mac HeldAt Held
  asker-HeldAt a c = ground (arith, option_beq_iff g.ip (some a), known)

  dhcp-HeldAt : (d : Option DhcpDetail) → HeldAt m (rank g.mac_source) g.ip (hear_dhcp d g)
  unfolding hear_dhcp hear_router
  dhcp-HeldAt none = here
  dhcp-HeldAt (some d) = router d.router
    where
      router : (a : Option ℕ) → HeldAt m (rank g.mac_source) g.ip (hear_router a g)
      router none = here
      router (some a) = set_ip-HeldAt m a dhcp g known

  arp-HeldAt :
      (a : Option ArpDetail) (c : MacAddr) → HeldAt m (rank g.mac_source) g.ip (hear_arp a c g)
  unfolding hear_arp
  arp-HeldAt none c = here
  arp-HeldAt (some a) c = ground (
    arith,
    sender-HeldAt m (rank g.mac_source) g.ip a.sender_ip c g here,
    here,
    asker-HeldAt a.target_ip c,
  )

  detail-HeldAt :
      (o : Observation)
      → HeldAt m
          (rank g.mac_source)
          g.ip
          (hear_arp (arp_detail o) o.mac (hear_dhcp (dhcp_detail o) g))
  unfolding hear_arp hear_dhcp
  detail-HeldAt o = elim (one_detail o) [
    | inl e ↦ rw e (dhcp-HeldAt (dhcp_detail o))
    | inr e ↦ rw e (arp-HeldAt (arp_detail o) o.mac)
  ]

  observe-HeldAt : (o : Observation) → HeldAt m (rank g.mac_source) g.ip (observe_gateway o g)
  unfolding observe_gateway
  observe-HeldAt o =
      proxy-HeldAt m (rank g.mac_source) g.ip _ _
        (sender-HeldAt m (rank g.mac_source) g.ip (v4_of o.ip) o.mac _ (detail-HeldAt o))

held_still :
    (m : MacAddr) (g : GatewayTracker) (o : Observation)
    → (observe_gateway o g).ip ≡ g.ip
    → HeldAt m (rank g.mac_source) g.ip (observe_gateway o g)
    → ((observe_gateway o g).mac ≡ some m)
      ⊎ (rank g.mac_source < rank (observe_gateway o g).mac_source)
unfolding HeldAt Held
held_still m g o still (inl moved) = absurd (moved still)
held_still m g o still (inr held) = held.1

-- An observation that leaves the gateway's address alone replaces its known hardware address only
-- with evidence of a strictly stronger source: no forged answer of equal rank displaces it.
pub observe_replaces :
    (m : MacAddr) (g : GatewayTracker) (o : Observation)
    → g.mac ≡ some m
    → (observe_gateway o g).ip ≡ g.ip
    → ((observe_gateway o g).mac ≡ some m)
      ⊎ (rank g.mac_source < rank (observe_gateway o g).mac_source)
observe_replaces m g o known still = held_still m g o still (observe-HeldAt m g known o)
