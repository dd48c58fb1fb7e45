-- ===== src/Analyze/Chain/Setup.antt =====
-- src/analyze/mod.rs: the chain that the settings ask for.
use netgraspd.Base.{
  ℕ, Bool, true, false, not, ◌&&◌, Option, none, some, List, [], ◌∷◌, String, Text, map, ok, All,
  ◌≡◌, refl, is_some, arith, ◌==◌, ==_refl, ==_iff, Bool-cases, inl, inr,
}
use netgraspd.Types.Mac.{MacAddr, mac_eq, parse_mac}
use netgraspd.Types.Evidence.{trim, is_empty}
use netgraspd.Config.Security.{
  SecurityConfig, parse_macs, keep_parsed, parse_optional, validate_security,
}
use netgraspd.Config.Security.Accepted.{IsMac, validate_security_iff}
use netgraspd.Device.Manager.Feeds.{SecurityAlert}
use netgraspd.Analyze.Gateway.{new_tracker, with_proxy_arp}
use netgraspd.Analyze.ArpScan.{new_scan}
use netgraspd.Analyze.ArpSpoof.{new_spoof}
use netgraspd.Analyze.RogueDhcp.{new_rogue}
use netgraspd.Analyze.IpConflict.{new_conflict}
use netgraspd.Analyze.GratuitousArp.{new_gratuitous}
use netgraspd.Analyze.IdentityChange.{new_identity_change}
use netgraspd.Analyze.Chain.{
  Outside, Stimulus, Chain, Analyzer, scanning, spoofing, serving, sharing, announcing, changing,
}
use netgraspd.Analyze.Chain.Exempt.{Permitted, feed_all, feed_all-Permitted}

abbrev push_if : Bool → Analyzer → List Analyzer → List Analyzer
push_if true a rest = a ∷ rest
push_if false a rest = rest

unfoldable analyzers_for : SecurityConfig → List Analyzer
analyzers_for c =
    push_if c.arp_scan.enabled
      (scanning (
        new_scan c.arp_scan.window c.arp_scan.threshold c.arp_scan.gateway_threshold c.max_tracked))
      (push_if c.arp_spoof.enabled (spoofing (new_spoof c.arp_spoof.grace_period c.max_tracked)) (
        push_if c.rogue_dhcp.enabled (serving (new_rogue c.rogue_dhcp.known_servers)) (
          push_if c.ip_conflict.enabled
            (sharing (new_conflict c.ip_conflict.active_within c.max_tracked))
            (push_if c.gratuitous_arp.enabled
              (announcing
                (new_gratuitous c.gratuitous_arp.window c.gratuitous_arp.threshold c.max_tracked))
              (push_if c.identity_change.enabled
                (changing (new_identity_change c.identity_change.sensitivity)) [])))))

-- `Chain::new`
unfoldable pub new_chain : (Text → Option ℕ) → SecurityConfig → Chain
unfolding analyzers_for
new_chain parse_ip4 c = record {
  analyzers = analyzers_for c;
  context = record {
    gateway = with_proxy_arp c.proxy_arp_gateway (
        new_tracker (parse_optional parse_ip4 c.gateway_ip)
          (parse_optional parse_mac c.gateway_mac));
    exempt = parse_macs c.exempt_macs;
    priority = c.notifications.priority;
    max_tracked = c.max_tracked;
  };
  enabled = c.enabled;
}

-- `Analyzer::name`, of each kind.
unfoldable analyzer_name : Analyzer → String
analyzer_name (scanning a) = "arp_scan"
analyzer_name (spoofing a) = "arp_spoof"
analyzer_name (serving a) = "rogue_dhcp"
analyzer_name (sharing a) = "ip_conflict"
analyzer_name (announcing a) = "gratuitous_arp"
analyzer_name (changing a) = "identity_change"

-- `Chain::names`
unfoldable pub names : Chain → List String
unfolding analyzer_name
names ch = map analyzer_name ch.analyzers

-- `Chain::is_active`
unfoldable pub is_active_chain : Chain → Bool
is_active_chain ch = ch.enabled && not (is_empty ch.analyzers)

-- No alert is about the device.
abbrev pub Spares : List SecurityAlert → MacAddr → Type 0
Spares alerts m = All (λ a. (a.mac == m) ≡ false) alerts

-- The text names a device that no alert is about.
abbrev pub SparesNamed : List SecurityAlert → Text → Type 0
SparesNamed alerts t = (m : MacAddr) × (parse_mac (trim t) ≡ some m) × Spares alerts m

beq_flip : (a b : MacAddr) → (b == a) ≡ false → (a == b) ≡ false
beq_flip a b h = elim (Bool-cases (a == b)) [
  | inl e ↦ absurd (ground (arith, h, ==_refl a, (==_iff a b).0 e))
  | inr e ↦ e
]

exempt_head :
    (m : MacAddr) (rest : List MacAddr) (enabled : Bool) (alerts : List SecurityAlert)
    → All (Permitted (m ∷ rest) enabled) alerts
    → Spares alerts m × All (Permitted rest enabled) alerts
exempt_head m rest enabled [] h = (tt, tt)
exempt_head m rest enabled (a ∷ alerts) ((apart, on), h) =
    let (head, tail) = exempt_head m rest enabled alerts h in
    ((beq_flip a.mac m (ground (arith, apart)), head), ((ground (arith, apart), on), tail))

exempt_parsed :
    (t : Text) (o : Option MacAddr) (rest : List MacAddr) (enabled : Bool)
    (alerts : List SecurityAlert)
    → parse_mac (trim t) ≡ o
    → is_some o ≡ true
    → All (Permitted (keep_parsed o rest) enabled) alerts
    → SparesNamed alerts t × All (Permitted rest enabled) alerts
exempt_parsed t none rest enabled alerts e v h = absurd (ground arith)
exempt_parsed t (some m) rest enabled alerts e v h =
    let (head, tail) = exempt_head m rest enabled alerts h in ((m, e, head), tail)

exempt_named :
    (ts : List Text) (enabled : Bool) (alerts : List SecurityAlert)
    → All IsMac ts
    → All (Permitted (parse_macs ts) enabled) alerts
    → All (SparesNamed alerts) ts
unfolding parse_macs
exempt_named [] enabled alerts v h = tt
exempt_named (t ∷ rest) enabled alerts (v, vs) h =
    let (head, tail) =
      exempt_parsed t (parse_mac (trim t)) (parse_macs rest) enabled alerts refl v h in
    (head, exempt_named rest enabled alerts vs tail)

-- The devices that the settings exempt are never reported: where the settings are accepted, every
-- text in the list of exemptions names a device, and whatever the chain that is made of the
-- settings is fed, it raises no alert about that device.
pub new_chain-Spares :
    (outside : Outside) (parse_ip4 : Text → Option ℕ) (c : SecurityConfig) (ss : List Stimulus)
    → validate_security parse_ip4 c ≡ ok tt
    → All (SparesNamed (feed_all outside (new_chain parse_ip4 c) ss).1) c.exempt_macs
unfolding new_chain
new_chain-Spares outside parse_ip4 c ss accepted =
    let (usable, _) = (validate_security_iff parse_ip4 c c.arp_scan.gateway_threshold).0 accepted in
    let (_, (_, (valid, _))) = usable in
    exempt_named c.exempt_macs c.enabled _ valid
      (feed_all-Permitted outside ss (new_chain parse_ip4 c))
