-- ===== src/Config/Security.antt =====
-- src/config.rs: the settings of the security analyzers, and what is rejected. The messages are a
-- data type with a constructor for each, and reading an IPv4 address is the standard library's.
pub mod Accepted
use netgraspd.Base.{
  ℕ, ◌+◌, ◌*◌, ◌/◌, Bool, true, false, ◌&&◌, ◌||◌, not, Option, none, some, List, [], ◌∷◌, String,
  Text, Result, ok, err, All, ◌≡◌, refl, ◌↔◌, eqb, ◌==◌, list_eq, nat_eq, is_none, is_some,
  if◌then◌else◌, Bool-cases, inl, inr, arith,
}
use netgraspd.Time.{second}
use netgraspd.Types.Mac.{MacAddr, parse_mac}
use netgraspd.Types.Evidence.{trim, is_empty}
use netgraspd.Config.Notifying.{SecurityNotifyConfig}

pub record ArpScanConfig : Type 0 where
  pub enabled : Bool
  pub window : ℕ
  pub threshold : ℕ
  pub gateway_threshold : ℕ

pub record ArpSpoofConfig : Type 0 where
  pub enabled : Bool
  pub grace_period : ℕ

pub record RogueDhcpConfig : Type 0 where
  pub enabled : Bool
  pub known_servers : List Text

pub record IdentityChangeConfig : Type 0 where
  pub enabled : Bool
  pub sensitivity : Text

pub record IpConflictConfig : Type 0 where
  pub enabled : Bool
  pub active_within : ℕ

pub record GratuitousArpConfig : Type 0 where
  pub enabled : Bool
  pub window : ℕ
  pub threshold : ℕ

pub record SecurityConfig : Type 0 where
  pub enabled : Bool
  pub gateway_mac : Text
  pub gateway_ip : Text
  pub proxy_arp_gateway : Bool
  pub exempt_macs : List Text
  pub max_tracked : ℕ
  pub arp_scan : ArpScanConfig
  pub arp_spoof : ArpSpoofConfig
  pub rogue_dhcp : RogueDhcpConfig
  pub identity_change : IdentityChangeConfig
  pub ip_conflict : IpConflictConfig
  pub gratuitous_arp : GratuitousArpConfig
  pub notifications : SecurityNotifyConfig

abbrev pub keep_parsed : Option MacAddr → List MacAddr → List MacAddr
keep_parsed none rest = rest
keep_parsed (some m) rest = m ∷ rest

-- `filter_map(|m| m.trim().parse().ok())`
unfoldable pub parse_macs : List Text → List MacAddr
parse_macs [] = []
parse_macs (t ∷ rest) = keep_parsed (parse_mac (trim t)) (parse_macs rest)

unfoldable pub parse_optional {ℓ} : {A : Type ℓ} → (Text → Option A) → Text → Option A
parse_optional parse raw = if is_empty (trim raw) then none else parse (trim raw)

pub data SecurityError : Type 0 where
  bad_gateway_mac bad_gateway_ip no_tracking no_scan_window no_scan_threshold
        no_announcement_window :
      SecurityError
  no_announcement_threshold no_conflict_window bad_sensitivity : SecurityError
  bad_exempt bad_server : ℕ → Text → SecurityError

-- `check?; rest`
abbrev and_check :
    Result (Unit {0}) SecurityError
    → Result (Unit {0}) SecurityError
    → Result (Unit {0}) SecurityError
and_check (ok u) rest = rest
and_check (err e) rest = err e

-- `if condition { bail!(..) }`
abbrev bail_if : Bool → SecurityError → Result (Unit {0}) SecurityError
bail_if true e = err e
bail_if false e = ok tt

unfoldable check_optional {ℓ} :
    {A : Type ℓ} → (Text → Option A) → Text → SecurityError → Result (Unit {0}) SecurityError
check_optional parse raw e = bail_if (not (is_empty (trim raw)) && is_none (parse (trim raw))) e

-- The loop over a list of addresses, which names the first that does not parse.
unfoldable check_macs : (ℕ → Text → SecurityError) → ℕ → List Text → Result (Unit {0}) SecurityError
check_macs e i [] = ok tt
check_macs e i (t ∷ rest) =
    and_check (bail_if (is_none (parse_mac (trim t))) (e i t)) (check_macs e (i + 1) rest)

abbrev as_secs : ℕ → ℕ
as_secs d = d / second

abbrev names_sensitivity : Text → Bool
names_sensitivity s =
    s == (b'c' ∷ b'a' ∷ b't' ∷ b'e' ∷ b'g' ∷ b'o' ∷ b'r' ∷ b'y' ∷ [])
    || s == (b'a' ∷ b'n' ∷ b'y' ∷ [])

-- `SecurityConfig::validate`
unfoldable pub validate_security :
    (Text → Option ℕ) → SecurityConfig → Result (Unit {0}) SecurityError
unfolding check_optional check_macs
validate_security parse_ip4 c = and_check (check_optional parse_mac c.gateway_mac bad_gateway_mac) (
    and_check (check_optional parse_ip4 c.gateway_ip bad_gateway_ip) (
      and_check (check_macs bad_exempt 0 c.exempt_macs) (
        and_check (check_macs bad_server 0 c.rogue_dhcp.known_servers) (
          and_check (bail_if (eqb c.max_tracked 0) no_tracking) (
            and_check (bail_if (eqb (as_secs c.arp_scan.window) 0) no_scan_window) (
              and_check (bail_if (eqb c.arp_scan.threshold 0) no_scan_threshold) (
                and_check (bail_if (eqb (as_secs c.gratuitous_arp.window) 0) no_announcement_window)
                  (and_check (bail_if (eqb c.gratuitous_arp.threshold 0) no_announcement_threshold)
                    (and_check
                      (bail_if (eqb (as_secs c.ip_conflict.active_within) 0) no_conflict_window)
                      (bail_if (not (names_sensitivity c.identity_change.sensitivity))
                        bad_sensitivity))))))))))
