-- ===== src/Config/Security/Accepted.antt =====
-- src/config.rs: what the settings of the security analyzers that are accepted satisfy.
use netgraspd.Base.{
  suc, length, ap, ◌∙◌, Bool-cases, inl, inr, ℕ, ◌+◌, ◌≤◌, Bool, true, false, ◌&&◌, not, Option,
  none, some, List, [], ◌∷◌, Text, Result, ok, err, All, ◌≡◌, refl, ◌↔◌, is_none, is_some, arith,
  eqb,
}
use netgraspd.Time.{second}
use netgraspd.Types.Mac.{MacAddr, parse_mac}
use netgraspd.Types.Evidence.{trim, is_empty}
use netgraspd.Config.Security.{
  parse_macs, keep_parsed, parse_optional, SecurityConfig, SecurityError, validate_security,
  check_optional, check_macs, and_check, bail_if, as_secs, names_sensitivity, bad_gateway_mac,
  bad_gateway_ip, bad_exempt, bad_server, no_tracking, no_scan_window, no_scan_threshold,
  no_announcement_window, no_announcement_threshold, no_conflict_window, bad_sensitivity,
}

-- The text is that of a hardware address.
abbrev pub IsMac : Text → Type 0
IsMac t = is_some (parse_mac (trim t)) ≡ true

-- The text is blank, or is read.
abbrev pub IsOptional {ℓ} : {A : Type ℓ} → (Text → Option A) → Text → Type 0
IsOptional parse raw = (is_empty (trim raw) ≡ false) → (is_some (parse (trim raw)) ≡ true)

-- What is asked of the settings.
abbrev pub IsUsable : (Text → Option ℕ) → SecurityConfig → Type 0
IsUsable parse_ip4 c =
    IsOptional parse_mac c.gateway_mac
    × (IsOptional parse_ip4 c.gateway_ip
        × (All IsMac c.exempt_macs
            × (All IsMac c.rogue_dhcp.known_servers
                × ((1 ≤ c.max_tracked)
                    × ((second ≤ c.arp_scan.window)
                        × ((1 ≤ c.arp_scan.threshold)
                            × ((second ≤ c.gratuitous_arp.window)
                                × ((1 ≤ c.gratuitous_arp.threshold)
                                    × ((second ≤ c.ip_conflict.active_within)
                                        × (names_sensitivity c.identity_change.sensitivity
                                            ≡ true))))))))))

and_check_iff {ℓ ℓ'} :
    {P : Type ℓ} {Q : Type ℓ'} (r s : Result (Unit {0}) SecurityError)
    → (r ≡ ok tt) ↔ P
    → (s ≡ ok tt) ↔ Q
    → (and_check r s ≡ ok tt) ↔ (P × Q)
and_check_iff (ok tt) s f g = (λ e. (f.0 refl, g.0 e), λ p. g.1 p.1)
and_check_iff (err e) s f g = (λ h. absurd (ground arith), λ p. absurd (ground (arith, f.1 p.0)))

bail_iff : (b : Bool) (e : SecurityError) → (bail_if b e ≡ ok tt) ↔ (b ≡ false)
bail_iff true e = (λ h. absurd (ground arith), λ h. absurd (ground arith))
bail_iff false e = (λ h. refl, λ h. refl)

count_iff : (n : ℕ) (e : SecurityError) → (bail_if (eqb n 0) e ≡ ok tt) ↔ (1 ≤ n)
count_iff n e =
    let (to, from) = bail_iff (eqb n 0) e in (λ h. ground (arith, to h), λ h. from (ground arith))

window_iff : (d : ℕ) (e : SecurityError) → (bail_if (eqb (as_secs d) 0) e ≡ ok tt) ↔ (second ≤ d)
window_iff d e =
    let (to, from) = bail_iff (eqb (as_secs d) 0) e in
    (λ h. ground (arith, to h), λ h. from (ground arith))

not_iff : (b : Bool) (e : SecurityError) → (bail_if (not b) e ≡ ok tt) ↔ (b ≡ true)
not_iff true e = (λ h. refl, λ h. refl)
not_iff false e = (λ h. absurd (ground arith), λ h. absurd (ground arith))

parsed_iff {ℓ} :
    {A : Type ℓ} (e : SecurityError) (o : Option A)
    → (bail_if (is_none o) e ≡ ok tt) ↔ (is_some o ≡ true)
parsed_iff e none = (λ h. absurd (ground arith), λ h. absurd (ground arith))
parsed_iff e (some a) = (λ h. refl, λ h. refl)

given_iff {ℓ} :
    {A : Type ℓ} (e : SecurityError) (b : Bool) (o : Option A)
    → (bail_if (not b && is_none o) e ≡ ok tt) ↔ ((b ≡ false) → (is_some o ≡ true))
given_iff e true o = (λ h n. absurd (ground arith), λ h. refl)
given_iff e false o = let (to, from) = parsed_iff e o in (λ h n. to h, λ h. from (h refl))

check_blank_iff {ℓ} :
    {A : Type ℓ} (parse : Text → Option A) (raw : Text) (e : SecurityError)
    → (check_optional parse raw e ≡ ok tt) ↔ IsOptional parse raw
unfolding check_optional
check_blank_iff parse raw e = given_iff e (is_empty (trim raw)) (parse (trim raw))

macs_iff :
    (e : ℕ → Text → SecurityError) (i : ℕ) (ts : List Text)
    → (check_macs e i ts ≡ ok tt) ↔ All IsMac ts
unfolding check_macs
macs_iff e i [] = (λ h. tt, λ h. refl)
macs_iff e i (t ∷ rest) =
    and_check_iff (bail_if (is_none (parse_mac (trim t))) (e i t)) (check_macs e (i + 1) rest)
      (parsed_iff (e i t) (parse_mac (trim t))) (macs_iff e (i + 1) rest)

-- The settings with another threshold for the gateway.
abbrev pub with_gateway_threshold : ℕ → SecurityConfig → SecurityConfig
with_gateway_threshold n c = record c { arp_scan = record (c.arp_scan) { gateway_threshold = n } }

kept_length :
    (o : Option MacAddr) (rest : List MacAddr)
    → is_some o ≡ true
    → length (keep_parsed o rest) ≡ suc (length rest)
kept_length none rest h = absurd (ground arith)
kept_length (some m) rest h = refl

length-parse_macs : (ts : List Text) → All IsMac ts → length (parse_macs ts) ≡ length ts
unfolding parse_macs
length-parse_macs [] v = refl
length-parse_macs (t ∷ rest) v =
    kept_length (parse_mac (trim t)) (parse_macs rest) v.0 ∙ ap suc (length-parse_macs rest v.1)

given_address {ℓ} :
    {A : Type ℓ}
    → (parse : Text → Option A) (raw : Text) → IsOptional parse raw
    → is_some (parse_optional parse raw) ≡ not (is_empty (trim raw))
unfolding parse_optional
given_address parse raw h = elim (Bool-cases (is_empty (trim raw))) [
  | inl blank ↦ rw blank refl
  | inr ink ↦ rw ink (h ink)
]

-- What is read of the settings is all that is written: no address of the two lists is dropped, and
-- an address of the gateway is set where its text is not blank.
abbrev pub ReadInFull : (Text → Option ℕ) → SecurityConfig → Type 0
ReadInFull parse_ip4 c =
    (length (parse_macs c.exempt_macs) ≡ length c.exempt_macs)
    × ((length (parse_macs c.rogue_dhcp.known_servers) ≡ length c.rogue_dhcp.known_servers)
        × ((is_some (parse_optional parse_mac c.gateway_mac) ≡ not (is_empty (trim c.gateway_mac)))
            × (is_some (parse_optional parse_ip4 c.gateway_ip)
                ≡ not (is_empty (trim c.gateway_ip)))))

usable-ReadInFull :
    (parse_ip4 : Text → Option ℕ) (c : SecurityConfig)
    → IsUsable parse_ip4 c
    → ReadInFull parse_ip4 c
usable-ReadInFull parse_ip4 c (mac, (ip, (exempt, (servers, rest)))) = (
  length-parse_macs c.exempt_macs exempt,
  (
    length-parse_macs c.rogue_dhcp.known_servers servers,
    (given_address parse_mac c.gateway_mac mac, given_address parse_ip4 c.gateway_ip ip),
  ),
)

accepted_iff :
    (parse_ip4 : Text → Option ℕ) (c : SecurityConfig) (gateway_threshold : ℕ)
    → (validate_security parse_ip4 (with_gateway_threshold gateway_threshold c) ≡ ok tt)
      ↔ IsUsable parse_ip4 c
unfolding validate_security
accepted_iff parse_ip4 c gateway_threshold =
    and_check_iff _ _ (check_blank_iff parse_mac c.gateway_mac bad_gateway_mac) (
      and_check_iff _ _ (check_blank_iff parse_ip4 c.gateway_ip bad_gateway_ip) (
        and_check_iff _ _ (macs_iff bad_exempt 0 c.exempt_macs) (
          and_check_iff _ _ (macs_iff bad_server 0 c.rogue_dhcp.known_servers) (
            and_check_iff _ _ (count_iff c.max_tracked no_tracking) (
              and_check_iff _ _ (window_iff c.arp_scan.window no_scan_window) (
                and_check_iff _ _ (count_iff c.arp_scan.threshold no_scan_threshold) (
                  and_check_iff _ _ (window_iff c.gratuitous_arp.window no_announcement_window) (
                    and_check_iff _ _
                      (count_iff c.gratuitous_arp.threshold no_announcement_threshold)
                      (and_check_iff _ _ (window_iff c.ip_conflict.active_within no_conflict_window)
                        (not_iff (names_sensitivity c.identity_change.sensitivity)
                          bad_sensitivity))))))))))

-- Settings are accepted exactly if they are usable: the addresses of the gateway are blank or read,
-- every address in the two lists is read, there is room to track something, the windows of the scan
-- and of the announcements and the reach of a conflict are a second or longer, the thresholds of the
-- scan and of the announcements are not 0, and the sensitivity is one of the two. The threshold for
-- the gateway has no part in it: whatever it is, 0 included, the same settings are accepted. Of
-- settings that are accepted everything is read: no address of the two lists is dropped, and the
-- addresses of the gateway are set exactly where their text is not blank.
pub validate_security_iff :
    (parse_ip4 : Text → Option ℕ) (c : SecurityConfig) (gateway_threshold : ℕ)
    → (validate_security parse_ip4 (with_gateway_threshold gateway_threshold c) ≡ ok tt)
      ↔ (IsUsable parse_ip4 c × ReadInFull parse_ip4 c)
validate_security_iff parse_ip4 c gateway_threshold =
    let (to, from) = accepted_iff parse_ip4 c gateway_threshold in
    (
      λ accepted. (to accepted, usable-ReadInFull parse_ip4 c (to accepted)),
      λ usable. from usable.0,
    )
