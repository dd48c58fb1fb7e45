-- ===== src/Identity/Scorer.antt =====
-- src/identity/scorer.rs: the weighted scorer and the comparison of two identities. Weights are
-- in hundredths.
pub mod Rank
mod Tests
use netgraspd.Base.{
  ℕ, ◌*◌, Bool, true, false, ◌&&◌, ◌||◌, not, List, [], ◌∷◌, ◌++◌, Option, none, some, Text, ◌==◌,
  list_eq, nat_eq, eqb, ltb, if◌then◌else◌,
}
use netgraspd.Time.{second, elapsed, at_least}
use netgraspd.Types.{
  MacAddr, mac_text, SignalKind, user_assigned, mdns_name, dhcp_hostname, reverse_dns, netbios_name,
  ssdp_friendly_name, vendor, mac, weight, kind_eq, Signal, trim, is_blank,
}

pub record IdentityInput : Type 0 where
  pub mac : MacAddr
  pub signals : List Signal
  pub device_type : Option Text

pub record Identity : Type 0 where
  pub display_name : Text
  pub source : SignalKind
  pub confidence : ℕ

unfoldable pub first_usable : List Signal → SignalKind → Option Text
first_usable [] k = none
first_usable (s ∷ ss) k =
    let rest = first_usable ss k in
    if (s.kind == k) && not (is_blank s.value) then some (trim s.value) else rest

-- An identity of a kind, at the weight of that kind.
abbrev pub named : Text → SignalKind → Identity
named n k = record { display_name = n; source = k; confidence = weight k }

abbrev pub naming : List SignalKind
naming = mdns_name ∷ dhcp_hostname ∷ reverse_dns ∷ netbios_name ∷ ssdp_friendly_name ∷ []

-- `" device"`
abbrev device_word : Text
device_word = 32 ∷ b'd' ∷ b'e' ∷ b'v' ∷ b'i' ∷ b'c' ∷ b'e' ∷ []

unfoldable pub vendor_name : Text → Option Text → Text
vendor_name v none = v ++ device_word
vendor_name v (some t) = if is_blank t then v ++ device_word else v ++ (32 ∷ trim t)

-- The tail of `resolve`: the vendor, or the bare address.
unfoldable pub resolve_vendor : IdentityInput → Identity
resolve_vendor input = elim (first_usable input.signals vendor) [
  | some v ↦ named (vendor_name v input.device_type) vendor
  | none ↦ named (mac_text input.mac) mac
]

-- The loop over `naming`.
unfoldable pub resolve_naming : IdentityInput → List SignalKind → Identity
unfolding resolve_vendor
resolve_naming input [] = resolve_vendor input
resolve_naming input (k ∷ ks) =
    let rest = resolve_naming input ks in
    elim (first_usable input.signals k) [ some v ↦ named v k | none ↦ rest ]

unfoldable pub resolve : IdentityInput → Identity
unfolding resolve_naming
resolve input = elim (first_usable input.signals user_assigned) [
  | some v ↦ named v user_assigned
  | none ↦ resolve_naming input naming
]

pub data Verdict : Type 0 where
  same better rival worse : Verdict

unfoldable pub compare : Identity → Identity → Verdict
compare candidate current =
    if ltb current.confidence candidate.confidence
    then better
    else if ltb candidate.confidence current.confidence
    then worse
    else if candidate.display_name == current.display_name
    then same
    else rival

-- Five minutes.
abbrev pub settle_window : ℕ
settle_window = 300 * second

unfoldable pub settled : ℕ → ℕ → Bool
settled since now = at_least (elapsed since now) settle_window

unfoldable pub improves_on : Identity → Identity → Bool
unfolding compare
improves_on candidate current = elim (compare candidate current) [
  | better ↦ true
  | rival ↦ true
  | _ ↦ false
]
