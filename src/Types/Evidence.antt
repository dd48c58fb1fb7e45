-- ===== src/Types/Evidence.antt =====
-- src/types.rs: identity evidence. A weight is the source's f64 in hundredths, so 0.9 is 90.
use netgraspd.Base.{
  ℕ, ◌≡◌, refl, sym, ap, ◌∙◌, ◌↔◌, list_eq, nat_eq, string_eq, list_beq_iff, eqb_iff, Bool, true,
  false, ◌&&◌, ◌||◌, List, [], ◌∷◌, Option, none, some, Eq, ◌==◌, eqb, Text, String, contains, any,
  leb, if◌then◌else◌, arith, reverse,
}
use netgraspd.Types.Net.{IpAddr, ip_eq}

pub data SignalKind : Type 0 where
  user_assigned mdns_name dhcp_hostname reverse_dns netbios_name : SignalKind
  ssdp_friendly_name vendor mac mdns_service mdns_model dhcp_fingerprint : SignalKind
  dhcp_vendor_class ssdp_device_type ssdp_server netbios_workgroup ndp_role : SignalKind

unfoldable pub weight : SignalKind → ℕ
weight user_assigned = 100
weight mdns_name = 90
weight dhcp_hostname = 80
weight reverse_dns = 70
weight netbios_name = 60
weight ssdp_friendly_name = 50
weight vendor = 30
weight mac = 10
weight _ = 0

unfoldable pub kind_as_str : SignalKind → String
kind_as_str user_assigned = "user_assigned"
kind_as_str mdns_name = "mdns_name"
kind_as_str dhcp_hostname = "dhcp_hostname"
kind_as_str reverse_dns = "reverse_dns"
kind_as_str netbios_name = "netbios_name"
kind_as_str ssdp_friendly_name = "ssdp_friendly_name"
kind_as_str vendor = "vendor"
kind_as_str mac = "mac"
kind_as_str mdns_service = "mdns_service"
kind_as_str mdns_model = "mdns_model"
kind_as_str dhcp_fingerprint = "dhcp_fingerprint"
kind_as_str dhcp_vendor_class = "dhcp_vendor_class"
kind_as_str ssdp_device_type = "ssdp_device_type"
kind_as_str ssdp_server = "ssdp_server"
kind_as_str netbios_workgroup = "netbios_workgroup"
kind_as_str ndp_role = "ndp_role"

unfoldable pub kind_from_str_opt : String → Option SignalKind
kind_from_str_opt s =
    if s == "user_assigned"
    then some user_assigned
    else if s == "mdns_name"
    then some mdns_name
    else if s == "dhcp_hostname"
    then some dhcp_hostname
    else if s == "reverse_dns"
    then some reverse_dns
    else if s == "netbios_name"
    then some netbios_name
    else if s == "ssdp_friendly_name"
    then some ssdp_friendly_name
    else if s == "vendor"
    then some vendor
    else if s == "mac"
    then some mac
    else if s == "mdns_service"
    then some mdns_service
    else if s == "mdns_model"
    then some mdns_model
    else if s == "dhcp_fingerprint"
    then some dhcp_fingerprint
    else if s == "dhcp_vendor_class"
    then some dhcp_vendor_class
    else if s == "ssdp_device_type"
    then some ssdp_device_type
    else if s == "ssdp_server"
    then some ssdp_server
    else if s == "netbios_workgroup"
    then some netbios_workgroup
    else if s == "ndp_role"
    then some ndp_role
    else none

-- The derived equality of the enum, by the position of the variant.
abbrev pub kind_index : SignalKind → ℕ
kind_index user_assigned = 0
kind_index mdns_name = 1
kind_index dhcp_hostname = 2
kind_index reverse_dns = 3
kind_index netbios_name = 4
kind_index ssdp_friendly_name = 5
kind_index vendor = 6
kind_index mac = 7
kind_index mdns_service = 8
kind_index mdns_model = 9
kind_index dhcp_fingerprint = 10
kind_index dhcp_vendor_class = 11
kind_index ssdp_device_type = 12
kind_index ssdp_server = 13
kind_index netbios_workgroup = 14
kind_index ndp_role = 15

abbrev pub kind_at : ℕ → SignalKind
kind_at i =
    if eqb i 0
    then user_assigned
    else if eqb i 1
    then mdns_name
    else if eqb i 2
    then dhcp_hostname
    else if eqb i 3
    then reverse_dns
    else if eqb i 4
    then netbios_name
    else if eqb i 5
    then ssdp_friendly_name
    else if eqb i 6
    then vendor
    else if eqb i 7
    then mac
    else if eqb i 8
    then mdns_service
    else if eqb i 9
    then mdns_model
    else if eqb i 10
    then dhcp_fingerprint
    else if eqb i 11
    then dhcp_vendor_class
    else if eqb i 12
    then ssdp_device_type
    else if eqb i 13
    then ssdp_server
    else if eqb i 14
    then netbios_workgroup
    else ndp_role

kind_at-kind_index : (k : SignalKind) → kind_at (kind_index k) ≡ k
kind_at-kind_index user_assigned = refl
kind_at-kind_index _ = refl

unfoldable pub kind_beq : SignalKind → SignalKind → Bool
kind_beq a b = eqb (kind_index a) (kind_index b)

pub kind_beq_iff : (a b : SignalKind) → (kind_beq a b ≡ true) ↔ (a ≡ b)
unfolding kind_beq
kind_beq_iff a b = (
  λ h.
      sym (kind_at-kind_index a)
      ∙ ap kind_at ((eqb_iff (kind_index a) (kind_index b)).0 h)
      ∙ kind_at-kind_index b,
  λ e. (eqb_iff (kind_index a) (kind_index b)).1 (ap kind_index e),
)

instance abbrev pub kind_eq : Eq SignalKind
kind_eq = record { beq = kind_beq; beq_iff = kind_beq_iff }

pub record Signal : Type 0 where
  pub kind : SignalKind
  pub value : Text

unfoldable pub signal_beq : Signal → Signal → Bool
signal_beq a b = kind_beq a.kind b.kind && (a.value == b.value)

pub signal_beq_iff : (a b : Signal) → (signal_beq a b ≡ true) ↔ (a ≡ b)
unfolding signal_beq
signal_beq_iff a b = ground (arith, kind_beq_iff a.kind b.kind, list_beq_iff a.value b.value)

instance abbrev pub signal_eq : Eq Signal
signal_eq = record { beq = signal_beq; beq_iff = signal_beq_iff }

-- `str::trim`: the characters that Unicode calls white space.
unfoldable pub is_whitespace : ℕ → Bool
is_whitespace c =
    (leb 9 c && leb c 13)
    || (eqb c 32
        || (eqb c 0x85
            || (eqb c 0xa0
                || (eqb c 0x1680
                    || ((leb 0x2000 c && leb c 0x200a)
                        || (eqb c 0x2028
                            || (eqb c 0x2029
                                || (eqb c 0x202f || (eqb c 0x205f || eqb c 0x3000)))))))))

abbrev pub trim_start : Text → Text
trim_start [] = []
trim_start (c ∷ s) = let rest = trim_start s in if is_whitespace c then rest else c ∷ s

unfoldable pub trim : Text → Text
trim s = reverse (trim_start (reverse (trim_start s)))

abbrev pub is_empty {ℓ} : {A : Type ℓ} → List A → Bool
is_empty [] = true
is_empty (x ∷ xs) = false

-- `value.trim().is_empty()`
unfoldable pub is_blank : Text → Bool
is_blank s = is_empty (trim s)

pub record NameClaim : Type 0 where
  pub signal : Signal
  pub addresses : List IpAddr

unfoldable pub claim_matches : NameClaim → List IpAddr → Bool
claim_matches c addresses = any (contains addresses) c.addresses
