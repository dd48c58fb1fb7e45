-- ===== src/Types/Mac.antt =====
-- src/types.rs: the hardware address, its text form and its tests.
pub mod Roundtrip
use netgraspd.Base.{
  ℕ, ◌+◌, ◌-◌, ◌*◌, ◌/◌, ◌%◌, ◌≤◌, ◌≡◌, ◌↔◌, Bool, true, ◌&&◌, ◌||◌, not, List, [], ◌∷◌, ◌++◌,
  Option, none, some, Eq, Text, eqb, leb, ltb, if◌then◌else◌, length, keep_if, any, take, arith,
}

pub record MacAddr : Type 0 where
  pub o0 : ℕ
  pub o1 : ℕ
  pub o2 : ℕ
  pub o3 : ℕ
  pub o4 : ℕ
  pub o5 : ℕ

unfoldable pub mac_beq : MacAddr → MacAddr → Bool
mac_beq a b =
    eqb a.o0 b.o0
    && (eqb a.o1 b.o1 && (eqb a.o2 b.o2 && (eqb a.o3 b.o3 && (eqb a.o4 b.o4 && eqb a.o5 b.o5))))

pub mac_beq_iff : (a b : MacAddr) → (mac_beq a b ≡ true) ↔ (a ≡ b)
unfolding mac_beq
mac_beq_iff a b = ground arith

instance abbrev pub mac_eq : Eq MacAddr
mac_eq = record { beq = mac_beq; beq_iff = mac_beq_iff }

-- Each octet is a byte.
pub record IsMac (m : MacAddr) : Type 0 where
  pub b0 : m.o0 ≤ 255
  pub b1 : m.o1 ≤ 255
  pub b2 : m.o2 ≤ 255
  pub b3 : m.o3 ≤ 255
  pub b4 : m.o4 ≤ 255
  pub b5 : m.o5 ≤ 255

-- `self.0[0] & 0x01 != 0`
unfoldable pub is_group : MacAddr → Bool
is_group m = eqb (m.o0 % 2) 1

unfoldable pub is_zero : MacAddr → Bool
is_zero m = eqb m.o0 0 && (eqb m.o1 0 && (eqb m.o2 0 && (eqb m.o3 0 && (eqb m.o4 0 && eqb m.o5 0))))

-- `self.0[0] & 0x02 != 0`
unfoldable pub is_locally_administered : MacAddr → Bool
is_locally_administered m = eqb (m.o0 / 2 % 2) 1

abbrev pub octets : MacAddr → List ℕ
octets m = m.o0 ∷ m.o1 ∷ m.o2 ∷ m.o3 ∷ m.o4 ∷ m.o5 ∷ []

-- A hexadecimal digit, lower or upper case.
unfoldable pub lower_digit : ℕ → ℕ
lower_digit d = if ltb d 10 then d + b'0' else d - 10 + b'a'

unfoldable pub upper_digit : ℕ → ℕ
upper_digit d = if ltb d 10 then d + b'0' else d - 10 + b'A'

-- `{b:02x}` and `{b:02X}`
unfoldable pub lower_octet : ℕ → Text
unfolding lower_digit
lower_octet b = lower_digit (b / 16) ∷ lower_digit (b % 16) ∷ []

unfoldable pub upper_octet : ℕ → Text
unfolding upper_digit
upper_octet b = upper_digit (b / 16) ∷ upper_digit (b % 16) ∷ []

upper_octets : List ℕ → Text
upper_octets [] = []
upper_octets (b ∷ bs) = upper_octet b ++ upper_octets bs

unfoldable pub hex_prefix : MacAddr → ℕ → Text
unfolding upper_octets upper_octet
hex_prefix m nibbles = take (if leb nibbles 12 then nibbles else 12) (upper_octets (octets m))

-- `Display`: lowercase hexadecimal, colon separated.
colon_octets : List ℕ → Text
unfolding lower_octet
colon_octets [] = []
colon_octets (b ∷ []) = lower_octet b
colon_octets (b ∷ c ∷ bs) = lower_octet b ++ (b':' ∷ colon_octets (c ∷ bs))

unfoldable pub mac_text : MacAddr → Text
unfolding colon_octets
mac_text m = colon_octets (octets m)

unfoldable pub is_separator : ℕ → Bool
is_separator c = eqb c b':' || (eqb c b'-' || (eqb c b'.' || eqb c b' '))

unfoldable pub is_hex_digit : ℕ → Bool
is_hex_digit c =
    (leb b'0' c && leb c b'9') || ((leb b'a' c && leb c b'f') || (leb b'A' c && leb c b'F'))

unfoldable pub digit_value : ℕ → ℕ
digit_value c = if leb b'a' c then c - b'a' + 10 else if leb b'A' c then c - b'A' + 10 else c - b'0'

pairs : Text → List ℕ
unfolding digit_value
pairs (hi ∷ lo ∷ rest) = (digit_value hi * 16 + digit_value lo) ∷ pairs rest
pairs _ = []

mac_of : List ℕ → Option MacAddr
mac_of (a ∷ b ∷ c ∷ d ∷ e ∷ f ∷ []) =
    some (record { o0 = a; o1 = b; o2 = c; o3 = d; o4 = e; o5 = f })
mac_of _ = none

-- `FromStr`: `none` is the error, which carries the text back. A character that is not ASCII is
-- no hexadecimal digit, so the length in characters and the length in bytes reject alike.
unfoldable pub parse_mac : Text → Option MacAddr
unfolding is_separator is_hex_digit pairs mac_of
parse_mac s =
    let hex = keep_if (λ c. not (is_separator c)) s in
    if not (eqb (length hex) 12) || any (λ c. not (is_hex_digit c)) hex
    then none
    else mac_of (pairs hex)
