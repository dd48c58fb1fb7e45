-- ===== src/Types/Mac/Roundtrip.antt =====
-- src/types.rs: `Display` and `FromStr` of a hardware address, one after the other.
use netgraspd.Base.{
  ℕ, ◌/◌, ◌%◌, ◌≤◌, ◌<◌, ◌≡◌, refl, true, false, not, List, [], ◌∷◌, some, keep_if, any, Text,
  arith,
}
use netgraspd.Types.Mac.{
  MacAddr, IsMac, lower_digit, lower_octet, colon_octets, octets, mac_text, is_separator,
  is_hex_digit, digit_value, pairs, parse_mac,
}

digit_facts :
    (d : ℕ)
    → d < 16
    → (digit_value (lower_digit d) ≡ d)
      × (is_separator (lower_digit d) ≡ false)
      × (is_hex_digit (lower_digit d) ≡ true)
unfolding digit_value lower_digit is_separator is_hex_digit
digit_facts d h = (ground arith, ground arith, ground arith)

-- Hexadecimal text of a list of bytes, with no separators.
plain_octets : List ℕ → Text
plain_octets [] = []
plain_octets (b ∷ bs) = lower_digit (b / 16) ∷ lower_digit (b % 16) ∷ plain_octets bs

abbrev AllBytes : List ℕ → Type 0
AllBytes [] = Unit {0}
AllBytes (b ∷ bs) = (b ≤ 255) × AllBytes bs

clean-colon_octets :
    (bs : List ℕ)
    → AllBytes bs
    → keep_if (λ c. not (is_separator c)) (colon_octets bs) ≡ plain_octets bs
unfolding colon_octets plain_octets lower_octet is_separator
clean-colon_octets [] h = refl
clean-colon_octets (b ∷ []) h = ground (arith, digit_facts (b / 16), digit_facts (b % 16))
clean-colon_octets (b ∷ c ∷ bs) h =
    ground (arith, digit_facts (b / 16), digit_facts (b % 16), clean-colon_octets (c ∷ bs) h.1)

pairs-plain_octets : (bs : List ℕ) → AllBytes bs → pairs (plain_octets bs) ≡ bs
unfolding plain_octets pairs
pairs-plain_octets [] h = refl
pairs-plain_octets (b ∷ bs) h =
    ground (arith, digit_facts (b / 16), digit_facts (b % 16), pairs-plain_octets bs h.1)

no_bad_digit :
    (bs : List ℕ) → AllBytes bs → any (λ c. not (is_hex_digit c)) (plain_octets bs) ≡ false
unfolding plain_octets
no_bad_digit [] h = refl
no_bad_digit (b ∷ bs) h =
    ground (arith, digit_facts (b / 16), digit_facts (b % 16), no_bad_digit bs h.1)

-- Reading the text of any hardware address gives that address back.
pub parse_mac-mac_text : (m : MacAddr) → IsMac m → parse_mac (mac_text m) ≡ some m
unfolding parse_mac mac_text plain_octets
parse_mac-mac_text m h =
    let bytes : AllBytes (octets m) = omega arith in
    ground (
      arith,
      clean-colon_octets (octets m) bytes,
      no_bad_digit (octets m) bytes,
      pairs-plain_octets (octets m) bytes,
    )
