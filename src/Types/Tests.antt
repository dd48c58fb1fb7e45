-- ===== src/Types/Tests.antt =====
-- The text of a hardware address, at one.
use netgraspd.Base.{◌≡◌, some, arith}
use netgraspd.Types.Mac.{MacAddr, IsMac, mac_text, parse_mac}
use netgraspd.Types.Mac.Roundtrip.{parse_mac-mac_text}

abbrev printer : MacAddr
printer = record { o0 = 0x00; o1 = 0x1b; o2 = 0xa9; o3 = 0x0f; o4 = 0xff; o5 = 0x42 }

abbrev printer-IsMac : IsMac printer
printer-IsMac = record {
  b0 = omega arith;
  b1 = omega arith;
  b2 = omega arith;
  b3 = omega arith;
  b4 = omega arith;
  b5 = omega arith;
}

parse_mac-mac_text_example : parse_mac (mac_text printer) ≡ some printer
parse_mac-mac_text_example = parse_mac-mac_text printer printer-IsMac
