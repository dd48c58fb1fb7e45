-- ===== src/Types/Net.antt =====
-- The standard library's IP addresses, as far as the program reads them: an IPv4 address is the
-- number of its 32 bits, an IPv6 address that of its 128.
use netgraspd.Base.{ℕ, ◌-◌, ◌/◌, ◌^◌, ◌≡◌, ◌↔◌, Bool, true, false, ◌&&◌, not, Eq, eqb, arith}

pub data IpAddr : Type 0 where
  v4 : ℕ → IpAddr
  v6 : ℕ → IpAddr

unfoldable pub ip_beq : IpAddr → IpAddr → Bool
ip_beq (v4 a) (v4 b) = eqb a b
ip_beq (v4 a) (v6 b) = false
ip_beq (v6 a) (v4 b) = false
ip_beq (v6 a) (v6 b) = eqb a b

pub ip_beq_iff : (a b : IpAddr) → (ip_beq a b ≡ true) ↔ (a ≡ b)
unfolding ip_beq
ip_beq_iff (v4 a) (v4 b) = ground arith
ip_beq_iff (v4 a) (v6 b) = ground arith
ip_beq_iff (v6 a) (v4 b) = ground arith
ip_beq_iff (v6 a) (v6 b) = ground arith

instance abbrev pub ip_eq : Eq IpAddr
ip_eq = record { beq = ip_beq; beq_iff = ip_beq_iff }

-- 0.0.0.0, 255.255.255.255 and 224.0.0.0/4.
unfoldable pub v4_unspecified : ℕ → Bool
v4_unspecified a = eqb a 0

unfoldable pub v4_broadcast : ℕ → Bool
v4_broadcast a = eqb a (2 ^ 32 - 1)

unfoldable pub v4_multicast : ℕ → Bool
v4_multicast a = eqb (a / 2 ^ 28) 14

-- :: and ff00::/8.
unfoldable pub v6_unspecified : ℕ → Bool
v6_unspecified a = eqb a 0

unfoldable pub v6_multicast : ℕ → Bool
v6_multicast a = eqb (a / 2 ^ 120) 255

-- capture/ndp.rs: fe80::/10, a prefix test on the first two bytes.
unfoldable pub is_link_local : ℕ → Bool
is_link_local a = eqb (a / 2 ^ 118) (0xfe80 / 2 ^ 6)

-- device/mod.rs: whether an address is worth writing to the address history.
unfoldable pub is_recordable : IpAddr → Bool
unfolding v4_unspecified v4_multicast v4_broadcast v6_unspecified v6_multicast
is_recordable (v4 a) = not (v4_unspecified a) && (not (v4_multicast a) && not (v4_broadcast a))
is_recordable (v6 a) = not (v6_unspecified a) && not (v6_multicast a)
