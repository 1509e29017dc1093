-- ===== src/Egress/Addresses.antt =====
-- crates/sa-tools/src/egress.rs: the classes of addresses. `std` reads an IPv4 address as four octets
-- and an IPv6 address as eight segments of 16 bits.
use secretagent_rust_agent.Base.{
  ℕ, ◌/◌, ◌%◌, String, Bool, true, false, ◌&&◌, ◌||◌, Option, none, some, nat_eq, leb, any,
}
use secretagent_rust_agent.Policy.{Policy}
use Prim.Native.Nat.{bit_and}

pub data IpAddr : Type 0 where
  v4 : ℕ → ℕ → ℕ → ℕ → IpAddr
  v6 : ℕ → ℕ → ℕ → ℕ → ℕ → ℕ → ℕ → ℕ → IpAddr

unfoldable pub ip_eq : IpAddr → IpAddr → Bool
ip_eq (v4 a b c d) (v4 a' b' c' d') = nat_eq a a' && nat_eq b b' && nat_eq c c' && nat_eq d d'
ip_eq (v6 a b c d e f g h) (v6 a' b' c' d' e' f' g' h') =
    nat_eq a a'
    && nat_eq b b'
    && nat_eq c c'
    && nat_eq d d'
    && nat_eq e e'
    && nat_eq f f'
    && nat_eq g g'
    && nat_eq h h'
ip_eq _ _ = false

-- The methods of `std::net::Ipv4Addr` in the source's order, and the carrier-grade range.
unfoldable pub is_blocked_v4 : ℕ → ℕ → ℕ → ℕ → Bool
is_blocked_v4 a b c d =
    nat_eq a 127
    || (nat_eq a 10 || (nat_eq a 172 && (leb 16 b && leb b 31)) || (nat_eq a 192 && nat_eq b 168))
    || (nat_eq a 169 && nat_eq b 254)
    || (nat_eq a 0 && nat_eq b 0 && nat_eq c 0 && nat_eq d 0)
    || (nat_eq a 255 && nat_eq b 255 && nat_eq c 255 && nat_eq d 255)
    || (leb 224 a && leb a 239)
    || ((nat_eq a 192 && nat_eq b 0 && nat_eq c 2)
        || (nat_eq a 198 && nat_eq b 51 && nat_eq c 100)
        || (nat_eq a 203 && nat_eq b 0 && nat_eq c 113))
    || (nat_eq a 100 && nat_eq (bit_and b 0xc0) 0x40)

unfoldable pub is_blocked_v6 : ℕ → ℕ → ℕ → ℕ → ℕ → ℕ → ℕ → ℕ → Bool
is_blocked_v6 a b c d e f g h =
    (nat_eq a 0
      && nat_eq b 0
      && nat_eq c 0
      && nat_eq d 0
      && nat_eq e 0
      && nat_eq f 0
      && nat_eq g 0
      && nat_eq h 1)
    || (nat_eq a 0
        && nat_eq b 0
        && nat_eq c 0
        && nat_eq d 0
        && nat_eq e 0
        && nat_eq f 0
        && nat_eq g 0
        && nat_eq h 0)
    || nat_eq (bit_and a 0xff00) 0xff00
    || nat_eq (bit_and a 0xfe00) 0xfc00
    || nat_eq (bit_and a 0xffc0) 0xfe80

-- `to_ipv4_mapped`
unfoldable pub is_mapped : ℕ → ℕ → ℕ → ℕ → ℕ → ℕ → Bool
is_mapped a b c d e f =
    nat_eq a 0 && nat_eq b 0 && nat_eq c 0 && nat_eq d 0 && nat_eq e 0 && nat_eq f 0xffff

-- A mapped IPv4 address is unwrapped first.
unfoldable pub is_blocked_ip : IpAddr → Bool
unfolding is_blocked_v4 is_blocked_v6 is_mapped
is_blocked_ip (v4 a b c d) = is_blocked_v4 a b c d
is_blocked_ip (v6 a b c d e f g h) = elim (is_mapped a b c d e f) [
  | true ↦ is_blocked_v4 (g / 256) (g % 256) (h / 256) (h % 256)
  | false ↦ is_blocked_v6 a b c d e f g h
]

abbrev pub is_that : IpAddr → Option IpAddr → Bool
is_that ip none = false
is_that ip (some allowed) = ip_eq allowed ip

-- The addresses of the list are compared as addresses; a name is none.
unfoldable pub ip_explicitly_allowed : (String → Option IpAddr) → Policy → IpAddr → Bool
ip_explicitly_allowed parse_ip policy ip =
    any (λ (s : String). is_that ip (parse_ip s)) policy.egress_allow
