-- ===== src/Netip.antt =====
-- The part of Go's package `net/netip` that the agent calls, for IPv4. An address is the number
-- that its four bytes spell, below 2 ^ 32. A text that is no IPv4 address or prefix is `none`: an
-- IPv6 text parses in Go, but neither equals nor contains an IPv4 address, so it matches as little.
pub mod Print
use blinex.Prelude.{
  ℕ, zero, suc, ◌+◌, ◌-◌, ◌*◌, ◌/◌, ◌%◌, ◌^◌, ◌≤◌, ◌<◌, ◌≡◌, refl, Bool, true, false, ◌&&◌, ◌||◌,
  Option, none, some, List, [], ◌∷◌, arith, ltb, leb, ◌==◌, nat_eq, if◌then◌else◌,
}
use blinex.Prelude.Text.{Text, text, split}

abbrev pub Addr : Type 0
Addr = ℕ

pub record Prefix : Type 0 where
  pub addr : Addr
  pub bits : ℕ

-- The digits that are left, after a value; `none` at another byte or past the limit.
digits_to : ℕ → ℕ → Text → Option ℕ
digits_to limit v [] = some v
digits_to limit v (c ∷ s) =
    let rest = digits_to limit (v * 10 + (c - b'0')) s in
    if leb b'0' c && leb c b'9' && leb (v * 10 + (c - b'0')) limit then rest else none

-- A decimal number up to a limit, with no leading zero.
unfoldable pub decimal : ℕ → Text → Option ℕ
unfolding digits_to
decimal limit [] = none
decimal limit (c ∷ []) = digits_to limit 0 (c ∷ [])
decimal limit (c ∷ d ∷ s) = if c == b'0' then none else digits_to limit 0 (c ∷ d ∷ s)

address : List (Option ℕ) → Option Addr
address (some a ∷ some b ∷ some c ∷ some d ∷ []) = some (((a * 256 + b) * 256 + c) * 256 + d)
address _ = none

octets : List Text → List (Option ℕ)
octets [] = []
octets (p ∷ ps) = decimal 255 p ∷ octets ps

-- `netip.ParseAddr`
unfoldable pub parse_addr : Text → Option Addr
unfolding address octets decimal split
parse_addr s = address (octets (split b'.' s))

prefix : Option Addr → Option ℕ → Option Prefix
prefix (some a) (some n) = some (record { addr = a; bits = n })
prefix _ _ = none

parse_parts : List Text → Option Prefix
unfolding prefix parse_addr
parse_parts (a ∷ n ∷ []) = prefix (parse_addr a) (decimal 32 n)
parse_parts _ = none

-- `netip.ParsePrefix`
unfoldable pub parse_prefix : Text → Option Prefix
unfolding parse_parts
parse_prefix s = parse_parts (split b'/' s)

cidr_parts : List Text → Option Prefix
unfolding prefix parse_addr digits_to
cidr_parts (a ∷ [] ∷ []) = none
cidr_parts (a ∷ (c ∷ n) ∷ []) = prefix (parse_addr a) (digits_to 32 0 (c ∷ n))
cidr_parts _ = none

-- `net.ParseCIDR`, which lets the length begin with zeros.
unfoldable pub parse_cidr : Text → Option Prefix
unfolding cidr_parts
parse_cidr s = cidr_parts (split b'/' s)

-- `Prefix.Contains`: the first `bits` bits agree.
unfoldable pub contains : Prefix → Addr → Bool
contains p a = p.addr / 2 ^ (32 - p.bits) == a / 2 ^ (32 - p.bits)

-- Byte `i` of an address, from the front.
abbrev byte0 : Addr → ℕ
byte0 a = a / 2 ^ 24

abbrev byte1 : Addr → ℕ
byte1 a = a / 2 ^ 16 % 256

unfoldable pub is_loopback : Addr → Bool
is_loopback a = byte0 a == 127

unfoldable pub is_unspecified : Addr → Bool
is_unspecified a = a == 0

unfoldable pub is_link_local_unicast : Addr → Bool
is_link_local_unicast a = byte0 a == 169 && byte1 a == 254

unfoldable pub is_multicast : Addr → Bool
is_multicast a = byte0 a / 16 == 14

-- RFC 1918
unfoldable pub is_private : Addr → Bool
is_private a =
    byte0 a == 10 || (byte0 a == 172 && byte1 a / 16 == 1) || (byte0 a == 192 && byte1 a == 168)

parse_mesh : parse_prefix (text "100.64.0.0/10") ≡ some (record { addr = 1681915904; bits = 10 })
unfolding parse_prefix
parse_mesh = refl

parse_bad :
    (parse_addr (text "10.0.0") ≡ none)
    × (parse_addr (text "10.0.0.256") ≡ none)
    × (parse_addr (text "10.0.00.1") ≡ none)
    × (parse_prefix (text "group:a") ≡ none)
    × (parse_prefix (text "10.0.0.0/33") ≡ none)
unfolding parse_addr parse_prefix
parse_bad = (refl, refl, refl, refl, refl)
