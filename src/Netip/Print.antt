-- ===== src/Netip/Print.antt =====
-- `net.IP.String` on four bytes, and that parsing gives the address back.
use blinex.Prelude.{
  ℕ, ◌+◌, ◌*◌, ◌/◌, ◌%◌, ◌^◌, ◌<◌, ◌≡◌, refl, ap, ◌∙◌, some, [], ◌∷◌, ◌++◌, arith, ltb, nat_eq,
  if◌then◌else◌,
}
use blinex.Prelude.Text.{Text, split}
use blinex.Netip.{Addr, parse_addr, digits_to, decimal, octets, address}

-- A byte in decimal.
unfoldable pub byte_text : ℕ → Text
byte_text b =
    if ltb b 10
    then (b'0' + b) ∷ []
    else if ltb b 100
    then (b'0' + b / 10) ∷ (b'0' + b % 10) ∷ []
    else (b'0' + b / 100) ∷ (b'0' + b / 10 % 10) ∷ (b'0' + b % 10) ∷ []

unfoldable pub addr_text : Addr → Text
addr_text a =
    byte_text (a / 2 ^ 24)
    ++ b'.'
      ∷ (byte_text (a / 2 ^ 16 % 256)
          ++ b'.' ∷ (byte_text (a / 2 ^ 8 % 256) ++ b'.' ∷ byte_text (a % 256)))

decimal-byte_text : (b : ℕ) → b < 256 → decimal 255 (byte_text b) ≡ some b
unfolding decimal byte_text digits_to
decimal-byte_text b h = ground arith

split-byte_text :
    (b : ℕ) (s : Text) → b < 256 → split b'.' (byte_text b ++ b'.' ∷ s) ≡ byte_text b ∷ split b'.' s
unfolding split byte_text
split-byte_text b s h = ground arith

split_last : (b : ℕ) → b < 256 → split b'.' (byte_text b) ≡ byte_text b ∷ []
unfolding split byte_text
split_last b h = ground arith

parse_addr-bytes :
    (w x y z : ℕ)
    → w < 256
    → x < 256
    → y < 256
    → z < 256
    → parse_addr (byte_text w ++ b'.' ∷ (byte_text x ++ b'.' ∷ (byte_text y ++ b'.' ∷ byte_text z)))
      ≡ some (((w * 256 + x) * 256 + y) * 256 + z)
unfolding parse_addr octets address
parse_addr-bytes w x y z hw hx hy hz =
    rw
      (
        split-byte_text w (byte_text x ++ b'.' ∷ (byte_text y ++ b'.' ∷ byte_text z)) hw,
        split-byte_text x (byte_text y ++ b'.' ∷ byte_text z) hx,
        split-byte_text y (byte_text z) hy,
        split_last z hz,
      )
      (rw
        (
          decimal-byte_text w hw,
          decimal-byte_text x hx,
          decimal-byte_text y hy,
          decimal-byte_text z hz,
        )
        refl)

-- Every 32-bit address is printed as a text that parses to it.
pub parse_addr-addr_text : (a : Addr) → a < 2 ^ 32 → parse_addr (addr_text a) ≡ some a
unfolding addr_text
parse_addr-addr_text a h =
    parse_addr-bytes (a / 2 ^ 24) (a / 2 ^ 16 % 256) (a / 2 ^ 8 % 256) (a % 256) (omega arith)
      (omega arith) (omega arith) (omega arith)
    ∙ ap some (omega arith)
