-- ===== src/Wgmgr/Packet.antt =====
-- Raw IPv4 packets as lists of bytes, and the flow keys of client/internal/wgmgr/conntrack.go.
-- `netip.AddrFromSlice` never fails on four bytes, so its flag is not modelled.
use blinex.Prelude.{
  ℕ, ◌+◌, ◌*◌, ◌/◌, ◌%◌, ◌≡◌, refl, ◌↔◌, Bool, true, not, ◌&&◌, ◌||◌, Option, none, some, List,
  arith, ltb, Eq, ◌==◌, nat_eq, nat_beq, if◌then◌else◌, length, get_or,
}
use blinex.Netip.{Addr}

abbrev pub Packet : Type 0
Packet = List ℕ

abbrev pub byte : Packet → ℕ → ℕ
byte pkt i = get_or pkt i 0

-- `binary.BigEndian.Uint16(pkt[i : i+2])`
abbrev pub word16 : Packet → ℕ → ℕ
word16 pkt i = byte pkt i * 256 + byte pkt (i + 1)

-- `netip.AddrFromSlice(pkt[i : i+4])`
abbrev pub addr_at : Packet → ℕ → Addr
addr_at pkt i =
    ((byte pkt i * 256 + byte pkt (i + 1)) * 256 + byte pkt (i + 2)) * 256 + byte pkt (i + 3)

-- `int(pkt[0]&0x0f) * 4`
abbrev pub header_len : Packet → ℕ
header_len pkt = byte pkt 0 % 16 * 4

-- The two guards that every reader of packets begins with: an IPv4 header that is whole.
unfoldable pub has_header : Packet → Bool
has_header pkt =
    not (ltb (length pkt) 20 || not (byte pkt 0 / 16 == 4))
    && not (ltb (header_len pkt) 20 || ltb (length pkt) (header_len pkt))

pub record FlowKey : Type 0 where
  pub proto : ℕ
  pub src : Addr
  pub dst : Addr
  pub sport : ℕ
  pub dport : ℕ

unfoldable pub flow_beq : FlowKey → FlowKey → Bool
flow_beq a b =
    nat_beq a.proto b.proto
    && nat_beq a.src b.src
    && nat_beq a.dst b.dst
    && nat_beq a.sport b.sport
    && nat_beq a.dport b.dport

pub flow_beq_iff : (a b : FlowKey) → (flow_beq a b ≡ true) ↔ (a ≡ b)
unfolding flow_beq
flow_beq_iff a b = ground arith

instance abbrev pub flow_eq : Eq FlowKey
flow_eq = record { beq = flow_beq; beq_iff = flow_beq_iff }

unfoldable pub reverse : FlowKey → FlowKey
reverse k = record { proto = k.proto; src = k.dst; dst = k.src; sport = k.dport; dport = k.sport }

abbrev flow : Packet → ℕ → ℕ → FlowKey
flow pkt sport dport = record {
  proto = byte pkt 9;
  src = addr_at pkt 12;
  dst = addr_at pkt 16;
  sport = sport;
  dport = dport;
}

unfoldable pub parse_flow_key : Packet → Option FlowKey
parse_flow_key pkt =
    let ihl = header_len pkt in
    if ltb (length pkt) 20 || not (byte pkt 0 / 16 == 4)
    then none
    else if ltb ihl 20 || ltb (length pkt) ihl
    then none
    else if byte pkt 9 == 6 || byte pkt 9 == 17
    then (if ltb (length pkt) (ihl + 4)
        then none
        else some (flow pkt (word16 pkt ihl) (word16 pkt (ihl + 2))))
    else if byte pkt 9 == 1
    then (if ltb (length pkt) (ihl + 6)
        then none
        else if not (byte pkt ihl == 8) && not (byte pkt ihl == 0)
        then none
        else some (flow pkt (word16 pkt (ihl + 4)) (word16 pkt (ihl + 4))))
    else none

pub reverse-reverse : (k : FlowKey) → reverse (reverse k) ≡ k
unfolding reverse
reverse-reverse k = refl
