-- ===== src/Management/Ipam.antt =====
-- management/internal/grpcserver/ipam.go. A host address is a `uint32`: sums are taken modulo 2 ^ 32.
-- The network is the IPv4 prefix that the server is configured with.
pub mod Leases
pub mod Restart
use blinex.Prelude.{
  ℕ, ◌+◌, ◌-◌, ◌*◌, ◌/◌, ◌%◌, ◌^◌, Bool, true, false, Option, none, some, List, [], ◌∷◌, ltb, leb,
  if◌then◌else◌,
}
use blinex.Prelude.Text.{Text, text_eq}
use blinex.Prelude.Dict.{Dict, get, put, remove}
use blinex.Netip.{Addr, Prefix, parse_addr, parse_prefix}
use blinex.Netip.Print.{addr_text}

pub record Ipam : Type 0 where
  pub network : Prefix
  pub next : ℕ
  pub leased : Dict Text Addr

-- `binary.BigEndian.Uint32(network.IP)`: `net.ParseCIDR` has cleared the host bits.
abbrev pub base : Prefix → Addr
base p = p.addr / 2 ^ (32 - p.bits) * 2 ^ (32 - p.bits)

-- `base | ^mask`: the host bits, which are clear in `base`, are set.
abbrev pub broadcast : Prefix → Addr
broadcast p = base p + (2 ^ (32 - p.bits) - 1)

init : Option Prefix → Option Ipam
init none = none
init (some p) = some (record { network = p; next = (base p + 1) % 2 ^ 32; leased = [] })

-- `NewIPAM`
unfoldable pub new_ipam : Text → Option Ipam
unfolding init
new_ipam cidr = init (parse_prefix cidr)

lease : Ipam → Text → Option Addr → Option Addr × Ipam
lease i key (some host) = (some host, i)
lease i key none =
    if leb (broadcast i.network) i.next
    then (none, i)
    else (some i.next, record i { next = (i.next + 1) % 2 ^ 32; leased = put i.leased key i.next })

-- The host that `Allocate` settles on; `none` is "IPAM pool exhausted".
unfoldable pub allocate_host : Ipam → Text → Option Addr × Ipam
unfolding lease
allocate_host i key = lease i key (get i.leased key)

ip_text : Option Addr → Option Text
ip_text none = none
ip_text (some host) = some (addr_text host)

-- `Allocate`
unfoldable pub allocate : Ipam → Text → Option Text × Ipam
unfolding ip_text
allocate i key = let (host, i') = allocate_host i key in (ip_text host, i')

-- `Release`
unfoldable pub release : Ipam → Text → Ipam
release i key = record i { leased = remove i.leased key }

restore : Ipam → Text → Option Addr → Ipam
restore i key none = i
restore i key (some host) = record i {
  next = if leb i.next host then (host + 1) % 2 ^ 32 else i.next;
  leased = put i.leased key host;
}

-- `PreloadPeers`, on the key and the IP of each peer. An empty text parses as no address.
unfoldable pub preload_peers : Ipam → List (Text × Text) → Ipam
unfolding restore
preload_peers i [] = i
preload_peers i ((key, ip) ∷ peers) = preload_peers (restore i key (parse_addr ip)) peers
