-- ===== src/Wgmgr/Router.antt =====
-- client/internal/wgmgr/nsrouter.go: the userspace router of netstack peers. What gVisor and the
-- host's sockets do is outside: an endpoint that cannot be created is an argument, and a connection
-- that is made is the answer `dialed`, with the address that the host dials.
pub mod Forwarding
pub mod Capacity
use blinex.Prelude.{
  ℕ, suc, ◌+◌, ◌-◌, ◌*◌, ◌/◌, ◌%◌, Bool, true, false, not, ◌&&◌, ◌||◌, Option, none, some, List, [],
  ◌∷◌, ltb, leb, ◌==◌, nat_eq, if◌then◌else◌, length, drop,
}
use blinex.Prelude.Text.{Text, text, text_eq}
use blinex.Netip.{
  Addr, Prefix, contains, is_loopback, is_unspecified, is_link_local_unicast, is_multicast,
  is_private,
}
use blinex.Wgmgr.Acl.{Rule, acl_allows}
use blinex.Wgmgr.Packet.{Packet, byte, addr_at, header_len}

abbrev pub max_concurrent_forwards : ℕ
max_concurrent_forwards = 1024

abbrev pub max_concurrent_icmp : ℕ
max_concurrent_icmp = 64

-- `RoutingNet`, less the gVisor stack. The two semaphores are the number of tokens that they hold.
pub record Router : Type 0 where
  pub local_addr : Addr
  pub sem : ℕ
  pub icmp_sem : ℕ
  pub subnets : List Prefix
  pub acl_rules : List Rule

unfoldable pub set_subnets : Router → List Prefix → Router
set_subnets n subnets = record n { subnets = subnets }

unfoldable pub set_acl_rules : Router → List Rule → Router
set_acl_rules n rules = record n { acl_rules = rules }

-- `acquire`: `none` at capacity.
unfoldable pub acquire : Router → Option Router
acquire n = if ltb n.sem max_concurrent_forwards then some (record n { sem = n.sem + 1 }) else none

-- `release` waits for a token, and is called where one is held.
unfoldable pub release : Router → Router
release n = record n { sem = n.sem - 1 }

unfoldable pub acquire_icmp : Router → Option Router
acquire_icmp n =
    if ltb n.icmp_sem max_concurrent_icmp
    then some (record n { icmp_sem = n.icmp_sem + 1 })
    else none

unfoldable pub release_icmp : Router → Router
release_icmp n = record n { icmp_sem = n.icmp_sem - 1 }

-- `netip.MustParsePrefix("100.64.0.0/10")`
abbrev pub mesh_exclude : Prefix
mesh_exclude = record { addr = 1681915904; bits = 10 }

-- The loop of `shouldForward`.
covered : List Prefix → Addr → Bool
covered [] dst = false
covered (s ∷ subnets) dst =
    let next = covered subnets dst in
    if not (contains s dst) then next else if s.bits == 0 && is_private dst then next else true

unfoldable pub should_forward : Router → Addr → Bool
unfolding covered
should_forward n dst =
    if is_loopback dst
      || is_unspecified dst
      || is_link_local_unicast dst
      || is_multicast dst
      || contains mesh_exclude dst
    then false
    else covered n.subnets dst

-- How a request ends. `reset` is a TCP reset, `dropped` is silence.
pub data Outcome : Type 0 where
  reset : Outcome
  dropped : Outcome
  dialed : Addr → ℕ → Outcome

-- `127.0.0.1`
abbrev pub localhost : Addr
localhost = 2130706433

-- The policy test of a request: skipped where the source is no address.
abbrev denied : Router → Option Addr → Addr → Text → ℕ → Bool
denied n none dst proto port = false
denied n (some src) dst proto port = not (acl_allows n.acl_rules src dst proto port)

-- Behind the policy: take a token, create the endpoint, and dial.
connect : Router → Outcome → Bool → Addr → ℕ → Option Router → Outcome × Router
connect n refused endpoint_ok target port none = (refused, n)
connect n refused endpoint_ok target port (some n') =
    if endpoint_ok then (dialed target port, n') else (refused, release n')

-- `handleTCP`, up to the goroutine that relays: it calls `release` when it ends.
unfoldable pub handle_tcp : Router → Option Addr → Option Addr → ℕ → Bool → Outcome × Router
unfolding connect
handle_tcp n src none port endpoint_ok = (reset, n)
handle_tcp n src (some dst) port endpoint_ok =
    let to_local_service = dst == n.local_addr in
    if not to_local_service && not (should_forward n dst)
    then (reset, n)
    else if denied n src dst (text "tcp") port
    then (reset, n)
    else connect n reset endpoint_ok (if to_local_service then localhost else dst) port (acquire n)

-- `handleUDP`
unfoldable pub handle_udp : Router → Option Addr → Option Addr → ℕ → Bool → Outcome × Router
unfolding connect
handle_udp n src none port endpoint_ok = (dropped, n)
handle_udp n src (some dst) port endpoint_ok =
    if not (should_forward n dst)
    then (dropped, n)
    else if denied n src dst (text "udp") port
    then (dropped, n)
    else connect n dropped endpoint_ok dst port (acquire n)

-- `interceptICMPv4`: not intercepted, consumed without an answer, or pinged from the host.
pub data Intercept : Type 0 where
  pass : Intercept
  consumed : Intercept
  pinged : Addr → Addr → Packet → Intercept

ping : Router → Addr → Addr → Packet → Option Router → Intercept × Router
ping n src dst msg none = (consumed, n)
ping n src dst msg (some n') = (pinged src dst msg, n')

unfoldable pub intercept_icmpv4 : Router → Packet → Intercept × Router
unfolding ping
intercept_icmpv4 n packet =
    let ihl = header_len packet in
    let src = addr_at packet 12 in
    let dst = addr_at packet 16 in
    if ltb (length packet) 20 || not (byte packet 0 / 16 == 4)
    then (pass, n)
    else if not (byte packet 9 == 1)
    then (pass, n)
    else if ltb ihl 20 || ltb (length packet) (ihl + 8)
    then (pass, n)
    else if not (byte packet ihl == 8)
    then (pass, n)
    else if not (should_forward n dst)
    then (pass, n)
    else if not (acl_allows n.acl_rules src dst (text "icmp") 0)
    then (consumed, n)
    else ping n src dst (drop ihl packet) (acquire_icmp n)
