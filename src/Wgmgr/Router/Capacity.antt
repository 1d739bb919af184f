-- ===== src/Wgmgr/Router/Capacity.antt =====
-- The bounds on what the router has in flight.
use blinex.Prelude.{ℕ, ◌+◌, ◌-◌, ◌≤◌, ◌<◌, ◌≡◌, Bool, Option, none, some, List, arith, nat_eq}
use blinex.Netip.{Addr, Prefix}
use blinex.Wgmgr.Acl.{Rule}
use blinex.Wgmgr.Packet.{Packet}
use blinex.Wgmgr.Router.{
  Router, Outcome, Intercept, reset, dropped, dialed, pass, consumed, pinged,
  max_concurrent_forwards, max_concurrent_icmp, handle_tcp, handle_udp, intercept_icmpv4, acquire,
  release, acquire_icmp, release_icmp, set_subnets, set_acl_rules,
}

-- The router with the relays and the pings that are still running.
pub record World : Type 0 where
  pub router : Router
  pub relays : ℕ
  pub pings : ℕ

abbrev pub relayed : Outcome → ℕ → ℕ
relayed (dialed _ _) n = n + 1
relayed _ n = n

abbrev pub pinging : Intercept → ℕ → ℕ
pinging (pinged _ _ _) n = n + 1
pinging _ n = n

abbrev pub after_tcp : World → Option Addr → Option Addr → ℕ → Bool → World
after_tcp w src dst port endpoint_ok =
    let r = handle_tcp w.router src dst port endpoint_ok in
    record { router = r.1; relays = relayed r.0 w.relays; pings = w.pings }

abbrev pub after_udp : World → Option Addr → Option Addr → ℕ → Bool → World
after_udp w src dst port endpoint_ok =
    let r = handle_udp w.router src dst port endpoint_ok in
    record { router = r.1; relays = relayed r.0 w.relays; pings = w.pings }

abbrev pub after_icmp : World → Packet → World
after_icmp w packet =
    let r = intercept_icmpv4 w.router packet in
    record { router = r.1; relays = w.relays; pings = pinging r.0 w.pings }

-- Requests arrive, relays and pings end, and the engine installs subnets and rules, in any order.
pub data Step : World → World → Type 0 where
  tcp :
      (w : World) (src dst : Option Addr) (port : ℕ) (endpoint_ok : Bool)
      → Step w (after_tcp w src dst port endpoint_ok)
  udp :
      (w : World) (src dst : Option Addr) (port : ℕ) (endpoint_ok : Bool)
      → Step w (after_udp w src dst port endpoint_ok)
  icmp : (w : World) (packet : Packet) → Step w (after_icmp w packet)
  relay_ends :
      (w : World)
      → 0 < w.relays
      → Step w (record { router = release w.router; relays = w.relays - 1; pings = w.pings })
  ping_ends :
      (w : World)
      → 0 < w.pings
      → Step w (record { router = release_icmp w.router; relays = w.relays; pings = w.pings - 1 })
  configure :
      (w : World) (subnets : List Prefix) (rules : List Rule)
      → Step w (record w { router = set_acl_rules (set_subnets w.router subnets) rules })

pub data Reach (s : World) : World → Type 0 where
  start : Reach s s
  next : {t u : World} → Reach s t → Step t u → Reach s u

-- Each token is held by one relay or ping that runs, and there are at most as many as the bounds.
pub record IsBounded (w : World) : Type 0 where
  pub forwards : w.router.sem ≡ w.relays
  pub icmp_forwards : w.router.icmp_sem ≡ w.pings
  pub forwards_bound : w.relays ≤ max_concurrent_forwards
  pub icmp_bound : w.pings ≤ max_concurrent_icmp

-- What a request leaves of the router's tokens.
pub record Counted (n : Router) (o : Outcome) (n' : Router) : Type 0 where
  pub tokens : n'.sem ≡ relayed o n.sem
  pub icmp_tokens : n'.icmp_sem ≡ n.icmp_sem
  pub room : n.sem ≤ max_concurrent_forwards → n'.sem ≤ max_concurrent_forwards

handle_tcp-Counted :
    (n : Router) (src dst : Option Addr) (port : ℕ) (ok : Bool)
    → Counted n (handle_tcp n src dst port ok).0 (handle_tcp n src dst port ok).1
unfolding handle_tcp acquire release
handle_tcp-Counted n src none port ok = ground arith
handle_tcp-Counted n src (some dst) port ok = ground arith

handle_udp-Counted :
    (n : Router) (src dst : Option Addr) (port : ℕ) (ok : Bool)
    → Counted n (handle_udp n src dst port ok).0 (handle_udp n src dst port ok).1
unfolding handle_udp acquire release
handle_udp-Counted n src none port ok = ground arith
handle_udp-Counted n src (some dst) port ok = ground arith

record Pinged (n : Router) (o : Intercept) (n' : Router) : Type 0 where
  tokens : n'.sem ≡ n.sem
  icmp_tokens : n'.icmp_sem ≡ pinging o n.icmp_sem
  room : n.icmp_sem ≤ max_concurrent_icmp → n'.icmp_sem ≤ max_concurrent_icmp

intercept_icmpv4-Pinged :
    (n : Router) (packet : Packet)
    → Pinged n (intercept_icmpv4 n packet).0 (intercept_icmpv4 n packet).1
unfolding intercept_icmpv4 acquire_icmp
intercept_icmpv4-Pinged n packet = ground arith

request :
    (o : Outcome) (n' : Router) (w : World)
    → Counted w.router o n'
    → IsBounded w
    → IsBounded (record { router = n'; relays = relayed o w.relays; pings = w.pings })
request reset n' w c h = omega arith
request dropped n' w c h = omega arith
request (dialed _ _) n' w c h = omega arith

echo :
    (o : Intercept) (n' : Router) (w : World)
    → Pinged w.router o n'
    → IsBounded w
    → IsBounded (record { router = n'; relays = w.relays; pings = pinging o w.pings })
echo pass n' w c h = omega arith
echo consumed n' w c h = omega arith
echo (pinged _ _ _) n' w c h = omega arith

Step-IsBounded : {w v : World} → Step w v → IsBounded w → IsBounded v
Step-IsBounded (tcp w src dst port ok) h =
    request (handle_tcp w.router src dst port ok).0 (handle_tcp w.router src dst port ok).1 w
      (handle_tcp-Counted w.router src dst port ok) h
Step-IsBounded (udp w src dst port ok) h =
    request (handle_udp w.router src dst port ok).0 (handle_udp w.router src dst port ok).1 w
      (handle_udp-Counted w.router src dst port ok) h
Step-IsBounded (icmp w packet) h =
    echo (intercept_icmpv4 w.router packet).0 (intercept_icmpv4 w.router packet).1 w
      (intercept_icmpv4-Pinged w.router packet) h
Step-IsBounded (relay_ends w p) h = unfold release in omega arith
Step-IsBounded (ping_ends w p) h = unfold release_icmp in omega arith
Step-IsBounded (configure w subnets rules) h = unfold set_acl_rules set_subnets in omega arith

-- Whatever requests arrive and whatever ends, in any order, each token of the two semaphores is held
-- by exactly one running relay or ping, and their numbers stay within the bounds.
pub Reach-IsBounded : {s w : World} → IsBounded s → Reach s w → IsBounded w
Reach-IsBounded h start = h
Reach-IsBounded h (next r st) = Step-IsBounded st (Reach-IsBounded h r)
