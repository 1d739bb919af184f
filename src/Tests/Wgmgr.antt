-- ===== src/Tests/Wgmgr.antt =====
-- The data path on concrete packets, rules and requests.
use blinex.Prelude.{
  ℕ, ◌-◌, ◌≤◌, ◌≡◌, refl, ◌↔◌, true, ◌&&◌, none, some, List, [], ◌∷◌, arith, nat_eq, if◌then◌else◌,
  All, Some,
}
use blinex.Prelude.Text.{text, text_eq, text_beq, to_lower, has_prefix}
use blinex.Prelude.Dict.{get, put, remove}
use blinex.Netip.{
  Addr, Prefix, parse_addr, parse_prefix, contains, is_loopback, is_unspecified,
  is_link_local_unicast, is_multicast, is_private,
}
use blinex.Wgmgr.Acl.{Rule, acl_allows, host_match, proto_match}
use blinex.Wgmgr.Acl.FirstMatch.{Decides, acl_allows_iff}
use blinex.Wgmgr.Packet.{
  Packet, FlowKey, flow_beq, reverse, parse_flow_key, byte, addr_at, has_header,
}
use blinex.Wgmgr.Conntrack.{conntrack_ttl, observe_outbound, allow_inbound}
use blinex.Wgmgr.Conntrack.Replies.{Event, after, run, Started, allow_inbound-Started}
use blinex.Wgmgr.Filter.{Filter, acl_filter_allows_for, proto_name, dest_port, local_addrs, write}
use blinex.Wgmgr.Filter.Policy.{is_policed, acl_filter_allows_for-eq}
use blinex.Wgmgr.Filter.Batch.{MayPass, write-MayPass}
use blinex.Wgmgr.Router.{Router, dialed, localhost, should_forward, handle_tcp, handle_udp, acquire}
use blinex.Wgmgr.Router.Forwarding.{Permitted, Target, handle_tcp-dialed}
use blinex.Wgmgr.Router.Capacity.{World, IsBounded, Reach, Step, after_udp, Reach-IsBounded}

-- 100.64.0.1 and 100.64.0.2
abbrev alice : Addr
alice = 1681915905

abbrev bob : Addr
bob = 1681915906

-- TCP from port 4660 of alice to port 80 of bob, and the reply to it.
abbrev request : Packet
request =
    69 ∷ 0 ∷ 0 ∷ 24 ∷ 0 ∷ 0 ∷ 0 ∷ 0 ∷ 64 ∷ 6 ∷ 0 ∷ 0 ∷ 100 ∷ 64 ∷ 0 ∷ 1 ∷ 100 ∷ 64 ∷ 0 ∷ 2 ∷ 18 ∷ 52
    ∷ 0 ∷ 80 ∷ []

abbrev response : Packet
response =
    69 ∷ 0 ∷ 0 ∷ 24 ∷ 0 ∷ 0 ∷ 0 ∷ 0 ∷ 64 ∷ 6 ∷ 0 ∷ 0 ∷ 100 ∷ 64 ∷ 0 ∷ 2 ∷ 100 ∷ 64 ∷ 0 ∷ 1 ∷ 0 ∷ 80
    ∷ 18 ∷ 52 ∷ []

abbrev web : Rule
web = record {
  id = [];
  name = [];
  src = text "100.64.0.0/10";
  dst = text "100.64.0.2";
  protocol = text "TCP";
  port = 80;
  action = text "allow";
  enabled = true;
  priority = 1;
}

abbrev ssh_denied : Rule
ssh_denied = record web { port = 22; action = text "deny" }

abbrev rules : List Rule
rules = ssh_denied ∷ web ∷ []

acl_allows_iff_example :
    (acl_allows rules alice bob (text "tcp") 80 ≡ true)
    ↔ ((r : Rule) × Decides alice bob (text "tcp") 80 rules r × (r.action ≡ text "allow"))
acl_allows_iff_example = acl_allows_iff alice bob (text "tcp") 80 rules

acl_filter_allows_for-eq_example : acl_filter_allows_for request rules (bob ∷ []) ≡ (
    if has_header request && is_policed request (bob ∷ [])
    then acl_allows rules
        (addr_at request 12)
        (addr_at request 16)
        (proto_name (byte request 9))
        (dest_port request)
    else true)
acl_filter_allows_for-eq_example = acl_filter_allows_for-eq request rules (bob ∷ [])

abbrev filtering : Filter
filtering = record { rules = rules; rules_set = true; local_cache = none; local_at = 0; flows = [] }

write-MayPass_example :
    All
      (MayPass rules (local_addrs filtering (some (bob ∷ [])) 9).0 0 [] ((9, request) ∷ []))
      (write filtering (some (bob ∷ [])) 9 ((9, request) ∷ []) 0).0
write-MayPass_example = write-MayPass filtering (some (bob ∷ [])) 9 ((9, request) ∷ []) 0 refl

abbrev history : List Event
history = Event.received request 6 ∷ Event.sent request 5 ∷ []

admitted : (allow_inbound (run history) response 7).0 ≡ true
unfolding allow_inbound run after observe_outbound parse_flow_key reverse flow_beq get put remove
admitted = refl

allow_inbound-Started_example :
    (k : FlowKey) × (t : ℕ) × (parse_flow_key response ≡ some k)
    × Some (Started k t) history
    × (7 - t ≤ conntrack_ttl)
allow_inbound-Started_example = allow_inbound-Started history response 7 admitted

abbrev key : FlowKey
key = record { proto = 6; src = alice; dst = bob; sport = 4660; dport = 80 }

request_key : parse_flow_key request ≡ some key
unfolding parse_flow_key
request_key = refl

response_key : parse_flow_key response ≡ some (reverse key)
unfolding parse_flow_key reverse
response_key = refl

-- A router at bob that offers 10.1.0.0/16 and the internet.
abbrev lan : Prefix
lan = record { addr = 167837696; bits = 16 }

abbrev internet : Prefix
internet = record { addr = 0; bits = 0 }

abbrev lan_open : Rule
lan_open = record web { dst = text "10.1.0.0/16"; protocol = text "all" }

abbrev router : Router
router = record {
  local_addr = bob;
  sem = 0;
  icmp_sem = 0;
  subnets = lan ∷ internet ∷ [];
  acl_rules = web ∷ lan_open ∷ [];
}

-- 10.1.0.7
abbrev printer : Addr
printer = 167837703

served : (handle_tcp router (some alice) (some bob) 80 true).0 ≡ dialed localhost 80
unfolding handle_tcp acquire acl_allows host_match proto_match parse_prefix parse_addr contains
    text_beq to_lower has_prefix should_forward is_loopback is_unspecified is_link_local_unicast
    is_multicast is_private
served = refl

handle_tcp-dialed_example :
    Target router bob localhost
    × Permitted router (some alice) bob (text "tcp") 80
    × (◌≡◌ {A = ℕ} 80 80)
handle_tcp-dialed_example = handle_tcp-dialed router (some alice) bob 80 true localhost 80 served

relayed_udp : (handle_udp router (some alice) (some printer) 53 true).0 ≡ dialed printer 53
unfolding handle_udp acquire acl_allows host_match proto_match parse_prefix parse_addr contains
    text_beq to_lower has_prefix should_forward is_loopback is_unspecified is_link_local_unicast
    is_multicast is_private
relayed_udp = refl

abbrev idle : World
idle = record { router = router; relays = 0; pings = 0 }

idle-IsBounded : IsBounded idle
idle-IsBounded = record {
  forwards = refl;
  icmp_forwards = refl;
  forwards_bound = omega arith;
  icmp_bound = omega arith;
}

abbrev busy : World
busy = after_udp idle (some alice) (some printer) 53 true

one_request : Reach idle busy
one_request = Reach.next Reach.start (Step.udp idle (some alice) (some printer) 53 true)

Reach-IsBounded_example : IsBounded busy
Reach-IsBounded_example = Reach-IsBounded idle-IsBounded one_request
