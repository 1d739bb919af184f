-- ===== src/Management/Sync.antt =====
-- management/internal/grpcserver/server.go: what a peer is sent of its account (`buildSyncResponse`),
-- with the expansion of the rules on groups into rules on addresses and the exit node. The serial
-- number is left out.
pub mod Policy
pub mod ExitNode
use blinex.Prelude.{
  ℕ, zero, suc, ◌/◌, ◌%◌, ◌^◌, ◌+◌, Bool, true, false, not, ◌||◌, ◌&&◌, Option, none, some, List,
  [], ◌∷◌, ◌++◌, map, ltb, ◌==◌, nat_eq, if◌then◌else◌, any, find,
}
use blinex.Prelude.Text.{Text, text, text_eq, has_prefix, trim_prefix}
use blinex.Prelude.Dict.{Dict, get, put}
use blinex.Management.Domain.{Peer, Rule}
use blinex.Wgmgr.Acl

-- The `commonv1.Peer` and `commonv1.Route` of the answer.
pub record PeerInfo : Type 0 where
  pub id : Text
  pub wg_pub_key : Text
  pub ip : Text
  pub hostname : Text
  pub os : Text
  pub allowed_ips : List Text
  pub dns_label : Text
  pub local_ip : Text
  pub public_ip : Text
  pub country : Text

pub record Route : Type 0 where
  pub id : Text
  pub network : Text
  pub gateway : Text
  pub metric : ℕ
  pub enabled : Bool

pub record SyncResponse : Type 0 where
  pub peers : List PeerInfo
  pub routes : List Route
  pub rules : List Acl.Rule
  pub network : Text
  pub exit_node : Text

-- The value of a map of lists at a key: a missing key has the empty list.
abbrev pub list_at {ℓ} : {A : Type ℓ} → Option (List A) → List A
list_at none = []
list_at (some l) = l

-- The group → IPs index: the inner and the outer loop.
unfoldable pub index_groups : Dict Text (List Text) → List Text → Text → Dict Text (List Text)
index_groups m [] ip = m
index_groups m (g ∷ gs) ip = index_groups (put m g (list_at (get m g) ++ (ip ∷ []))) gs ip

unfoldable pub index_peers : Dict Text (List Text) → List Peer → Dict Text (List Text)
unfolding index_groups
index_peers m [] = m
index_peers m (p ∷ ps) = index_peers (index_groups m p.groups p.ip) ps

unfoldable pub with_dsts : Rule → Text → List Text → List Rule
with_dsts r s [] = []
with_dsts r s (d ∷ ds) = record r { src = s; dst = d } ∷ with_dsts r s ds

unfoldable pub with_srcs : Rule → List Text → List Text → List Rule
unfolding with_dsts
with_srcs r [] ds = []
with_srcs r (s ∷ ss) ds = with_dsts r s ds ++ with_srcs r ss ds

abbrev pub group_prefix : Text
group_prefix = text "group:"

-- The addresses that one side of a rule stands for.
unfoldable pub side : Dict Text (List Text) → Text → List Text
side m field =
    if has_prefix field group_prefix
    then list_at (get m (trim_prefix field group_prefix))
    else field ∷ []

abbrev is_empty {ℓ} : {A : Type ℓ} → List A → Bool
is_empty [] = true
is_empty (x ∷ xs) = false

-- `expandGroupRule`: a group without addresses leaves no rule.
unfoldable pub expand_group_rule : Dict Text (List Text) → Rule → List Rule
unfolding side with_srcs
expand_group_rule m r =
    if not (has_prefix r.src group_prefix) && not (has_prefix r.dst group_prefix)
    then r ∷ []
    else if is_empty (side m r.src)
    then []
    else if is_empty (side m r.dst)
    then []
    else with_srcs r (side m r.src) (side m r.dst)

-- `int32(n)`; a negative number is no port, like 0, and is 0 here.
abbrev pub int32 : ℕ → ℕ
int32 n = let m = n % 2 ^ 32 in if ltb m (2 ^ 31) then m else 0

unfoldable pub to_wire : Rule → Acl.Rule
to_wire r = record {
  id = r.id;
  name = r.name;
  src = r.src;
  dst = r.dst;
  protocol = r.protocol;
  port = int32 r.port;
  action = r.action;
  enabled = r.enabled;
  priority = int32 r.priority;
}

unfoldable pub rules_to_send : Dict Text (List Text) → List Rule → List Acl.Rule
unfolding expand_group_rule to_wire
rules_to_send m [] = []
rules_to_send m (r ∷ rs) = map to_wire (expand_group_rule m r) ++ rules_to_send m rs

peer_info : Peer → PeerInfo
peer_info p = record {
  id = p.id;
  wg_pub_key = p.wg_pub_key;
  ip = p.ip;
  hostname = p.hostname;
  os = p.os;
  allowed_ips = p.allowed_ips ++ p.advertised_routes;
  dns_label = p.dns_label;
  local_ip = p.local_ip;
  public_ip = p.public_ip;
  country = p.country;
}

-- `%d`
digits : ℕ → ℕ → Text → Text
digits zero n s = s
digits (suc fuel) n s =
    let s' = (n % 10 + b'0') ∷ s in
    let rest = digits fuel (n / 10) s' in if ltb n 10 then s' else rest

peer_routes : Text → ℕ → List Text → List Route
unfolding digits
peer_routes key i [] = []
peer_routes key i (cidr ∷ cidrs) =
    record {
      id = key ++ text ":" ++ digits (i + 1) i [];
      network = cidr;
      gateway = key;
      metric = 100;
      enabled = true;
    }
    ∷ peer_routes key (i + 1) cidrs

routes_to_send : List Peer → List Route
unfolding peer_routes
routes_to_send [] = []
routes_to_send (p ∷ ps) = peer_routes p.wg_pub_key 0 p.advertised_routes ++ routes_to_send ps

-- The exit node the peer has chosen, or "".
abbrev pub chosen_by : Option Peer → Text
chosen_by none = []
chosen_by (some p) = p.exit_node

abbrev pub default_route : Text
default_route = text "0.0.0.0/0"

abbrev pub if_offered : Option Peer → Text → Text
if_offered none chosen = []
if_offered (some p) chosen =
    if any (λ c. c == default_route) p.advertised_routes then chosen else []

-- `resolveExitNode`
unfoldable pub resolve_exit_node : List Peer → Text → Text
resolve_exit_node peers self =
    let chosen = chosen_by (find (λ p. p.wg_pub_key == self) peers) in
    if chosen == [] || chosen == self
    then []
    else if_offered (find (λ p. p.wg_pub_key == chosen) peers) chosen

-- `buildSyncResponse`; `network` is the server's configured range.
unfoldable pub build_sync_response : Text → List Peer → List Rule → Text → SyncResponse
unfolding rules_to_send index_peers routes_to_send peer_info
build_sync_response network peers rules self = record {
  peers = map peer_info peers;
  routes = routes_to_send peers;
  rules = rules_to_send (index_peers [] peers) rules;
  network = network;
  exit_node = resolve_exit_node peers self;
}
