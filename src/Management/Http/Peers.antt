-- ===== src/Management/Http/Peers.antt =====
-- The peer handlers of management/internal/httpserver/server.go.
use blinex.Prelude.{
  Bool, true, false, not, ◌&&◌, ◌||◌, Option, none, some, List, [], ltb, ◌==◌, nat_eq,
  if◌then◌else◌, length, any, all, map, is_some,
}
use blinex.Prelude.Text.{Text, text, text_eq, trim, is_space}
use blinex.Prelude.Dict.{get, put}
use blinex.Netip.{Prefix, contains, parse_cidr}
use blinex.Management.Domain.{Peer, to_dns_label}
use blinex.Management.Ipam.{base, release}
use blinex.Management.Store.{get_peer, get_peers_by_account, save_peer, delete_peer}
use blinex.Management.Auth.{Claims, revoke_by_wg_key}
use blinex.Management.Http.{
  Api, Env, Status, Reply, with_store, notified, is_valid_group_name, ensure_default_group,
}

-- A peer is connected if it has a stream.
unfoldable pub with_connected : Api → Peer → Peer
with_connected a p = record p { connected = is_some (get a.server.subs p.wg_pub_key) }

-- `listPeers`
unfoldable pub list_peers : Api → Claims → Reply × Api
list_peers a c =
    (Reply.peer_list (map (with_connected a) (get_peers_by_account a.server.store c.account_id)), a)

-- The body of an update: no hostname leaves the name alone.
pub record PeerBody : Type 0 where
  pub groups : List Text
  pub hostname : Option Text

-- An assignment to a field of the peer that `GetPeer` has returned, which is the stored record itself.
abbrev pub assigned : Api → Text → Peer → Api
assigned a key p = with_store a (record a.server.store { peers = put a.server.store.peers key p })

-- `SavePeer`, the notification and the answer.
unfoldable pub save_and_notify : Api → Claims → Peer → Reply × Api
save_and_notify a c p =
    (Reply.one_peer p, notified (with_store a (save_peer a.server.store p)) c.account_id)

unfoldable pub renamed : Api → Env → Claims → Text → Peer → Option Text → Reply × Api
unfolding save_and_notify
renamed a e c key p none = save_and_notify a c p
renamed a e c key p (some hostname) =
    let name = trim is_space hostname in
    if name == [] || ltb 63 (length name)
    then (Reply.error Status.bad_request, a)
    else save_and_notify a c (record p { hostname = name; dns_label = to_dns_label e.random name })

-- The groups are assigned before the hostname is looked at.
unfoldable pub regrouped : Api → Env → Claims → Text → Peer → PeerBody → Reply × Api
unfolding renamed
regrouped a e c key p body =
    let p' = record p { groups = ensure_default_group body.groups } in
    renamed (assigned a key p') e c key p' body.hostname

unfoldable pub update_with : Api → Env → Claims → Text → Peer → Option PeerBody → Reply × Api
unfolding regrouped
update_with a e c key p none = (Reply.error Status.bad_request, a)
update_with a e c key p (some body) =
    if all is_valid_group_name body.groups
    then regrouped a e c key p body
    else (Reply.error Status.bad_request, a)

unfoldable pub update_found :
    Api → Env → Claims → Text → Option PeerBody → Option Peer → Reply × Api
unfolding update_with
update_found a e c key body none = (Reply.error Status.not_found, a)
update_found a e c key body (some p) =
    if not (p.account_id == c.account_id)
    then (Reply.error Status.forbidden, a)
    else update_with a e c key p body

-- `updatePeer`
unfoldable pub update_peer : Api → Env → Claims → Text → Option PeerBody → Reply × Api
unfolding update_found
update_peer a e c key body = update_found a e c key body (get_peer a.server.store key)

-- The three effects of a deletion, in turn.
unfoldable pub deleted : Api → Env → Text → Api
deleted a e key =
    let b = with_store a (delete_peer a.server.store key) in
    record b {
      auth = revoke_by_wg_key b.auth key e.now;
      server = record b.server { ipam = release b.server.ipam key };
    }

unfoldable pub delete_found : Api → Env → Claims → Text → Option Peer → Reply × Api
unfolding deleted
delete_found a e c key none = (Reply.error Status.not_found, a)
delete_found a e c key (some p) =
    if not (p.account_id == c.account_id)
    then (Reply.error Status.forbidden, a)
    else (Reply.no_content, deleted a e key)

-- `deletePeer`
unfoldable pub delete_peer_handler : Api → Env → Claims → Text → Reply × Api
unfolding delete_found
delete_peer_handler a e c key = delete_found a e c key (get_peer a.server.store key)

-- Whether the gateway is a peer of the account that offers a default route.
unfoldable pub offers_exit : Claims → Option Peer → Bool
offers_exit c none = false
offers_exit c (some gw) =
    gw.account_id == c.account_id && any (λ r. r == text "0.0.0.0/0") gw.advertised_routes

unfoldable pub exit_found : Api → Claims → Text → Text → Option Peer → Reply × Api
unfolding save_and_notify offers_exit
exit_found a c key exit_node none = (Reply.error Status.not_found, a)
exit_found a c key exit_node (some p) =
    if not (p.account_id == c.account_id)
    then (Reply.error Status.forbidden, a)
    else if exit_node == key
    then (Reply.error Status.bad_request, a)
    else if not (exit_node == []) && not (offers_exit c (get_peer a.server.store exit_node))
    then (Reply.error Status.bad_request, a)
    else save_and_notify a c (record p { exit_node = exit_node })

-- `setPeerExitNode`
unfoldable pub set_peer_exit_node : Api → Claims → Text → Option Text → Reply × Api
unfolding exit_found
set_peer_exit_node a c key none = (Reply.error Status.bad_request, a)
set_peer_exit_node a c key (some exit_node) =
    exit_found a c key exit_node (get_peer a.server.store key)

-- `100.64.0.0/10`
abbrev pub mesh : Prefix
mesh = record { addr = 1681915904; bits = 10 }

-- `meshNet.Contains(cidr.IP) || cidr.Contains(meshNet.IP)`, where `cidr.IP` has no host bits.
unfoldable pub conflicts : Prefix → Bool
conflicts p = contains mesh (base p) || contains p mesh.addr

unfoldable pub cidr_ok : Bool → Option Prefix → Bool
unfolding conflicts
cidr_ok ipv6 none = ipv6
cidr_ok ipv6 (some p) = not (conflicts p)

-- The test of one route; `ipv6_route` says which IPv6 networks parse and do not conflict.
unfoldable pub route_ok : (Text → Bool) → Text → Bool
unfolding cidr_ok
route_ok ipv6_route r =
    if r == text "0.0.0.0/0" || r == text "::/0"
    then true
    else cidr_ok (ipv6_route r) (parse_cidr r)

unfoldable pub routes_found : Api → Claims → List Text → Option Peer → Reply × Api
unfolding save_and_notify
routes_found a c routes none = (Reply.error Status.not_found, a)
routes_found a c routes (some p) =
    if not (p.account_id == c.account_id)
    then (Reply.error Status.forbidden, a)
    else save_and_notify a c (record p { advertised_routes = routes })

-- `setPeerRoutes`
unfoldable pub set_peer_routes :
    (Text → Bool) → Api → Claims → Text → Option (List Text) → Reply × Api
unfolding route_ok routes_found
set_peer_routes ipv6_route a c key none = (Reply.error Status.bad_request, a)
set_peer_routes ipv6_route a c key (some routes) =
    if all (route_ok ipv6_route) routes
    then routes_found a c routes (get_peer a.server.store key)
    else (Reply.error Status.bad_request, a)
