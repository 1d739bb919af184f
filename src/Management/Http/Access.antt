-- ===== src/Management/Http/Access.antt =====
-- management/internal/httpserver/server.go: who may change what through the API.
use blinex.Prelude.{◌≡◌, refl, false, none, some, arith, Option, Bool}
use blinex.Prelude.Text.{Text}
use blinex.Management.Auth.{Claims, authenticate, is_admin}
use blinex.Management.Http.{Api, Env}
use blinex.Management.Http.Peers.{list_peers}
use blinex.Management.Http.Groups.{list_groups}
use blinex.Management.Http.Keys.{list_setup_keys}
use blinex.Management.Http.Rules.{list_rules}
use blinex.Management.Http.Dispatch.{Route, needs_admin, handle, authorized, serve}
use blinex.Management.Http.Isolation.{Consistent, Fresh, Safe, Safe-refl}
use blinex.Management.Http.Isolation.PeerRoutes.{
  update_peer_safe, delete_peer_safe, set_peer_exit_node_safe, set_peer_routes_safe,
}
use blinex.Management.Http.Isolation.OtherRoutes.{
  create_group_safe, delete_group_safe, create_setup_key_safe, delete_setup_key_safe,
  create_rule_safe, update_rule_safe, delete_rule_safe,
}

module _ (parse : Text → Option Claims) (ipv6 ipv6_route : Text → Bool) where
  handle_safe :
      (a : Api) (e : Env) (c : Claims) (route : Route)
      → Consistent a.server.store
      → Fresh e a.server.store
      → Safe c.account_id a (handle parse ipv6 ipv6_route a e c route).1
  unfolding handle list_peers list_groups list_setup_keys list_rules
  handle_safe a e c Route.get_peers k f = Safe-refl c.account_id a k
  handle_safe a e c Route.get_groups k f = Safe-refl c.account_id a k
  handle_safe a e c Route.get_rules k f = Safe-refl c.account_id a k
  handle_safe a e c Route.get_setup_keys k f = Safe-refl c.account_id a k
  handle_safe a e c (Route.put_peer key body) k f = update_peer_safe a e c key k body
  handle_safe a e c (Route.drop_peer key) k f = delete_peer_safe a e c key k
  handle_safe a e c (Route.put_routes key r) k f = set_peer_routes_safe a e c key k ipv6_route r
  handle_safe a e c (Route.put_exit_node key x) k f = set_peer_exit_node_safe a e c key k x
  handle_safe a e c (Route.post_group name) k f = create_group_safe a e c k f name
  handle_safe a e c (Route.drop_group id) k f = delete_group_safe a c k id
  handle_safe a e c (Route.post_setup_key body) k f = create_setup_key_safe a e c k f body
  handle_safe a e c (Route.drop_setup_key id) k f = delete_setup_key_safe a c k id
  handle_safe a e c (Route.post_rule body) k f = create_rule_safe a e c k f ipv6 body
  handle_safe a e c (Route.put_rule id body) k f = update_rule_safe a c k ipv6 id body
  handle_safe a e c (Route.drop_rule id) k f = delete_rule_safe a c k id

  -- A request with a valid token changes nothing that belongs to another account than the token's:
  -- every peer, group, setup key, rule and stream of another account is there after it if and only
  -- if it was before, whatever the route and its outcome, where each peer and each rule stands under
  -- its own key, rules and setup keys have distinct keys and the request's UUIDs are unused. The
  -- store it leaves has the same consistency.
  pub serve-Safe :
      (a : Api) (e : Env) (header : Text) (route : Route) (c : Claims)
      → authenticate parse a.auth header ≡ some c
      → Consistent a.server.store
      → Fresh e a.server.store
      → Safe c.account_id a (serve parse ipv6 ipv6_route a e header route).1
  unfolding serve authorized
  serve-Safe a e header route c h k f =
      rw h (ground (arith, Safe-refl c.account_id a k, handle_safe a e c route k f))

  read_only :
      (a : Api) (e : Env) (c : Claims) (route : Route)
      → needs_admin route ≡ false
      → (handle parse ipv6 ipv6_route a e c route).1 ≡ a
  unfolding handle needs_admin list_peers list_groups list_rules
  read_only a e c Route.get_peers h = refl
  read_only a e c Route.get_groups h = refl
  read_only a e c Route.get_rules h = refl
  read_only a e c Route.get_setup_keys h = absurd (cc h)
  read_only a e c (Route.put_peer key body) h = absurd (cc h)
  read_only a e c (Route.drop_peer key) h = absurd (cc h)
  read_only a e c (Route.put_routes key r) h = absurd (cc h)
  read_only a e c (Route.put_exit_node key x) h = absurd (cc h)
  read_only a e c (Route.post_group name) h = absurd (cc h)
  read_only a e c (Route.drop_group id) h = absurd (cc h)
  read_only a e c (Route.post_setup_key body) h = absurd (cc h)
  read_only a e c (Route.drop_setup_key id) h = absurd (cc h)
  read_only a e c (Route.post_rule body) h = absurd (cc h)
  read_only a e c (Route.put_rule id body) h = absurd (cc h)
  read_only a e c (Route.drop_rule id) h = absurd (cc h)

  authorized_read :
      (a : Api) (e : Env) (route : Route) (o : Option Claims)
      → ((c : Claims) → o ≡ some c → is_admin c ≡ false)
      → (authorized parse ipv6 ipv6_route a e route o).1 ≡ a
  unfolding authorized
  authorized_read a e route none h = refl
  authorized_read a e route (some c) h = ground (arith, h c refl, read_only a e c route)

  -- A request whose token is not a valid one of an admin changes nothing, on any route.
  pub serve_admin_only :
      (a : Api) (e : Env) (header : Text) (route : Route)
      → ((c : Claims) → authenticate parse a.auth header ≡ some c → is_admin c ≡ false)
      → (serve parse ipv6 ipv6_route a e header route).1 ≡ a
  unfolding serve
  serve_admin_only a e header route h =
      authorized_read a e route (authenticate parse a.auth header) h
