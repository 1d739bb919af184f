-- ===== src/Management/Http/Dispatch.antt =====
-- `registerRoutes` of management/internal/httpserver/server.go: what a request runs.
use blinex.Prelude.{ℕ, Bool, true, false, not, ◌&&◌, Option, none, some, List, if◌then◌else◌}
use blinex.Prelude.Text.{Text}
use blinex.Management.Auth.{Claims, authenticate, is_admin}
use blinex.Management.Http.{Api, Env, Status, Reply}
use blinex.Management.Http.Peers.{
  PeerBody, list_peers, update_peer, delete_peer_handler, set_peer_routes, set_peer_exit_node,
}
use blinex.Management.Http.Groups.{list_groups, create_group_handler, delete_group_handler}
use blinex.Management.Http.Keys.{
  KeyBody, list_setup_keys, create_setup_key_handler, delete_setup_key_handler,
}
use blinex.Management.Http.Rules.{
  RuleBody, RulePatch, list_rules, create_rule, update_rule, delete_rule_handler,
}
use blinex.Management.Http.Admin.{Credentials, admin_login}

-- The routes behind the middleware, with what their handlers read of the request.
pub data Route : Type 0 where
  get_peers get_groups get_rules get_setup_keys : Route
  put_peer : Text → Option PeerBody → Route
  drop_peer : Text → Route
  put_routes : Text → Option (List Text) → Route
  put_exit_node : Text → Option Text → Route
  post_group : Option Text → Route
  drop_group : Text → Route
  post_setup_key : Option KeyBody → Route
  drop_setup_key : Text → Route
  post_rule : Option RuleBody → Route
  put_rule : Text → Option RulePatch → Route
  drop_rule : Text → Route

pub data Request : Type 0 where
  get_health : Request
  post_login : Text → Option Credentials → Request
  -- the header `Authorization`, and the route
  behind_auth : Text → Route → Request

-- The group of a route: `authenticated` or `admin`.
unfoldable pub needs_admin : Route → Bool
needs_admin Route.get_peers = false
needs_admin Route.get_groups = false
needs_admin Route.get_rules = false
needs_admin _ = true

-- What the code asks of libraries: `parse` reads the claims of a token, `ipv6` and `ipv6_route`
-- say of a text in IPv6 whether it is an address or a network, and one outside the mesh.
module _ (parse : Text → Option Claims) (ipv6 ipv6_route : Text → Bool) where
  unfoldable pub handle : Api → Env → Claims → Route → Reply × Api
  handle a e c Route.get_peers = list_peers a c
  handle a e c Route.get_groups = list_groups a c
  handle a e c Route.get_rules = list_rules a c
  handle a e c Route.get_setup_keys = list_setup_keys a c
  handle a e c (Route.put_peer key body) = update_peer a e c key body
  handle a e c (Route.drop_peer key) = delete_peer_handler a e c key
  handle a e c (Route.put_routes key routes) = set_peer_routes ipv6_route a c key routes
  handle a e c (Route.put_exit_node key body) = set_peer_exit_node a c key body
  handle a e c (Route.post_group name) = create_group_handler a e c name
  handle a e c (Route.drop_group id) = delete_group_handler a c id
  handle a e c (Route.post_setup_key body) = create_setup_key_handler a e c body
  handle a e c (Route.drop_setup_key id) = delete_setup_key_handler a c id
  handle a e c (Route.post_rule body) = create_rule ipv6 a e c body
  handle a e c (Route.put_rule id body) = update_rule ipv6 a c id body
  handle a e c (Route.drop_rule id) = delete_rule_handler a c id

  -- `adminOnly`, behind `authMiddleware`.
  unfoldable pub authorized : Api → Env → Route → Option Claims → Reply × Api
  unfolding handle needs_admin
  authorized a e route none = (Reply.error Status.unauthorized, a)
  authorized a e route (some c) =
      if needs_admin route && not (is_admin c)
      then (Reply.error Status.forbidden, a)
      else handle a e c route

  -- A request to a route behind the middleware.
  unfoldable pub serve : Api → Env → Text → Route → Reply × Api
  unfolding authorized
  serve a e header route = authorized a e route (authenticate parse a.auth header)

  module _ (sign : Claims → Text) (numeric_date : ℕ → ℕ) (config : Credentials) where
    -- Any request.
    unfoldable pub respond : Api → Env → Request → Reply × Api
    respond a e Request.get_health = (Reply.health, a)
    respond a e (Request.post_login ip given) = admin_login sign numeric_date config a e ip given
    respond a e (Request.behind_auth header route) = serve a e header route
