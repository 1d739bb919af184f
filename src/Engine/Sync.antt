-- ===== src/Engine/Sync.antt =====
-- client/internal/engine/engine.go, `applySync`: what an agent does with an answer of the control
-- plane. The calls of the operating system, of the WireGuard device and of ICE are actions, in their
-- order; those whose error is only logged have no outcome.
pub mod Rounds
pub mod Linked
pub mod Names
use blinex.Prelude.{
  ℕ, Bool, true, false, not, ◌&&◌, ◌||◌, Option, none, some, List, [], ◌∷◌, ◌++◌, ◌==◌, map,
  if◌then◌else◌,
}
use blinex.Prelude.Text.{Text, text_eq}
use blinex.Prelude.Dict.{Dict, get, put, remove}
use blinex.Netip.{Prefix, parse_prefix}
use blinex.Wgmgr.Acl
use blinex.Management.Sync.{PeerInfo, Route, SyncResponse, list_at}
use blinex.Peers.{Manager, Update, Changes, diff}
use blinex.Dns
use blinex.Dns.{Resolver, upsert, remove_record}
use blinex.Engine.Routes.{Command, apply_os_routes}
use blinex.Engine.Paths.{Paths, ensure_relay_link, tear_down}

pub data Action : Type 0 where
  enable_forwarding add_masquerade remove_masquerade : Action
  activate_exit_node deactivate_exit_node : Action
  set_router_subnets : List Prefix → Action
  set_router_acl : List Acl.Rule → Action
  upsert_peer : Text → List Text → Action
  remove_peer : Text → Action
  route : Command → Action
  start_connect : Text → Action
  close_peer : Text → Action
  apply_rules : List Acl.Rule → Action

-- `Engine`: `exit_on` is whether `exitNode` is set, `netstack` the mode of the device.
pub record Engine : Type 0 where
  pub self_key : Text
  pub netstack : Bool
  pub last_routes : List Route
  pub exit_on : Bool
  pub peers : Manager
  pub applied_routes : Dict Text (List Text)
  pub dns : Resolver
  pub paths : Paths

-- `routesByGateway`
unfoldable pub routes_by_gateway : Dict Text (List Text) → List Route → Dict Text (List Text)
routes_by_gateway m [] = m
routes_by_gateway m (r ∷ rs) =
    routes_by_gateway
      (if r.enabled then put m r.gateway (list_at (get m r.gateway) ++ (r.network ∷ [])) else m) rs

abbrev pub is_nil {ℓ} : {A : Type ℓ} → List A → Bool
is_nil [] = true
is_nil (x ∷ xs) = false

unfoldable pub forwarding : List Text → List Action
forwarding routes =
    if is_nil routes
    then Action.remove_masquerade ∷ []
    else Action.enable_forwarding ∷ Action.add_masquerade ∷ []

-- The switch of the exit node; `found` says whether the default gateway is found.
unfoldable pub switch_exit : Bool → Text → Engine → List Action × Engine
switch_exit found exit e =
    let use_exit = not (exit == []) && not (exit == e.self_key) in
    if use_exit && not e.exit_on
    then (Action.activate_exit_node ∷ [], record e { exit_on = found })
    else if not use_exit && e.exit_on
    then (Action.deactivate_exit_node ∷ [], record e { exit_on = false })
    else ([], e)

unfoldable pub parsed : List Text → List Prefix
parsed [] = []
parsed (c ∷ cs) = let rest = parsed cs in elim (parse_prefix c) [ none ↦ rest | some p ↦ p ∷ rest ]

-- The first part: forwarding and exit node, or the userspace router.
unfoldable pub reconcile :
    Bool → SyncResponse → Dict Text (List Text) → Engine → List Action × Engine
unfolding forwarding switch_exit parsed
reconcile found r by_gateway e =
    let own = list_at (get by_gateway e.self_key) in
    let (switch, e') = switch_exit found r.exit_node e in
    if e.netstack
    then (Action.set_router_subnets (parsed own) ∷ Action.set_router_acl r.rules ∷ [], e)
    else (forwarding own ++ switch, e')

-- `applyOSRoutes`, in the mode that has routes.
unfoldable pub os_routes :
    Engine → Text → Option (List Text) → Option (List Text) → List Action × Engine
os_routes e key old new =
    let (commands, applied) = apply_os_routes e.applied_routes key old new in
    if e.netstack
    then ([], e)
    else (map Action.route commands, record e { applied_routes = applied })

-- A peer that is added, but the agent itself.
unfoldable pub add_peer : Dict Text (List Text) → Engine → PeerInfo → List Action × Engine
unfolding os_routes
add_peer by_gateway e p =
    let (routes, e') = os_routes e p.wg_pub_key none (get by_gateway p.wg_pub_key) in
    if p.wg_pub_key == e.self_key then ([], e) else (
      Action.upsert_peer p.wg_pub_key p.allowed_ips
          ∷ (routes ++ (Action.start_connect p.wg_pub_key ∷ [])),
      record e' {
        dns = upsert e'.dns p.dns_label p.ip;
        paths = ensure_relay_link e'.paths p.wg_pub_key;
      },
    )

-- A peer that is updated.
unfoldable pub update_peer : Dict Text (List Text) → Engine → Update → List Action × Engine
unfolding os_routes
update_peer by_gateway e u =
    let p = u.new in
    let (routes, e') =
      os_routes e p.wg_pub_key (get e.applied_routes p.wg_pub_key) (get by_gateway p.wg_pub_key) in
    let dns =
      if not (u.old.dns_label == p.dns_label)
      then remove_record e'.dns u.old.dns_label
      else e'.dns in
    if p.wg_pub_key == e.self_key then ([], e) else (
      Action.upsert_peer p.wg_pub_key p.allowed_ips ∷ routes,
      record e' {
        dns = upsert dns p.dns_label p.ip;
        paths = ensure_relay_link e'.paths p.wg_pub_key;
      },
    )

-- A peer that is removed.
unfoldable pub drop_peer : Engine → PeerInfo → List Action × Engine
unfolding os_routes
drop_peer e p =
    let (routes, e') = os_routes e p.wg_pub_key (get e.applied_routes p.wg_pub_key) none in
    if p.wg_pub_key == e.self_key then ([], e) else (
      Action.remove_peer p.wg_pub_key ∷ (routes ++ (Action.close_peer p.wg_pub_key ∷ [])),
      record e' {
        applied_routes = remove e'.applied_routes p.wg_pub_key;
        dns = remove_record e'.dns p.dns_label;
        paths = tear_down e'.paths p.wg_pub_key;
      },
    )

-- A loop over a list, with the actions of its rounds.
unfoldable pub each {ℓ} :
    {A : Type ℓ} → (Engine → A → List Action × Engine) → Engine → List A → List Action × Engine
each f e [] = ([], e)
each f e (x ∷ xs) = let (acts, e') = f e x in let (more, e'') = each f e' xs in (acts ++ more, e'')

-- `applySync`
unfoldable pub apply_sync : Bool → Engine → SyncResponse → List Action × Engine
unfolding reconcile each
apply_sync found e r =
    let by_gateway = routes_by_gateway [] r.routes in
    let (first, e1) = reconcile found r by_gateway (record e { last_routes = r.routes }) in
    let (changes, peers) = diff e1.peers r.peers in
    let (adds, e2) = each (add_peer by_gateway) (record e1 { peers = peers }) changes.added in
    let (updates, e3) = each (update_peer by_gateway) e2 changes.updated in
    let (drops, e4) = each drop_peer e3 changes.removed in
    (
      first
          ++ (adds
              ++ (updates
                  ++ (drops ++ (if e4.netstack then [] else Action.apply_rules r.rules ∷ [])))),
      e4,
    )
