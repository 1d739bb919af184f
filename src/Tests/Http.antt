-- ===== src/Tests/Http.antt =====
-- The HTTP API over a store with two accounts.
use blinex.Prelude.{
  nat_eq, ℕ, ◌≡◌, refl, false, none, some, arith, List, [], ◌∷◌, ◌++◌, Option, Bool, All, any, all,
}
use blinex.Prelude.Text.{Text, text, text_eq, text_beq}
use blinex.Prelude.Dict.{Dict, get, put, remove, Distinct, Distinct-put}
use blinex.Netip.{parse_cidr, contains}
use blinex.Management.Domain.{Peer, default_group_name}
use blinex.Management.RateLimit.{new_rate_limiter}
use blinex.Management.Store.{Store, new, get_peer, get_peers_by_account}
use blinex.Management.Store.Frame.{Keyed, Keyed-put}
use blinex.Management.Login.{SyncSub, Call, no_meta}
use blinex.Management.Sync.{SyncResponse, resolve_exit_node}
use blinex.Management.Streams.{Stream, Hub, is_connected, sync_round, sync_end}
use blinex.Management.Streams.Reconnect.{notify_each, sync_end-silences}
use blinex.Management.Streams.Freshness.{Registered, sync_round-set_peer_exit_node}
use blinex.Management.Auth.{Claims, new_manager, validate_token, authenticate, is_admin}
use blinex.Management.Auth.Revocation.{Revoked, run_revocations}
use blinex.Management.Http.{Api, Env, Reply}
use blinex.Management.Http.Peers.{delete_peer_handler, set_peer_exit_node, set_peer_routes}
use blinex.Management.Http.Dispatch.{Route, serve}
use blinex.Management.Http.Isolation.{Consistent, Fresh, Safe}
use blinex.Management.Http.Access.{serve-Safe, serve_admin_only}
use blinex.Management.Http.ExitChoice.{resolve_exit_node-set_peer_exit_node}
use blinex.Management.Http.Deletion.{delete_peer_handler-revokes}
use blinex.Management.Http.RouteConflicts.{Clear, set_peer_routes-Clear}
use blinex.Management.Http.Sound.{Sound}
use blinex.Management.Http.Sound.Reachable.{Event, run_events, run_events-Sound}

abbrev peer : Text → Text → List Text → Peer
peer key account routes = record {
  id = key;
  account_id = account;
  wg_pub_key = key;
  ip = [];
  local_ip = [];
  public_ip = [];
  country = [];
  hostname = key;
  os = [];
  kernel = [];
  version = [];
  dns_label = key;
  groups = default_group_name ∷ [];
  allowed_ips = [];
  advertised_routes = routes;
  exit_node = [];
  connected = false;
  last_seen = 0;
  created_at = 0;
}

abbrev me : Peer
me = peer (text "a") (text "home") []

abbrev gateway : Peer
gateway = peer (text "b") (text "home") (text "0.0.0.0/0" ∷ [])

abbrev stranger : Peer
stranger = peer (text "c") (text "other") []

abbrev one_peer : Dict Text Peer
one_peer = put [] (text "a") me

abbrev two_peers : Dict Text Peer
two_peers = put one_peer (text "b") gateway

abbrev three_peers : Dict Text Peer
three_peers = put two_peers (text "c") stranger

abbrev store : Store
store = record { accounts = []; setup_keys = []; groups = []; peers = three_peers; rules = [] }

abbrev api : Api
api = record {
  server = record {
    store = store;
    ipam = record {
      network = record { addr = 1681915904; bits = 10 };
      next = 1681915905;
      leased = (text "a", 1681915906) ∷ [];
    };
    login_limits = new_rate_limiter 0;
    subs = [];
  };
  auth = new_manager;
  attempts = [];
}

abbrev env : Env
env = record { now = 10; id = text "i"; secret = text "s"; random = text "0123abcd" }

abbrev claims_of : Text → Claims
claims_of role = record {
  peer_id = [];
  wg_pub_key = [];
  account_id = text "home";
  role = role;
  issued_at = 5;
}

abbrev admin : Text → Option Claims
admin token = some (claims_of (text "admin"))

abbrev plain : Text → Option Claims
plain token = some (claims_of (text "peer"))

abbrev no_text : Text → Bool
no_text t = false

three_peers-Keyed : Keyed (λ (p : Peer). p.wg_pub_key) three_peers
three_peers-Keyed =
    let empty : Keyed (λ (p : Peer). p.wg_pub_key) [] = (λ k v h. absurd (unfold get in cc h)) in
    Keyed-put (λ (p : Peer). p.wg_pub_key) two_peers stranger (text "c") refl
      (Keyed-put (λ (p : Peer). p.wg_pub_key) one_peer gateway (text "b") refl
        (Keyed-put (λ (p : Peer). p.wg_pub_key) [] me (text "a") refl empty))

three_peers-Distinct : Distinct three_peers
three_peers-Distinct =
    Distinct-put two_peers (text "c") stranger
      (Distinct-put one_peer (text "b") gateway (Distinct-put [] (text "a") me tt))

consistent : Consistent store
consistent = record {
  peers_keyed = three_peers-Keyed;
  rules_keyed = λ k v h. absurd (unfold get in cc h);
  rules_distinct = tt;
  keys_distinct = tt;
}

fresh : Fresh env store
fresh = unfold get in record { group = refl; rule = refl; setup_key = refl }

as_admin : authenticate admin new_manager (text "Bearer x") ≡ some (claims_of (text "admin"))
unfolding authenticate validate_token get
as_admin = refl

as_peer : authenticate plain new_manager (text "Bearer x") ≡ some (claims_of (text "peer"))
unfolding authenticate validate_token get
as_peer = refl

serve-Safe_example :
    Safe
      (text "home")
      api
      (serve admin no_text no_text api env (text "Bearer x") (Route.drop_peer (text "a"))).1
serve-Safe_example =
    serve-Safe admin no_text no_text api env (text "Bearer x") (Route.drop_peer (text "a"))
      (claims_of (text "admin")) as_admin consistent fresh

not_admin :
    (c : Claims) → authenticate plain new_manager (text "Bearer x") ≡ some c → is_admin c ≡ false
unfolding is_admin text_beq
not_admin c h =
    let s : some (claims_of (text "peer")) ≡ some c = cc (h, as_peer) in
    let e : claims_of (text "peer") ≡ c = cc s in rw (← e) refl

serve_admin_only_example :
    (serve plain no_text no_text api env (text "Bearer x") (Route.drop_peer (text "a"))).1 ≡ api
serve_admin_only_example =
    serve_admin_only plain no_text no_text api env (text "Bearer x") (Route.drop_peer (text "a"))
      not_admin

exit_accepted :
    (set_peer_exit_node api (claims_of (text "admin")) (text "a") (some (text "b"))).0
    ≡ Reply.one_peer (record me { exit_node = text "b" })
unfolding set_peer_exit_node get_peer get put remove text_beq any
exit_accepted = refl

resolve_exit_node-set_peer_exit_node_example :
    resolve_exit_node
      (get_peers_by_account
        (set_peer_exit_node api
          (claims_of (text "admin"))
          (text "a")
          (some (text "b"))).1.server.store
        (text "home"))
      (text "a")
    ≡ text "b"
resolve_exit_node-set_peer_exit_node_example =
    resolve_exit_node-set_peer_exit_node api (claims_of (text "admin")) (text "a") (text "b")
      (record me { exit_node = text "b" }) three_peers-Distinct three_peers-Keyed exit_accepted

abbrev token_claims : Claims
token_claims = record (claims_of (text "peer")) { wg_pub_key = text "a" }

abbrev later : List Revoked
later = record { key = text "b"; at = 12 } ∷ []

deletion_confirmed :
    (delete_peer_handler api env (claims_of (text "admin")) (text "a")).0 ≡ Reply.no_content
unfolding delete_peer_handler get_peer get put remove text_beq
deletion_confirmed = refl

delete_peer_handler-revokes_example :
    (get_peer
        (delete_peer_handler api env (claims_of (text "admin")) (text "a")).1.server.store
        (text "a")
      ≡ none)
    × (get
          (delete_peer_handler api env (claims_of (text "admin")) (text "a")).1.server.ipam.leased
          (text "a")
        ≡ none)
    × (validate_token
          (λ t. some token_claims)
          (run_revocations
            (delete_peer_handler api env (claims_of (text "admin")) (text "a")).1.auth
            later)
          (text "x")
        ≡ none)
delete_peer_handler-revokes_example =
    delete_peer_handler-revokes (λ t. some token_claims) api env (claims_of (text "admin"))
      (text "a") later (text "x") token_claims deletion_confirmed (omega arith) refl refl
      (omega arith)

abbrev two_routes : List Text
two_routes = text "192.168.1.0/24" ∷ text "0.0.0.0/0" ∷ []

routes_accepted :
    (set_peer_routes no_text api (claims_of (text "admin")) (text "a") (some two_routes)).0
    ≡ Reply.one_peer (record me { advertised_routes = two_routes })
unfolding set_peer_routes parse_cidr get_peer get put remove text_beq all contains
routes_accepted = refl

set_peer_routes-Clear_example :
    ((p : Peer) × (get_peer api.server.store (text "a") ≡ some p)
      × (p.account_id ≡ (claims_of (text "admin")).account_id)
      × (◌≡◌ {A = Peer}
          (record me { advertised_routes = two_routes })
          (record p { advertised_routes = two_routes }))
      × (get_peer
            (set_peer_routes no_text api
              (claims_of (text "admin"))
              (text "a")
              (some two_routes)).1.server.store
            (text "a")
          ≡ some (record me { advertised_routes = two_routes })))
    × All Clear two_routes
set_peer_routes-Clear_example =
    set_peer_routes-Clear no_text api (claims_of (text "admin")) (text "a") two_routes
      (record me { advertised_routes = two_routes }) three_peers-Keyed routes_accepted

abbrev seeded : Api
seeded = record api { server = record api.server { store = new (text "seed") (text "1") 0 } }

abbrev call : Call
call = record { source_ip = text "9.9.9.9"; now = 7; new_id = text "id"; random = text "0123abcd" }

abbrev issue : Text → Text → Text → Text
issue id key account = id ++ key

abbrev events : List Event
events =
    Event.enrolment call (text "seed") (text "a") no_meta
    ∷ Event.request env (text "Bearer x") (Route.drop_rule (text "default-default-allow"))
    ∷ []

run_events-Sound_example :
    Sound no_text (run_events admin issue no_text no_text seeded events).server.store
run_events-Sound_example =
    run_events-Sound admin issue no_text no_text seeded (text "seed") (text "1") 0 events refl

-- Two streams of the peer "a", of which the second is the registered one.
abbrev stream : Stream
stream = record { key = text "a"; account_id = text "home"; peer_key = text "a" }

abbrev sub_of : ℕ → SyncSub
sub_of ch = record { account_id = text "home"; ch = ch; marked = false }

abbrev with_stream : Api
with_stream = record api { server = record api.server { subs = (text "a", sub_of 2) ∷ [] } }

abbrev hub : Hub
hub = record {
  server = with_stream.server;
  running = (1, stream) ∷ (2, stream) ∷ [];
  detached = (1, false) ∷ [];
}

old_runs : get hub.running 1 ≡ some stream
unfolding get
old_runs = refl

new_runs : get hub.running 2 ≡ some stream
unfolding get
new_runs = refl

new_registered : get hub.server.subs (text "a") ≡ some (sub_of 2)
unfolding get text_beq
new_registered = refl

sync_end-silences_example :
    (is_connected (notify_each (sync_end hub 1 20) (text "home" ∷ [])).server (text "a") ≡ false)
    × ((sync_round (text "100.64.0.0/10") (notify_each (sync_end hub 1 20) (text "home" ∷ [])) 2).0
        ≡ none)
sync_end-silences_example =
    sync_end-silences (text "100.64.0.0/10") hub 1 2 20 stream stream (sub_of 2) (text "home" ∷ [])
      old_runs new_runs (λ e. omega arith) refl new_registered refl refl

registered : Registered hub 2 stream (sub_of 2)
registered = record { runs = new_runs; named = new_registered; own = refl; account = refl }

exit_accepted_with_stream :
    (set_peer_exit_node with_stream (claims_of (text "admin")) (text "a") (some (text "b"))).0
    ≡ Reply.one_peer (record me { exit_node = text "b" })
unfolding set_peer_exit_node get_peer get put remove text_beq any
exit_accepted_with_stream = refl

sync_round-set_peer_exit_node_example :
    (r : SyncResponse) × ((sync_round
        (text "100.64.0.0/10")
        (record hub {
          server =
              (set_peer_exit_node with_stream
                (claims_of (text "admin"))
                (text "a")
                (some (text "b"))).1.server;
        })
        2).0
      ≡ some r)
    × (r.exit_node ≡ text "b")
sync_round-set_peer_exit_node_example =
    sync_round-set_peer_exit_node (text "100.64.0.0/10") hub with_stream (claims_of (text "admin"))
      stream (sub_of 2) 2 (text "b") (record me { exit_node = text "b" }) registered refl refl
      three_peers-Distinct three_peers-Keyed exit_accepted_with_stream
