-- ===== src/Tests/Account.antt =====
-- An account with two enrolled peers: enrolment and what a peer is sent.
use blinex.Prelude.{◌≢◌, some, arith, ◌≡◌, refl, ◌↔◌, true, false, List, [], ◌∷◌, ◌++◌}
use blinex.Prelude.Text.{Text, text_beq_iff, text, text_eq, text_beq}
use blinex.Prelude.Dict.{Distinct, get, put}
use blinex.Netip.Print.{addr_text, byte_text}
use blinex.Wgmgr.Acl.{acl_allows}
use blinex.Management.Domain.{SetupKey, Peer, Rule, default_group_name}
use blinex.Management.Ipam.{allocate, allocate_host}
use blinex.Management.RateLimit.{new_rate_limiter, allow}
use blinex.Management.Store.{
  Store, new, get_setup_key, get_peer, save_peer, increment_setup_key_usage, count_use,
}
use blinex.Management.Login.{
  Server, Call, Code, Result, LoginResponse, login, with_key, no_meta, merged, new_peer,
}
use blinex.Management.Login.Enrolment.{Enrolled, login-Enrolled, login_refusal}
use blinex.Management.Login.OneUse.{OwnId, Commit, run_commits, ephemeral_used_once}
use blinex.Management.Sync.{index_peers, rules_to_send, resolve_exit_node, default_route}
use blinex.Management.Sync.Policy.{policy, rules_to_send-policy}
use blinex.Management.Sync.ExitNode.{ExitFor, resolve_exit_node_iff}

abbrev server : Server
server = record {
  store = new (text "seed") (text "1") 0;
  ipam = record {
    network = record { addr = 1681915904; bits = 10 };
    next = 1681915905;
    leased = [];
  };
  login_limits = new_rate_limiter 0;
  subs = [];
}

abbrev call : Call
call = record { source_ip = text "9.9.9.9"; now = 7; new_id = text "id"; random = text "0123abcd" }

abbrev issue : Text → Text → Text → Text
issue id key account = id ++ key

abbrev response : LoginResponse
response = record { peer_id = text "id"; token = text "ida"; address = text "100.64.0.1/32" }

accepted : (login issue server call (text "seed") (text "a") no_meta).0 ≡ Result.done response
unfolding login new get_setup_key get_peer allow allocate get put new_rate_limiter text_beq
    allocate_host merged new_peer addr_text byte_text
accepted = refl

login-Enrolled_example :
    Enrolled
      (new (text "seed") (text "1") 0)
      server.ipam
      (login issue server call (text "seed") (text "a") no_meta).1.store
      call
      (text "seed")
      (text "a")
      response
login-Enrolled_example =
    login-Enrolled issue server call (text "seed") (text "a") no_meta response accepted

refused :
    (login issue server call (text "guess") (text "a") no_meta).0 ≡ Result.fail Code.unauthenticated
unfolding login new get_setup_key allow get put new_rate_limiter text_beq
refused = refl

login_refusal_example :
    (login issue server call (text "guess") (text "a") no_meta).1.store
    ≡ new (text "seed") (text "1") 0
login_refusal_example =
    login_refusal issue server call (text "guess") (text "a") no_meta Code.unauthenticated refused

abbrev peer : Text → Text → Text → List Text → Peer
peer key ip exit routes = record {
  id = key;
  account_id = text "default";
  wg_pub_key = key;
  ip = ip;
  local_ip = [];
  public_ip = [];
  country = [];
  hostname = key;
  os = [];
  kernel = [];
  version = [];
  dns_label = key;
  groups = default_group_name ∷ [];
  allowed_ips = (ip ++ text "/32") ∷ [];
  advertised_routes = routes;
  exit_node = exit;
  connected = false;
  last_seen = 0;
  created_at = 0;
}

abbrev peers : List Peer
peers =
    peer (text "a") (text "100.64.0.1") (text "b") []
    ∷ peer (text "b") (text "100.64.0.2") [] (default_route ∷ [])
    ∷ []

abbrev to_web : Rule
to_web = record {
  id = text "r";
  account_id = text "default";
  name = text "open";
  src = text "group:Default";
  dst = text "100.64.0.2";
  protocol = text "tcp";
  port = 80;
  action = text "allow";
  enabled = true;
  priority = 1;
  created_at = 0;
}

rules_to_send-policy_example :
    acl_allows
      (rules_to_send (index_peers [] peers) (to_web ∷ []))
      1681915905
      1681915906
      (text "tcp")
      80
    ≡ policy peers (to_web ∷ []) 1681915905 1681915906 (text "tcp") 80
rules_to_send-policy_example =
    rules_to_send-policy 1681915905 1681915906 (text "tcp") 80 peers (to_web ∷ [])

resolve_exit_node_iff_example :
    (resolve_exit_node peers (text "a") ≡ text "b") ↔ ExitFor peers (text "a") (text "b")
resolve_exit_node_iff_example = resolve_exit_node_iff peers (text "a") (text "b") (λ e. cc e)

-- A store with one ephemeral setup key.
abbrev one_use : SetupKey
one_use = record {
  id = text "1";
  account_id = text "default";
  key = text "once";
  name = [];
  ephemeral = true;
  used_count = 0;
  auto_groups = [];
  created_at = 0;
  expires_at = 1000;
}

abbrev one_use_server : Server
one_use_server = record server {
  store = record {
    accounts = [];
    setup_keys = (text "once", one_use) ∷ [];
    groups = [];
    peers = [];
    rules = [];
  };
}

abbrev first_login : Commit
first_login = record { call = call; key = text "a"; meta = no_meta; read = one_use }

abbrev second_login : Commit
second_login = record first_login { key = text "b" }

first_accepted :
    (with_key issue one_use_server call (text "a") no_meta (some one_use)).0 ≡ Result.done response
unfolding with_key get_peer allocate get put text_beq allocate_host merged new_peer addr_text
    byte_text
first_accepted = refl

-- A second login that has read the setup key before the first one counted it up enrols too.
overlapping_accepted :
    (r : LoginResponse) × ((with_key issue
        (with_key issue one_use_server call (text "a") no_meta (some one_use)).1
        call
        (text "b")
        no_meta
        (some one_use)).0
      ≡ Result.done r)
unfolding with_key get_peer allocate get put text_beq allocate_host merged new_peer addr_text
    byte_text save_peer increment_setup_key_usage count_use
overlapping_accepted =
    (record response { token = text "idb"; address = text "100.64.0.2/32" }, refl)

one_use_found : get one_use_server.store.setup_keys (text "once") ≡ some one_use
unfolding get text_beq
one_use_found = refl

one_use-OwnId : OwnId one_use_server.store.setup_keys (text "once") (text "1")
unfolding get
one_use-OwnId j sk g e = ground (arith, text_beq_iff (text "once") j)

one_use-Distinct : Distinct one_use_server.store.setup_keys
one_use-Distinct = (unfold get in refl, tt)

ephemeral_used_once_example :
    (with_key issue one_use_server call (text "c") no_meta (
      get_setup_key
        (run_commits issue
          (with_key issue one_use_server call (text "a") no_meta (some one_use)).1
          (second_login ∷ [])).store
        (text "once")
        call.now)).0
    ≢ Result.done response
ephemeral_used_once_example =
    ephemeral_used_once issue one_use_server (text "once") first_login response one_use
      (second_login ∷ []) one_use_server call (text "c") no_meta response one_use-Distinct
      one_use-OwnId one_use_found refl refl first_accepted

-- A store of two rules, the later one first.
abbrev two_rules : Store
two_rules = record one_use_server.store {
  rules = (text "s", record to_web { id = text "s"; priority = 2 }) ∷ (text "r", to_web) ∷ [];
}
