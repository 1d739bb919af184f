-- ===== src/Tests/Engine.antt =====
-- The routes of one peer.
use blinex.Prelude.Dict.{put, remove, Distinct}
use blinex.Management.Sync.{PeerInfo, SyncResponse}
use blinex.Peers.{new_manager, diff, incoming_map}
use blinex.Engine.Paths.{ensure_relay_link, send_to}
use blinex.Engine.Paths.Own.{Op, run_paths, step_paths, no_paths, send_to-own}
use blinex.Engine.Sync.{Engine, apply_sync}
use blinex.Engine.Sync.Linked.{Linked, apply_sync-Linked}
use blinex.Engine.Sync.Names.{NoName, apply_sync-forgets}
use blinex.Prelude.{arith, true, ◌++◌, ◌≢◌, ◌↔◌, none, some, Some, any}
use blinex.Prelude.Text.{
  Text, text, split, trim, trim_left, trim_right, is_space, trim_last, to_lower, has_prefix,
  text_beq,
}
use blinex.Dns.{new, is_blocked}
use blinex.Dns.Blocking.{Blocks}
use blinex.Management.Feed.{
  refresh, refreshed, fetched, parse, collect, domain_of, fields, chunks, hash_domains, sort_texts,
  lines_text, insert_text,
}
use blinex.Engine.Blocklist.Current.{Event, start, run_system, step, run_system-current}
use blinex.Prelude.{false, any, none, some, List, [], ◌∷◌, ◌≡◌, refl}
use blinex.Prelude.Text.{Text, text, text_eq, text_beq}
use blinex.Prelude.Dict.{Dict, get}
use blinex.Engine.Routes.{mem, is_default_route, apply_os_routes, update_routes}
use blinex.Engine.Routes.Tracking.{is_set, apply_os_routes-is_set, update_routes_readvertised}

abbrev lan : Text
lan = text "10.1.0.0/16"

abbrev office : Text
office = text "10.2.0.0/16"

abbrev applied : Dict Text (List Text)
applied = (text "a", lan ∷ []) ∷ []

office_plain : is_default_route office ≡ false
unfolding is_default_route text_beq
office_plain = refl

office_unset : false ≡ mem office (lan ∷ [])
unfolding any text_beq
office_unset = refl

apply_os_routes-is_set_example :
    is_set
      (apply_os_routes applied (text "a") (some (lan ∷ [])) (some (office ∷ []))).0
      false
      office
    ≡ mem office (office ∷ [])
apply_os_routes-is_set_example =
    apply_os_routes-is_set office office_plain applied (text "a") (some (lan ∷ []))
      (some (office ∷ [])) false office_unset

recorded_lan : get applied (text "a") ≡ some (lan ∷ [])
unfolding get text_beq
recorded_lan = refl

update_routes_readvertised_example :
    (update_routes (update_routes applied (text "a") none).1 (text "a") (some (lan ∷ []))).0 ≡ []
update_routes_readvertised_example =
    update_routes_readvertised applied (text "a") (lan ∷ []) recorded_lan

abbrev feed_body : Text
feed_body = text "0.0.0.0 Evil.example." ++ b'\n' ∷ text "# a comment"

abbrev itself : Text → Text
itself x = x

abbrev fetched_once : List Event
fetched_once = Event.fetching none ∷ Event.fetching (some feed_body) ∷ []

listed :
    (run_system itself none (text "a") (start (new (text "blinex"))) fetched_once).feed.version
    ≡ text "evil.example" ++ b'\n' ∷ []
unfolding run_system step refresh refreshed fetched parse collect domain_of fields chunks
    hash_domains sort_texts lines_text split trim trim_left trim_right is_space trim_last to_lower
    has_prefix text_beq any insert_text
listed = refl

listed_version :
    (run_system itself none (text "a") (start (new (text "blinex"))) fetched_once).feed.version ≢ []
listed_version e = cc (listed, e)

run_system-current_example :
    (is_blocked
        (run_system itself none
          (text "a")
          (start (new (text "blinex")))
          (Event.polling true ∷ fetched_once)).poller.dns
        (text "www.evil.example.")
      ≡ true)
    ↔ Some
        (λ d. Blocks (text "www.evil.example.") d)
        (run_system itself none (text "a") (start (new (text "blinex"))) fetched_once).feed.domains
run_system-current_example =
    run_system-current itself none (text "a") refl (λ e. cc e) (λ x y e. e) (new (text "blinex"))
      fetched_once (text "www.evil.example.") listed_version

-- An agent that knows one peer, whose place another peer of the same name takes.
abbrev machine : Text → PeerInfo
machine key = record {
  id = key;
  wg_pub_key = key;
  ip = text "100.64.0.2";
  hostname = text "nas";
  os = [];
  allowed_ips = [];
  dns_label = text "nas";
  local_ip = [];
  public_ip = [];
  country = [];
}

abbrev fresh_engine : Engine
fresh_engine = record {
  self_key = text "me";
  netstack = true;
  last_routes = [];
  exit_on = false;
  peers = new_manager;
  applied_routes = [];
  dns = new (text "blinex");
  paths = no_paths;
}

abbrev old_engine : Engine
old_engine = record fresh_engine { peers = record { peers = (text "a", machine (text "a")) ∷ [] } }

abbrev answer_with : List PeerInfo → SyncResponse
answer_with ps = record { peers = ps; routes = []; rules = []; network = []; exit_node = [] }

fresh-Linked : Linked fresh_engine
fresh-Linked = record {
  distinct = tt;
  keyed = λ k p h. absurd (unfold get in cc h);
  paths = λ k p h ne. absurd (unfold get in cc h);
}

apply_sync-Linked_example :
    Linked (apply_sync true fresh_engine (answer_with (machine (text "b") ∷ []))).1
apply_sync-Linked_example =
    apply_sync-Linked true fresh_engine (answer_with (machine (text "b") ∷ [])) fresh-Linked

known_there : get old_engine.peers.peers (text "a") ≡ some (machine (text "a"))
unfolding get text_beq
known_there = refl

not_listed : get (diff old_engine.peers (machine (text "b") ∷ [])).1.peers (text "a") ≡ none
unfolding diff incoming_map get put remove text_beq
not_listed = refl

one_known : Distinct old_engine.peers.peers
one_known = unfold get in (refl, tt)

apply_sync-forgets_example :
    NoName (apply_sync true old_engine (answer_with (machine (text "b") ∷ []))).1.dns (text "nas")
apply_sync-forgets_example =
    apply_sync-forgets true old_engine (answer_with (machine (text "b") ∷ [])) (text "a")
      (machine (text "a")) one_known known_there not_listed (λ e. cc e)

abbrev two_paths : List Op
two_paths = Op.ensure (text "b") ∷ Op.ensure (text "a") ∷ []

second_endpoint : get (run_paths no_paths two_paths).relay_endpts (text "b") ≡ some 2_139_029_506
unfolding run_paths step_paths ensure_relay_link get put remove text_beq
second_endpoint = refl

send_to-own_example : send_to (run_paths no_paths two_paths) 2_139_029_506 ≡ some (text "b")
send_to-own_example = send_to-own two_paths (text "b") 2_139_029_506 (omega arith) second_endpoint
