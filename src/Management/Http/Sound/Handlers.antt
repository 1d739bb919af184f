-- ===== src/Management/Http/Sound/Handlers.antt =====
-- management/internal/httpserver/server.go: each handler keeps the store sound.
use blinex.Prelude.{
  ℤ, ◌≡◌, refl, inl, inr, true, none, some, arith, ◌==◌, Bool-cases, Option, Bool, find, nat_eq,
}
use blinex.Prelude.Text.{Text, text_eq}
use blinex.Prelude.Dict.{get}
use blinex.Management.Domain.{Rule, Group}
use blinex.Management.Store.{
  get_peer, create_group, delete_group, without_group, create_setup_key, delete_setup_key,
  without_key, key_named, save_rule, delete_rule, without_rule, get_rules_by_account,
}
use blinex.Management.Auth.{Claims, authenticate}
use blinex.Management.Http.{Api, Env, with_store}
use blinex.Management.Http.Peers.{
  list_peers, update_peer, delete_peer_handler, set_peer_exit_node, set_peer_routes,
}
use blinex.Management.Http.Groups.{
  list_groups, create_group_handler, after_delete, delete_group_handler,
}
use blinex.Management.Http.Keys.{
  KeyBody, list_setup_keys, create_setup_key_handler, delete_setup_key_handler, new_setup_key,
}
use blinex.Management.Http.Rules.{
  validate_rule_fields, port_ok, is_valid_action, list_rules, RuleBody, new_rule,
  save_rule_and_notify, create_rule, RulePatch, patched, patch_rule, update_found_rule, update_rule,
  rule_deleted, delete_rule_handler, or_old, action_ok, number,
}
use blinex.Management.Http.Dispatch.{Route, handle, authorized, serve}
use blinex.Management.Store.Order.{get_rules_by_account-Ascending}
use blinex.Management.Http.Isolation.OtherRoutes.{find_Mem}
use blinex.Management.Http.Sound.{Every-remove, Every-put, Every-Mem, ValidRule, SoundApi}
use blinex.Management.Http.Sound.PeerHandlers.{
  update_found_sound, delete_found_sound, exit_found_sound, routes_found_sound,
}

module _ (ipv6 : Text → Bool) where
  saved_rule :
      (a : Api) (c : Claims) (r : Rule)
      → SoundApi ipv6 a
      → ValidRule ipv6 r
      → SoundApi ipv6 (save_rule_and_notify a c r).1
  unfolding save_rule_and_notify save_rule
  saved_rule a c r s v = record {
    peers = s.peers;
    rules = Every-put (ValidRule ipv6) a.server.store.rules r.id r v s.rules;
  }

  -- A port that was accepted is the number that is stored.
  valid_number :
      (src dst protocol : Text) (z : ℤ)
      → validate_rule_fields ipv6 src dst protocol z ≡ true
      → validate_rule_fields ipv6 src dst protocol (ℤ.pos (number z)) ≡ true
  unfolding validate_rule_fields port_ok
  valid_number src dst protocol (ℤ.pos n) h = h
  valid_number src dst protocol (ℤ.negsuc n) h = ground arith

  create_rule_sound :
      (a : Api) (e : Env) (c : Claims) (body : Option RuleBody)
      → SoundApi ipv6 a
      → SoundApi ipv6 (create_rule ipv6 a e c body).1
  unfolding create_rule new_rule
  create_rule_sound a e c none s = s
  create_rule_sound a e c (some body) s =
      let r = new_rule e c body in
      let port = body.port in
      elim (Bool-cases (is_valid_action body.action)) [
        | inl y ↦
            elim (Bool-cases (validate_rule_fields ipv6 body.src body.dst body.protocol port)) [
              | inl z ↦
                  rw (y, z)
                    (saved_rule a c r s (y, valid_number body.src body.dst body.protocol port z))
              | inr n ↦ rw (y, n) s
            ]
        | inr n ↦ rw n s
      ]

  action_kept :
      (o : Option Text) (old : Text)
      → action_ok o ≡ true
      → is_valid_action old ≡ true
      → is_valid_action (or_old o old) ≡ true
  action_kept none old h v = v
  action_kept (some x) old h v = h

  patch_rule_sound :
      (a : Api) (c : Claims) (r : Rule) (q : Option RulePatch)
      → SoundApi ipv6 a
      → ValidRule ipv6 r
      → SoundApi ipv6 (patch_rule ipv6 a c r q).1
  unfolding patch_rule patched
  patch_rule_sound a c r none s v = s
  patch_rule_sound a c r (some q) s v =
      let r' = patched r q in
      let port = or_old q.port (ℤ.pos r.port) in
      elim (Bool-cases (action_ok q.action)) [
        | inl y ↦ elim (Bool-cases (validate_rule_fields ipv6 r'.src r'.dst r'.protocol port)) [
          | inl z ↦
              rw (y, z)
                (saved_rule a c r' s (
                  action_kept q.action r.action y v.0,
                  valid_number r'.src r'.dst r'.protocol port z,
                ))
          | inr n ↦ rw (y, n) s
        ]
        | inr n ↦ rw n s
      ]

  update_rule_sound :
      (a : Api) (c : Claims) (id : Text) (q : Option RulePatch) (o : Option Rule)
      → find (λ r. r.id == id) (get_rules_by_account a.server.store c.account_id) ≡ o
      → SoundApi ipv6 a
      → SoundApi ipv6 (update_found_rule ipv6 a c q o).1
  unfolding update_found_rule
  update_rule_sound a c id q none h s = s
  update_rule_sound a c id q (some r) h s =
      let rules = get_rules_by_account a.server.store c.account_id in
      let m =
        (get_rules_by_account-Ascending a.server.store c.account_id r).1.0
          (find_Mem (λ x. x.id == id) rules r h) in
      patch_rule_sound a c r q s (Every-Mem (ValidRule ipv6) a.server.store.rules r s.rules m.0)

  after_delete_group :
      (a : Api) (account id : Text) (o : Option Group)
      → SoundApi ipv6 a
      → SoundApi ipv6 (after_delete a (without_group a.server.store account id o)).1
  unfolding after_delete without_group
  after_delete_group a account id none s = s
  after_delete_group a account id (some g) s = elim (Bool-cases (g.account_id == account)) [
    | inl y ↦ rw y (record { peers = s.peers; rules = s.rules })
    | inr n ↦ rw n s
  ]

  after_delete_key :
      (a : Api) (o : Option Text)
      → SoundApi ipv6 a
      → SoundApi ipv6 (after_delete a (without_key a.server.store o)).1
  unfolding after_delete without_key
  after_delete_key a none s = s
  after_delete_key a (some k) s = record { peers = s.peers; rules = s.rules }

  rule_deleted_sound :
      (a : Api) (c : Claims) (id : Text) (o : Option Rule)
      → SoundApi ipv6 a
      → SoundApi ipv6 (rule_deleted a c (without_rule a.server.store c.account_id id o)).1
  unfolding rule_deleted without_rule
  rule_deleted_sound a c id none s = s
  rule_deleted_sound a c id (some r) s = elim (Bool-cases (r.account_id == c.account_id)) [
    | inl y ↦ rw y (record {
      peers = s.peers;
      rules = Every-remove (ValidRule ipv6) a.server.store.rules id s.rules;
    })
    | inr n ↦ rw n s
  ]

  create_group_sound :
      (a : Api) (e : Env) (c : Claims) (name : Option Text)
      → SoundApi ipv6 a
      → SoundApi ipv6 (create_group_handler a e c name).1
  unfolding create_group_handler create_group
  create_group_sound a e c none s = s
  create_group_sound a e c (some name) s =
      let g : Group = record {
        id = e.id;
        account_id = c.account_id;
        name = name;
        created_at = e.now;
      } in
      let t : SoundApi ipv6 (with_store a (create_group a.server.store g)) = record {
        peers = s.peers;
        rules = s.rules;
      } in
      ground (arith, s, t)

  create_setup_key_sound :
      (a : Api) (e : Env) (c : Claims) (body : Option KeyBody)
      → SoundApi ipv6 a
      → SoundApi ipv6 (create_setup_key_handler a e c body).1
  unfolding create_setup_key_handler create_setup_key
  create_setup_key_sound a e c none s = s
  create_setup_key_sound a e c (some body) s =
      let t : SoundApi ipv6
          (with_store a (create_setup_key a.server.store (new_setup_key e c body))) =
        record { peers = s.peers; rules = s.rules } in
      ground (arith, s, t)

  module _ (ipv6_route : Text → Bool) where
    pub handle_sound :
        (parse : Text → Option Claims) (a : Api) (e : Env) (c : Claims) (route : Route)
        → SoundApi ipv6 a
        → SoundApi ipv6 (handle parse ipv6 ipv6_route a e c route).1
    unfolding handle list_peers list_groups list_setup_keys list_rules update_peer
        delete_peer_handler set_peer_exit_node set_peer_routes delete_group_handler delete_group
        delete_setup_key_handler delete_setup_key update_rule delete_rule_handler delete_rule
        get_peer
    handle_sound parse a e c Route.get_peers s = s
    handle_sound parse a e c Route.get_groups s = s
    handle_sound parse a e c Route.get_rules s = s
    handle_sound parse a e c Route.get_setup_keys s = s
    handle_sound parse a e c (Route.put_peer key body) s =
        update_found_sound ipv6 a e c key body (get a.server.store.peers key) s
    handle_sound parse a e c (Route.drop_peer key) s =
        delete_found_sound ipv6 a e c key (get a.server.store.peers key) s
    handle_sound parse a e c (Route.put_routes key none) s = s
    handle_sound parse a e c (Route.put_routes key (some r)) s =
        let t = routes_found_sound ipv6 a c key r (get a.server.store.peers key) refl s in
        ground (arith, s, t)
    handle_sound parse a e c (Route.put_exit_node key none) s = s
    handle_sound parse a e c (Route.put_exit_node key (some x)) s =
        exit_found_sound ipv6 a c key x (get a.server.store.peers key) refl s
    handle_sound parse a e c (Route.post_group name) s = create_group_sound a e c name s
    handle_sound parse a e c (Route.drop_group id) s =
        let t = after_delete_group a c.account_id id (get a.server.store.groups id) s in
        ground (arith, s, t)
    handle_sound parse a e c (Route.post_setup_key body) s = create_setup_key_sound a e c body s
    handle_sound parse a e c (Route.drop_setup_key id) s =
        after_delete_key a (key_named a.server.store.setup_keys c.account_id id) s
    handle_sound parse a e c (Route.post_rule body) s = create_rule_sound a e c body s
    handle_sound parse a e c (Route.put_rule id body) s =
        update_rule_sound a c id body
          (find (λ r. r.id == id) (get_rules_by_account a.server.store c.account_id)) refl s
    handle_sound parse a e c (Route.drop_rule id) s =
        rule_deleted_sound a c id (get a.server.store.rules id) s

    authorized_sound :
        (parse : Text → Option Claims) (a : Api) (e : Env) (route : Route) (o : Option Claims)
        → SoundApi ipv6 a
        → SoundApi ipv6 (authorized parse ipv6 ipv6_route a e route o).1
    unfolding authorized
    authorized_sound parse a e route none s = s
    authorized_sound parse a e route (some c) s =
        ground (arith, s, handle_sound parse a e c route s)

    pub serve_sound :
        (parse : Text → Option Claims) (a : Api) (e : Env) (header : Text) (route : Route)
        → SoundApi ipv6 a
        → SoundApi ipv6 (serve parse ipv6 ipv6_route a e header route).1
    unfolding serve
    serve_sound parse a e header route s =
        authorized_sound parse a e route (authenticate parse a.auth header) s
