-- ===== src/Management/Http/Isolation/PeerRoutes.antt =====
-- management/internal/httpserver/server.go: the peer handlers change only the account of the claims.
use blinex.Prelude.{
  ◌≡◌, refl, inl, inr, false, none, some, arith, ◌==◌, Bool-cases, List, Option, Bool, subst, sym,
}
use blinex.Prelude.Text.{Text, text_eq, text_beq_iff, trim, is_space}
use blinex.Prelude.Dict.{get, put, remove, get-put_self}
use blinex.Management.Domain.{Peer, to_dns_label}
use blinex.Management.Store.{get_peer, save_peer, delete_peer}
use blinex.Management.Store.Frame.{Frame-put, Frame-remove, Keyed-put, Keyed-remove, Own-some}
use blinex.Management.Auth.{Claims}
use blinex.Management.Http.{Api, Env, Reply, with_store, notified, ensure_default_group}
use blinex.Management.Http.Peers.{
  PeerBody, assigned, save_and_notify, renamed, regrouped, update_with, update_found, update_peer,
  deleted, delete_found, delete_peer_handler, exit_found, set_peer_exit_node, routes_found,
  set_peer_routes,
}
use blinex.Management.Http.Isolation.{
  Consistent, Safe, Safe-refl, Safe-trans, Safe-peers, Safe-notified,
}

module _ (a : Api) (c : Claims) (key : Text) (p : Peer) (k : Consistent a.server.store)
    (here : get a.server.store.peers key ≡ some p) (own : p.account_id ≡ c.account_id) where
  at_key : p.wg_pub_key ≡ key
  at_key = k.peers_keyed key p here

  -- A record of the account in the place of the peer.
  abbrev Replaces : Peer → Type 0
  Replaces q = (q.wg_pub_key ≡ key) × (q.account_id ≡ c.account_id)

  Safe-assigned : (q : Peer) → Replaces q → Safe c.account_id a (assigned a key q)
  Safe-assigned q r =
      Safe-peers c.account_id a (put a.server.store.peers key q) k
        (Frame-put (λ (x : Peer). x.account_id) c.account_id a.server.store.peers key q r.1
          (Own-some (λ (x : Peer). x.account_id) c.account_id a.server.store.peers key p here own))
        (Keyed-put (λ (x : Peer). x.wg_pub_key) a.server.store.peers q key r.0 k.peers_keyed)

  saved : (q : Peer) → Replaces q → Safe c.account_id a (save_and_notify a c q).1
  unfolding save_and_notify save_peer
  saved q r =
      let b =
        with_store a (record a.server.store { peers = put a.server.store.peers q.wg_pub_key q }) in
      let s : Safe c.account_id a b =
        subst
          (λ j.
            Safe c.account_id a
              (with_store a (record a.server.store { peers = put a.server.store.peers j q })))
          (sym r.0) (Safe-assigned q r) in
      Safe-trans c.account_id a b (notified b c.account_id) s
        (Safe-notified c.account_id b s.consistent)

renamed_safe :
    (a : Api) (e : Env) (c : Claims) (key : Text) (p : Peer)
    → Consistent a.server.store
    → get a.server.store.peers key ≡ some p
    → p.account_id ≡ c.account_id
    → (hostname : Option Text) → Safe c.account_id a (renamed a e c key p hostname).1
unfolding renamed
renamed_safe a e c key p k here own none =
    saved a c key p k here own p (at_key a c key p k here own, own)
renamed_safe a e c key p k here own (some hostname) =
    let name = trim is_space hostname in
    let q = record p { hostname = name; dns_label = to_dns_label e.random name } in
    ground (
      arith,
      Safe-refl c.account_id a k,
      saved a c key p k here own q (at_key a c key p k here own, own),
    )

module _ (a : Api) (e : Env) (c : Claims) (key : Text) (p : Peer) (k : Consistent a.server.store)
    (here : get a.server.store.peers key ≡ some p) (own : p.account_id ≡ c.account_id) where
  regrouped_safe : (body : PeerBody) → Safe c.account_id a (regrouped a e c key p body).1
  unfolding regrouped
  regrouped_safe body =
      let q = record p { groups = ensure_default_group body.groups } in
      let b = assigned a key q in
      let r : Replaces a c key p k here own q = (at_key a c key p k here own, own) in
      let s : Safe c.account_id a b = Safe-assigned a c key p k here own q r in
      let there : get b.server.store.peers key ≡ some q = get-put_self a.server.store.peers key q in
      Safe-trans c.account_id a b (renamed b e c key q body.hostname).1 s
        (renamed_safe b e c key q s.consistent there own body.hostname)

  update_found_safe :
      (body : Option PeerBody) → Safe c.account_id a (update_found a e c key body (some p)).1
  unfolding update_found update_with
  update_found_safe none = ground (arith, Safe-refl c.account_id a k)
  update_found_safe (some body) = ground (arith, Safe-refl c.account_id a k, regrouped_safe body)

  exit_found_safe :
      (exit_node : Text) → Safe c.account_id a (exit_found a c key exit_node (some p)).1
  unfolding exit_found
  exit_found_safe exit_node =
      let q = record p { exit_node = exit_node } in
      ground (
        arith,
        Safe-refl c.account_id a k,
        saved a c key p k here own q (at_key a c key p k here own, own),
      )

  routes_found_safe :
      (routes : List Text) → Safe c.account_id a (routes_found a c routes (some p)).1
  unfolding routes_found
  routes_found_safe routes =
      let q = record p { advertised_routes = routes } in
      ground (
        arith,
        Safe-refl c.account_id a k,
        saved a c key p k here own q (at_key a c key p k here own, own),
      )

  delete_found_safe : Safe c.account_id a (delete_found a e c key (some p)).1
  unfolding delete_found deleted delete_peer
  delete_found_safe =
      let m = remove a.server.store.peers key in
      let s : Safe c.account_id a (with_store a (record a.server.store { peers = m })) =
        Safe-peers c.account_id a m k
          (Frame-remove (λ (x : Peer). x.account_id) c.account_id a.server.store.peers key
            (Own-some (λ (x : Peer). x.account_id) c.account_id a.server.store.peers key p here
              own))
          (Keyed-remove (λ (x : Peer). x.wg_pub_key) a.server.store.peers key k.peers_keyed) in
      let t : Safe c.account_id a (deleted a e key) = record {
        isolated = record {
          accounts = s.isolated.accounts;
          peers = s.isolated.peers;
          groups = s.isolated.groups;
          keys = s.isolated.keys;
          rules = s.isolated.rules;
          streams = s.isolated.streams;
        };
        consistent = record {
          peers_keyed = s.consistent.peers_keyed;
          rules_keyed = s.consistent.rules_keyed;
          rules_distinct = s.consistent.rules_distinct;
          keys_distinct = s.consistent.keys_distinct;
        };
      } in
      ground (arith, Safe-refl c.account_id a k, t)

-- A handler of one peer that refuses a key without a peer, and a peer of another account.
module _ (a : Api) (c : Claims) (key : Text) (k : Consistent a.server.store)
    (f : Option Peer → Reply × Api) (missing : (f none).1 ≡ a)
    (foreign : (p : Peer) → p.account_id == c.account_id ≡ false → (f (some p)).1 ≡ a)
    (own : (p : Peer)
      → get a.server.store.peers key ≡ some p
      → p.account_id ≡ c.account_id
      → Safe c.account_id a (f (some p)).1) where
  by_owner : (o : Option Peer) → get a.server.store.peers key ≡ o → Safe c.account_id a (f o).1
  by_owner none h = subst (λ b. Safe c.account_id a b) (sym missing) (Safe-refl c.account_id a k)
  by_owner (some p) h = elim (Bool-cases (p.account_id == c.account_id)) [
    | inl y ↦ own p h ((text_beq_iff p.account_id c.account_id).0 y)
    | inr n ↦ subst (λ b. Safe c.account_id a b) (sym (foreign p n)) (Safe-refl c.account_id a k)
  ]

module _ (a : Api) (e : Env) (c : Claims) (key : Text) (k : Consistent a.server.store) where
  pub update_peer_safe :
      (body : Option PeerBody) → Safe c.account_id a (update_peer a e c key body).1
  unfolding update_peer get_peer update_found
  update_peer_safe body =
      by_owner a c key k (update_found a e c key body) refl (λ p n. rw n refl)
        (λ p h o. update_found_safe a e c key p k h o body) (get a.server.store.peers key) refl

  pub delete_peer_safe : Safe c.account_id a (delete_peer_handler a e c key).1
  unfolding delete_peer_handler get_peer delete_found
  delete_peer_safe =
      by_owner a c key k (delete_found a e c key) refl (λ p n. rw n refl)
        (λ p h o. delete_found_safe a e c key p k h o) (get a.server.store.peers key) refl

  pub set_peer_exit_node_safe :
      (exit_node : Option Text) → Safe c.account_id a (set_peer_exit_node a c key exit_node).1
  unfolding set_peer_exit_node get_peer exit_found
  set_peer_exit_node_safe none = Safe-refl c.account_id a k
  set_peer_exit_node_safe (some exit_node) =
      by_owner a c key k (exit_found a c key exit_node) refl (λ p n. rw n refl)
        (λ p h o. exit_found_safe a e c key p k h o exit_node) (get a.server.store.peers key) refl

  pub set_peer_routes_safe :
      (ipv6_route : Text → Bool) (routes : Option (List Text))
      → Safe c.account_id a (set_peer_routes ipv6_route a c key routes).1
  unfolding set_peer_routes get_peer routes_found
  set_peer_routes_safe ipv6_route none = Safe-refl c.account_id a k
  set_peer_routes_safe ipv6_route (some routes) =
      let found : Safe c.account_id a (routes_found a c routes (get a.server.store.peers key)).1 =
        by_owner a c key k (routes_found a c routes) refl (λ p n. rw n refl)
          (λ p h o. routes_found_safe a e c key p k h o routes) (get a.server.store.peers key)
          refl in
      ground (arith, Safe-refl c.account_id a k, found)
