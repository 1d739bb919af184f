-- ===== src/Management/Http/Sound/PeerHandlers.antt =====
-- management/internal/httpserver/server.go: the peer handlers keep the store sound.
use blinex.Prelude.{◌≡◌, refl, none, some, arith, List, Option, Bool, nat_eq}
use blinex.Prelude.Text.{Text, text_eq, trim, is_space}
use blinex.Prelude.Dict.{get}
use blinex.Management.Domain.{Peer, to_dns_label}
use blinex.Management.Store.{save_peer, delete_peer}
use blinex.Management.Auth.{Claims}
use blinex.Management.Http.{Api, Env, ensure_default_group}
use blinex.Management.Http.Peers.{
  PeerBody, assigned, save_and_notify, renamed, regrouped, update_with, update_found, deleted,
  delete_found, exit_found, routes_found,
}
use blinex.Management.Http.Sound.{
  Every-get, Every-remove, Every-put, InDefault, ensure_default_group-InDefault, SoundApi,
}

module _ (ipv6 : Text → Bool) where
  saved :
      (a : Api) (c : Claims) (q : Peer)
      → SoundApi ipv6 a
      → InDefault q
      → SoundApi ipv6 (save_and_notify a c q).1
  unfolding save_and_notify save_peer
  saved a c q s d = record {
    peers = Every-put InDefault a.server.store.peers q.wg_pub_key q d s.peers;
    rules = s.rules;
  }

  renamed_sound :
      (a : Api) (e : Env) (c : Claims) (key : Text) (p : Peer) (h : Option Text)
      → SoundApi ipv6 a
      → InDefault p
      → SoundApi ipv6 (renamed a e c key p h).1
  unfolding renamed
  renamed_sound a e c key p none s d = saved a c p s d
  renamed_sound a e c key p (some x) s d =
      let name = trim is_space x in
      ground (
        arith,
        s,
        saved a c (record p { hostname = name; dns_label = to_dns_label e.random name }) s d,
      )

  regrouped_sound :
      (a : Api) (e : Env) (c : Claims) (key : Text) (p : Peer) (body : PeerBody)
      → SoundApi ipv6 a
      → SoundApi ipv6 (regrouped a e c key p body).1
  unfolding regrouped
  regrouped_sound a e c key p body s =
      let q = record p { groups = ensure_default_group body.groups } in
      let d : InDefault q = ensure_default_group-InDefault ipv6 q body.groups refl in
      renamed_sound (assigned a key q) e c key q body.hostname
        (record {
          peers = Every-put InDefault a.server.store.peers key q d s.peers;
          rules = s.rules;
        })
        d

  pub update_found_sound :
      (a : Api) (e : Env) (c : Claims) (key : Text) (body : Option PeerBody) (o : Option Peer)
      → SoundApi ipv6 a
      → SoundApi ipv6 (update_found a e c key body o).1
  unfolding update_found update_with
  update_found_sound a e c key body none s = s
  update_found_sound a e c key none (some p) s = ground (arith, s)
  update_found_sound a e c key (some body) (some p) s =
      ground (arith, s, regrouped_sound a e c key p body s)

  pub delete_found_sound :
      (a : Api) (e : Env) (c : Claims) (key : Text) (o : Option Peer)
      → SoundApi ipv6 a
      → SoundApi ipv6 (delete_found a e c key o).1
  unfolding delete_found deleted delete_peer
  delete_found_sound a e c key none s = s
  delete_found_sound a e c key (some p) s =
      let t : SoundApi ipv6 (deleted a e key) = record {
        peers = Every-remove InDefault a.server.store.peers key s.peers;
        rules = s.rules;
      } in
      ground (arith, s, t)

  pub exit_found_sound :
      (a : Api) (c : Claims) (key gw : Text) (o : Option Peer)
      → get a.server.store.peers key ≡ o
      → SoundApi ipv6 a
      → SoundApi ipv6 (exit_found a c key gw o).1
  unfolding exit_found
  exit_found_sound a c key gw none h s = s
  exit_found_sound a c key gw (some p) h s =
      let d : InDefault p = Every-get InDefault a.server.store.peers key p s.peers h in
      ground (arith, s, saved a c (record p { exit_node = gw }) s d)

  pub routes_found_sound :
      (a : Api) (c : Claims) (key : Text) (routes : List Text) (o : Option Peer)
      → get a.server.store.peers key ≡ o
      → SoundApi ipv6 a
      → SoundApi ipv6 (routes_found a c routes o).1
  unfolding routes_found
  routes_found_sound a c key routes none h s = s
  routes_found_sound a c key routes (some p) h s =
      let d : InDefault p = Every-get InDefault a.server.store.peers key p s.peers h in
      ground (arith, s, saved a c (record p { advertised_routes = routes }) s d)
