-- ===== src/Management/Http/ExitChoice.antt =====
-- management/internal/httpserver/server.go, `setPeerExitNode`, with `resolveExitNode` of
-- grpcserver/server.go: what is resolved once a choice is accepted.
use blinex.Prelude.{
  ◌≡◌, refl, inl, inr, true, false, none, some, arith, ◌==◌, Bool-cases, [], ◌∷◌, Option, any, find,
  keep, ap, sym,
}
use blinex.Prelude.Text.{Text, text_eq, text_beq_iff, text}
use blinex.Prelude.Dict.{Dict, get, put, Distinct, Distinct-put, get-put, beq_refl}
use blinex.Management.Domain.{Peer}
use blinex.Management.Store.{values, get_peer, get_peers_by_account, save_peer}
use blinex.Management.Store.Frame.{Keyed, Keyed-put}
use blinex.Management.Sync.{resolve_exit_node}
use blinex.Management.Auth.{Claims}
use blinex.Management.Http.{Api, Reply}
use blinex.Management.Http.Peers.{save_and_notify, offers_exit, exit_found, set_peer_exit_node}

Keyed-tail :
    (k : Text) (v : Peer) (m : Dict Text Peer)
    → get m k ≡ none
    → Keyed (λ (p : Peer). p.wg_pub_key) ((k, v) ∷ m)
    → Keyed (λ (p : Peer). p.wg_pub_key) m
Keyed-tail k v m d keyed j u g = keyed j u (
    unfold get in
    elim (Bool-cases (k == j)) [
      | inl y ↦ absurd (
          let same : k ≡ j = (text_beq_iff k j).0 y in
          let h : get m k ≡ some u = rw same g in cc (h, d))
      | inr n ↦ rw n g
    ])

-- The peer of a key is the first of that key among the account's.
find_listed :
    (m : Dict Text Peer) (account key : Text) (p : Peer)
    → Distinct m
    → Keyed (λ (x : Peer). x.wg_pub_key) m
    → get m key ≡ some p
    → p.account_id ≡ account
    → find (λ x. x.wg_pub_key == key) (keep (λ x. x.account_id == account) (values m)) ≡ some p
unfolding find keep values
find_listed [] account key p d keyed g own = absurd (unfold get in cc g)
find_listed ((k, v) ∷ m) account key p d keyed g own =
    let here : get ((k, v) ∷ m) k ≡ some v = (unfold get in rw (beq_refl k) refl) in
    let at : v.wg_pub_key ≡ k = keyed k v here in
    elim (Bool-cases (k == key)) [
      | inl y ↦
          let e : some v ≡ some p = (unfold get in ground arith) in
          let f : v ≡ p = cc e in
          let owned : (v.account_id == account) ≡ true =
            (text_beq_iff v.account_id account).1 (rw f own) in
          simp (owned, at, y) (ap some f)
      | inr n ↦
          let tail : get m key ≡ some p = (unfold get in ground arith) in
          let rest = find_listed m account key p d.1 (Keyed-tail k v m d.0 keyed) tail own in
          ground (arith, rest, at)
    ]

-- What is sent when the peer has chosen an exit node that is another peer and offers a default
-- route, or none.
resolve_chosen :
    (m : Dict Text Peer) (account key : Text) (p : Peer) (gw : Option Peer) (chosen : Text)
    → Distinct m
    → Keyed (λ (x : Peer). x.wg_pub_key) m
    → get m key ≡ some p
    → p.account_id ≡ account
    → p.exit_node ≡ chosen
    → (chosen == key) ≡ false
    → get m chosen ≡ gw
    → (chosen == [] ≡ false
        → (w : Peer) × (gw ≡ some w)
          × (w.account_id ≡ account)
          × (any (λ r. r == text "0.0.0.0/0") w.advertised_routes ≡ true))
    → resolve_exit_node (keep (λ x. x.account_id == account) (values m)) key ≡ chosen
unfolding resolve_exit_node
resolve_chosen m account key p gw chosen d keyed g own e ne gg offer =
    rw (find_listed m account key p d keyed g own, e, ne)
      (elim (Bool-cases (chosen == [])) [
        | inl y ↦ rw y (sym ((text_beq_iff chosen []).0 y))
        | inr n ↦
            let (w, is, o, any_route) = offer n in
            rw (n, find_listed m account chosen w d keyed (cc (gg, is)) o, any_route) refl
      ])

offered :
    (a : Api) (c : Claims) (o : Option Peer)
    → offers_exit c o ≡ true
    → (w : Peer) × (o ≡ some w)
      × (w.account_id ≡ c.account_id)
      × (any (λ r. r == text "0.0.0.0/0") w.advertised_routes ≡ true)
unfolding offers_exit
offered a c none h = absurd (cc h)
offered a c (some w) h =
    (w, refl, ground (arith, text_beq_iff w.account_id c.account_id), ground arith)

module _ (a : Api) (c : Claims) (key exit_node : Text) where
  -- What an accepted choice of `exit_found` passed.
  pub record Accepted (o : Option Peer) : Type 0 where
    pub p : Peer
    pub found : o ≡ some p
    pub own : p.account_id ≡ c.account_id
    pub other : exit_node == key ≡ false
    pub offer : exit_node == [] ≡ false → offers_exit c (get_peer a.server.store exit_node) ≡ true
    pub after :
        (exit_found a c key exit_node o).1
        ≡ (save_and_notify a c (record p { exit_node = exit_node })).1

  pub accepted :
      (o : Option Peer) (q : Peer)
      → (exit_found a c key exit_node o).0 ≡ Reply.one_peer q
      → Accepted o
  unfolding exit_found
  accepted none q h = absurd (cc h)
  accepted (some p) q h = record {
    p = p;
    found = refl;
    own = ground (arith, text_beq_iff p.account_id c.account_id);
    other = ground arith;
    offer = λ n. ground arith;
    after = ground arith;
  }

-- Right after the API has accepted a choice of an exit node, resolving it over the peers of the
-- account, as an answer to the peer does, gives the chosen key, and none if the choice was cleared,
-- where the stored peers have distinct keys and stand under them. What later calls do to the choice
-- is left open.
pub resolve_exit_node-set_peer_exit_node :
    (a : Api) (c : Claims) (key exit_node : Text) (q : Peer)
    → Distinct a.server.store.peers
    → Keyed (λ (p : Peer). p.wg_pub_key) a.server.store.peers
    → (set_peer_exit_node a c key (some exit_node)).0 ≡ Reply.one_peer q
    → resolve_exit_node
        (get_peers_by_account
          (set_peer_exit_node a c key (some exit_node)).1.server.store
          c.account_id)
        key
      ≡ exit_node
unfolding set_peer_exit_node get_peers_by_account save_and_notify save_peer get_peer
resolve_exit_node-set_peer_exit_node a c key exit_node q d keyed h =
    let m = a.server.store.peers in
    let s = accepted a c key exit_node (get m key) q h in
    let p' = record s.p { exit_node = exit_node } in
    let at : s.p.wg_pub_key ≡ key = keyed key s.p s.found in
    let m' = put m s.p.wg_pub_key p' in
    let other : s.p.wg_pub_key == exit_node ≡ false =
      ground
        (arith, at, s.other, text_beq_iff s.p.wg_pub_key exit_node, text_beq_iff exit_node key) in
    rw s.after (
      resolve_chosen m' c.account_id key p' (get m exit_node) exit_node
        (Distinct-put m s.p.wg_pub_key p' d)
        (Keyed-put (λ (x : Peer). x.wg_pub_key) m p' s.p.wg_pub_key refl keyed)
        (rw (get-put m s.p.wg_pub_key key p') (ground (arith, at, text_beq_iff s.p.wg_pub_key key)))
        s.own refl s.other (rw (get-put m s.p.wg_pub_key exit_node p', other) refl)
        (λ n. offered a c (get m exit_node) (s.offer n)))
