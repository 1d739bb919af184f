-- ===== src/Management/Http/Deletion.antt =====
-- management/internal/httpserver/server.go, `deletePeer`, with the token check of auth/auth.go that
-- both servers rest on.
use blinex.Prelude.{◌≡◌, ◌≤◌, refl, none, some, arith, List, Option}
use blinex.Prelude.Text.{Text, text_eq}
use blinex.Prelude.Dict.{Dict, get, remove, get-remove, beq_refl}
use blinex.Management.Domain.{Peer}
use blinex.Management.Ipam.{release}
use blinex.Management.Store.{get_peer, delete_peer}
use blinex.Management.Auth.{Claims, validate_token}
use blinex.Management.Auth.Revocation.{Revoked, run_revocations, Ordered, validate_token-revoked}
use blinex.Management.Http.{Api, Env, Reply}
use blinex.Management.Http.Peers.{deleted, delete_found, delete_peer_handler}

delete_found_ok :
    (a : Api) (e : Env) (c : Claims) (key : Text) (o : Option Peer)
    → (delete_found a e c key o).0 ≡ Reply.no_content
    → (delete_found a e c key o).1 ≡ deleted a e key
unfolding delete_found
delete_found_ok a e c key none h = absurd (cc h)
delete_found_ok a e c key (some p) h = ground arith

get-remove_self : {V : Type 0} (m : Dict Text V) (key : Text) → get (remove m key) key ≡ none
get-remove_self m key = rw (get-remove m key key) (rw (beq_refl key) refl)

-- After a deletion that the API confirms, the peer is not stored, its address is not leased, and no
-- token of its key that was issued until then is accepted again, whatever is revoked later.
pub delete_peer_handler-revokes :
    (parse : Text → Option Claims) (a : Api) (e : Env) (c : Claims) (key : Text)
    (later : List Revoked) (token : Text) (claims : Claims)
    → (delete_peer_handler a e c key).0 ≡ Reply.no_content
    → Ordered e.now later
    → parse token ≡ some claims
    → claims.wg_pub_key ≡ key
    → claims.issued_at ≤ e.now
    → (get_peer (delete_peer_handler a e c key).1.server.store key ≡ none)
      × (get (delete_peer_handler a e c key).1.server.ipam.leased key ≡ none)
      × (validate_token parse (run_revocations (delete_peer_handler a e c key).1.auth later) token
          ≡ none)
unfolding delete_peer_handler
delete_peer_handler-revokes parse a e c key later token claims h o p k i =
    rw (delete_found_ok a e c key (get_peer a.server.store key) h) (
      unfold deleted delete_peer get_peer release in
      (
        get-remove_self a.server.store.peers key,
        get-remove_self a.server.ipam.leased key,
        validate_token-revoked parse a.auth key e.now later token claims o p k i,
      ))
