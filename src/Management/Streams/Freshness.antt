-- ===== src/Management/Streams/Freshness.antt =====
-- From the HTTP API to an open stream: httpserver/server.go, `setPeerExitNode`, and
-- grpcserver/server.go, `notifyAll` and `Sync`, of management/internal.
use blinex.Prelude.{
  ℕ, ◌≡◌, refl, inl, inr, true, some, arith, ◌==◌, nat_eq, nat_beq_iff, Bool-cases, [], ◌∷◌, ap,
  subst, ◌∙◌,
}
use blinex.Prelude.Text.{Text, text_eq, text_beq_iff}
use blinex.Prelude.Dict.{Dict, get, Distinct}
use blinex.Management.Domain.{Peer}
use blinex.Management.Store.{get_peer}
use blinex.Management.Store.Frame.{Keyed}
use blinex.Management.Login.{Server, SyncSub, notify_all}
use blinex.Management.Sync.{SyncResponse, build_sync_response}
use blinex.Management.Auth.{Claims}
use blinex.Management.Http.{Api, Reply}
use blinex.Management.Http.Peers.{set_peer_exit_node, save_and_notify}
use blinex.Management.Http.ExitChoice.{accepted, resolve_exit_node-set_peer_exit_node}
use blinex.Management.Streams.{Stream, Hub, own_sub, pushed, round, sync_round, response_to}

-- The stream runs, and its channel is the one that the server's map has under its key.
pub record Registered (h : Hub) (id : ℕ) (x : Stream) (sub : SyncSub) : Type 0 where
  pub runs : get h.running id ≡ some x
  pub named : get h.server.subs x.key ≡ some sub
  pub own : sub.ch ≡ id
  pub account : sub.account_id ≡ x.account_id

notify_all-marks :
    (m : Dict Text SyncSub) (account key : Text) (sub : SyncSub)
    → get m key ≡ some sub
    → sub.account_id ≡ account
    → get (notify_all m account) key ≡ some (record sub { marked = true })
unfolding get notify_all
notify_all-marks [] account key sub h e = absurd (cc h)
notify_all-marks ((k, v) ∷ m) account key sub h e = elim (Bool-cases (k == key)) [
  | inl y ↦
      let s : some v ≡ some sub = ground arith in
      let f : v ≡ sub = cc s in
      let z : (v.account_id == account) ≡ true = (text_beq_iff v.account_id account).1 (rw f e) in
      simp (y, z) (ap (λ (q : SyncSub). some (record q { marked = true })) f)
  | inr n ↦ ground (arith, notify_all-marks m account key sub)
]

-- A registered stream whose channel is marked answers from the store as it is.
round_sends :
    (network : Text) (h : Hub) (id : ℕ) (x : Stream) (sub : SyncSub)
    → get h.running id ≡ some x
    → get h.server.subs x.key ≡ some sub
    → sub.ch ≡ id
    → sub.marked ≡ true
    → (sync_round network h id).0 ≡ some (response_to network h.server x)
unfolding sync_round round own_sub pushed
round_sends network h id x sub r g c m =
    let e : (sub.ch == id) ≡ true = (nat_beq_iff sub.ch id).1 c in rw (r, g, e, m) refl

subs-set_peer_exit_node :
    (a : Api) (c : Claims) (key exit_node : Text) (q : Peer)
    → (set_peer_exit_node a c key (some exit_node)).0 ≡ Reply.one_peer q
    → (set_peer_exit_node a c key (some exit_node)).1.server.subs
      ≡ notify_all a.server.subs c.account_id
unfolding set_peer_exit_node save_and_notify get_peer
subs-set_peer_exit_node a c key exit_node q h =
    let s = accepted a c key exit_node (get a.server.store.peers key) q h in rw s.after refl

-- When the API accepts an exit node for a peer that has a registered stream, the next round of that
-- stream sends an answer, and its exit node is the one chosen, where the stored peers have distinct
-- keys and stand under them.
pub sync_round-set_peer_exit_node :
    (network : Text) (h : Hub) (a : Api) (c : Claims) (x : Stream) (sub : SyncSub) (id : ℕ)
    (exit_node : Text) (q : Peer)
    → Registered h id x sub
    → h.server ≡ a.server
    → x.account_id ≡ c.account_id
    → Distinct a.server.store.peers
    → Keyed (λ (p : Peer). p.wg_pub_key) a.server.store.peers
    → (set_peer_exit_node a c x.key (some exit_node)).0 ≡ Reply.one_peer q
    → (r : SyncResponse) × ((sync_round network
          (record h { server = (set_peer_exit_node a c x.key (some exit_node)).1.server })
          id).0
        ≡ some r)
      × (r.exit_node ≡ exit_node)
sync_round-set_peer_exit_node network h a c x sub id exit_node q reg same acc d keyed ok =
    let s = (set_peer_exit_node a c x.key (some exit_node)).1.server in
    let h' : Hub = record h { server = s } in
    let sub' : SyncSub = record sub { marked = true } in
    let named : get a.server.subs x.key ≡ some sub =
      subst (λ (z : Server). get z.subs x.key ≡ some sub) same reg.named in
    let marked : get s.subs x.key ≡ some sub' =
      rw (subs-set_peer_exit_node a c x.key exit_node q ok)
        (notify_all-marks a.server.subs c.account_id x.key sub named (reg.account ∙ acc)) in
    (
      response_to network s x,
      round_sends network h' id x sub' reg.runs marked reg.own refl,
      (unfold response_to build_sync_response in
          rw acc (resolve_exit_node-set_peer_exit_node a c x.key exit_node q d keyed ok)),
    )
