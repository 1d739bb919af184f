-- ===== src/Engine/Sync/Names.antt =====
-- client/internal/engine/engine.go, `applySync`: the names of peers that are removed.
use blinex.Prelude.{
  ◌≡◌, ◌≢◌, refl, inl, inr, Bool, false, Option, none, some, List, [], ◌∷◌, ◌==◌, arith, Bool-cases,
  sym, ap, ◌∙◌, subst,
}
use blinex.Prelude.Text.{Text, text_eq, text_beq_iff}
use blinex.Prelude.Dict.{get, get-remove, Distinct, beq_refl}
use blinex.Management.Sync.{PeerInfo, SyncResponse}
use blinex.Peers.{Manager, diff}
use blinex.Peers.Diff.{Mem, diff-removed_iff}
use blinex.Dns.{Resolver, remove_record, fqdn}
use blinex.Engine.Sync.{
  Engine, os_routes, add_peer, update_peer, reconcile, drop_peer, each, apply_sync,
  routes_by_gateway,
}
use blinex.Engine.Sync.Rounds.{each-Gained, add_peer-Adds, update_peer-Adds, drop_peer-Drops}
use blinex.Engine.Sync.Linked.{reconcile-SamePaths}

-- No record stands for the label.
abbrev pub NoName : Resolver → Text → Type 0
NoName dns label = get dns.records (fqdn dns label) ≡ none

os_routes-dns :
    (e : Engine) (key : Text) (old new : Option (List Text))
    → ((os_routes e key old new).1.dns ≡ e.dns)
      × ((os_routes e key old new).1.self_key ≡ e.self_key)
unfolding os_routes
os_routes-dns e key old new = elim (Bool-cases e.netstack) [
  | inl y ↦ rw y (refl, refl)
  | inr n ↦ rw n (refl, refl)
]

remove_record-NoName_self : (dns : Resolver) (label : Text) → NoName (remove_record dns label) label
unfolding remove_record fqdn
remove_record-NoName_self dns label =
    rw (get-remove dns.records (fqdn dns label) (fqdn dns label))
      (rw (beq_refl (fqdn dns label)) refl)

remove_record-NoName :
    (dns : Resolver) (other label : Text)
    → NoName dns label
    → NoName (remove_record dns other) label
unfolding remove_record fqdn
remove_record-NoName dns other label h =
    rw (get-remove dns.records (fqdn dns other) (fqdn dns label)) (rw h (ground arith))

drop_peer-dns :
    (e : Engine) (p : PeerInfo)
    → p.wg_pub_key ≢ e.self_key
    → (drop_peer e p).1.dns ≡ remove_record e.dns p.dns_label
unfolding drop_peer
drop_peer-dns e p ne =
    let n : p.wg_pub_key == e.self_key ≡ false =
      ground (arith, ne, text_beq_iff p.wg_pub_key e.self_key) in
    rw n (
      ap (λ d. remove_record d p.dns_label)
        (os_routes-dns e p.wg_pub_key (get e.applied_routes p.wg_pub_key) none).0)

drop_peer-NoName :
    (e : Engine) (p : PeerInfo) (label : Text)
    → NoName e.dns label
    → NoName (drop_peer e p).1.dns label
drop_peer-NoName e p label h = elim (Bool-cases (p.wg_pub_key == e.self_key)) [
  | inl y ↦ unfold drop_peer in rw y h
  | inr n ↦
      let ne : p.wg_pub_key ≢ e.self_key =
        (λ q. cc ((text_beq_iff p.wg_pub_key e.self_key).1 q, n)) in
      subst (λ d. NoName d label) (sym (drop_peer-dns e p ne))
        (remove_record-NoName e.dns p.dns_label label h)
]

each-NoName :
    (e : Engine) (ps : List PeerInfo) (label : Text)
    → NoName e.dns label
    → NoName (each drop_peer e ps).1.dns label
unfolding each
each-NoName e [] label h = h
each-NoName e (p ∷ ps) label h =
    each-NoName (drop_peer e p).1 ps label (drop_peer-NoName e p label h)

dropped-NoName :
    (e : Engine) (ps : List PeerInfo) (p : PeerInfo)
    → Mem p ps
    → p.wg_pub_key ≢ e.self_key
    → NoName (each drop_peer e ps).1.dns p.dns_label
unfolding each
dropped-NoName e [] p m ne = absurd m
dropped-NoName e (q ∷ ps) p (inl i) ne = each-NoName (drop_peer e q).1 ps p.dns_label (
    subst (λ (x : PeerInfo). NoName (drop_peer e q).1.dns x.dns_label) i
      (subst (λ d. NoName d q.dns_label)
        (sym (drop_peer-dns e q (λ z. ne (ap (λ (x : PeerInfo). x.wg_pub_key) (sym i) ∙ z))))
        (remove_record-NoName_self e.dns q.dns_label)))
dropped-NoName e (q ∷ ps) p (inr t) ne =
    dropped-NoName (drop_peer e q).1 ps p t (λ z. ne (z ∙ (drop_peer-Drops e q).round.same_key))

-- After an answer of the control plane in which a known peer is missing, the agent resolves the
-- label of that peer to nothing, even if a peer that the same answer adds or renames has that label
-- now: the name of the new peer is deleted with the old one's. The known peers have distinct keys
-- here, and the missing one is not the agent.
pub apply_sync-forgets :
    (found : Bool) (e : Engine) (r : SyncResponse) (k : Text) (p : PeerInfo)
    → Distinct e.peers.peers
    → get e.peers.peers k ≡ some p
    → get (diff e.peers r.peers).1.peers k ≡ none
    → p.wg_pub_key ≢ e.self_key
    → NoName (apply_sync found e r).1.dns p.dns_label
unfolding apply_sync
apply_sync-forgets found e r k p d here gone ne =
    let by_gateway = routes_by_gateway [] r.routes in
    let e0 : Engine = record e { last_routes = r.routes } in
    let s = reconcile-SamePaths found r by_gateway e0 in
    let e1 = (reconcile found r by_gateway e0).1 in
    let changes = (diff e1.peers r.peers).0 in
    let e1' : Engine = record e1 { peers = (diff e1.peers r.peers).1 } in
    let a =
      each-Gained (add_peer by_gateway) (λ (x : PeerInfo). x.wg_pub_key) (add_peer-Adds by_gateway)
        e1' changes.added in
    let e2 = (each (add_peer by_gateway) e1' changes.added).1 in
    let u =
      each-Gained (update_peer by_gateway) (λ u. u.new.wg_pub_key) (update_peer-Adds by_gateway) e2
        changes.updated in
    let e3 = (each (update_peer by_gateway) e2 changes.updated).1 in
    let m : Mem p changes.removed =
      subst (λ (z : Manager). Mem p (diff z r.peers).0.removed) (sym s.round.same_peers)
        ((diff-removed_iff e.peers r.peers p d).1 (k, (here, gone))) in
    dropped-NoName e3 changes.removed p m
      (λ z. ne (z ∙ u.round.same_key ∙ a.round.same_key ∙ s.round.same_key))
