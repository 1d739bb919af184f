-- ===== src/Engine/Sync/Linked.antt =====
-- client/internal/engine/engine.go, `applySync`: every peer that the agent knows has a data path.
use blinex.Prelude.{
  ◌≡◌, ◌≢◌, refl, Bool, false, Option, none, some, List, [], ◌∷◌, nat_eq, arith, sym, ◌∙◌, subst,
}
use blinex.Prelude.Text.{Text, text_eq}
use blinex.Prelude.Dict.{Dict, get, put, Distinct, Distinct-put}
use blinex.Management.Sync.{PeerInfo, SyncResponse}
use blinex.Peers.{Manager, Update, Changes, incoming_map, diff}
use blinex.Peers.Diff.{Mem, Reported, diff-Reported, diff-removed_iff}
use blinex.Engine.Sync.{
  Engine, switch_exit, reconcile, add_peer, update_peer, drop_peer, each, apply_sync,
  routes_by_gateway,
}
use blinex.Engine.Sync.Rounds.{
  Has, SamePaths, add_peer-Adds, update_peer-Adds, drop_peer-Drops, Gained, each-Gained, Dropped,
  each-Dropped,
}

-- The known peers have distinct keys and stand under them, and each but the agent has a path.
pub record Linked (e : Engine) : Type 0 where
  pub distinct : Distinct e.peers.peers
  pub keyed : (k : Text) (p : PeerInfo) → get e.peers.peers k ≡ some p → p.wg_pub_key ≡ k
  pub paths :
      (k : Text) (p : PeerInfo) → get e.peers.peers k ≡ some p → k ≢ e.self_key → Has e.paths k

Distinct-incoming_map :
    (m : Dict Text PeerInfo) (ps : List PeerInfo) → Distinct m → Distinct (incoming_map m ps)
unfolding incoming_map
Distinct-incoming_map m [] d = d
Distinct-incoming_map m (p ∷ ps) d =
    Distinct-incoming_map (put m p.wg_pub_key p) ps (Distinct-put m p.wg_pub_key p d)

switch_exit-SamePaths :
    (found : Bool) (exit : Text) (e : Engine) → SamePaths e (switch_exit found exit e).1
unfolding switch_exit
switch_exit-SamePaths found exit e =
    let same : SamePaths e e = record {
      round = record { same_key = refl; same_peers = refl };
      paths = refl;
    } in
    let on : SamePaths e (record e { exit_on = found }) = record {
      round = record { same_key = refl; same_peers = refl };
      paths = refl;
    } in
    let off : SamePaths e (record e { exit_on = false }) = record {
      round = record { same_key = refl; same_peers = refl };
      paths = refl;
    } in
    ground (arith, same, on, off)

pub reconcile-SamePaths :
    (found : Bool) (r : SyncResponse) (m : Dict Text (List Text)) (e : Engine)
    → SamePaths e (reconcile found r m e).1
unfolding reconcile
reconcile-SamePaths found r m e =
    let same : SamePaths e e = record {
      round = record { same_key = refl; same_peers = refl };
      paths = refl;
    } in
    ground (arith, same, switch_exit-SamePaths found r.exit_node e)

-- Where the paths of the three loops come from.
module _ (e : Engine) (r : SyncResponse) (by_gateway : Dict Text (List Text)) (l : Linked e) where
  abbrev changes : Changes
  changes = (diff e.peers r.peers).0

  abbrev known : Manager
  known = (diff e.peers r.peers).1

  abbrev after_adds : Engine
  after_adds = (each (add_peer by_gateway) (record e { peers = known }) changes.added).1

  abbrev after_updates : Engine
  after_updates = (each (update_peer by_gateway) after_adds changes.updated).1

  abbrev after_drops : Engine
  after_drops = (each drop_peer after_updates changes.removed).1

  abbrev wg_key : PeerInfo → Text
  wg_key p = p.wg_pub_key

  abbrev new_key : Update → Text
  new_key u = u.new.wg_pub_key

  adds : Gained (add_peer by_gateway) wg_key (record e { peers = known }) after_adds changes.added
  adds =
      each-Gained (add_peer by_gateway) wg_key (add_peer-Adds by_gateway)
        (record e { peers = known }) changes.added

  updates : Gained (update_peer by_gateway) new_key after_adds after_updates changes.updated
  updates =
      each-Gained (update_peer by_gateway) new_key (update_peer-Adds by_gateway) after_adds
        changes.updated

  drops : Dropped drop_peer wg_key after_updates after_drops changes.removed
  drops = each-Dropped drop_peer wg_key drop_peer-Drops after_updates changes.removed

  after_adds-Has :
      (k : Text) (p : PeerInfo) (o : Option PeerInfo)
      → get e.peers.peers k ≡ o
      → p.wg_pub_key ≡ k
      → Reported o p changes
      → k ≢ e.self_key
      → Has after_adds.paths k
  after_adds-Has k p none h at rep ne =
      subst (λ z. Has after_adds.paths z) at (adds.gains p rep (λ q. ne (sym at ∙ q)))
  after_adds-Has k p (some old) h at rep ne = adds.keeps k (l.paths k old h ne)

  not_removed :
      (k : Text) (p x : PeerInfo)
      → get known.peers k ≡ some p
      → Mem x changes.removed
      → x.wg_pub_key ≢ k
  not_removed k p x h m eq =
      let (j, (g, n)) = (diff-removed_iff e.peers r.peers x l.distinct).0 m in
      let at : j ≡ k = sym (l.keyed j x g) ∙ eq in
      let none_there : get known.peers k ≡ none = subst (λ z. get known.peers z ≡ none) at n in
      cc (none_there, h)

  after_drops-Has :
      (k : Text) (p : PeerInfo)
      → get known.peers k ≡ some p
      → k ≢ e.self_key
      → Has after_drops.paths k
  after_drops-Has k p h ne =
      let (_, (at, rep)) = diff-Reported e.peers r.peers k p h in
      drops.keeps k (λ x m. not_removed k p x h m)
        (updates.keeps k (after_adds-Has k p (get e.peers.peers k) refl at rep ne))

  final_peers : after_drops.peers ≡ known
  final_peers = drops.round.same_peers ∙ updates.round.same_peers ∙ adds.round.same_peers

  final_key : after_drops.self_key ≡ e.self_key
  final_key = drops.round.same_key ∙ updates.round.same_key ∙ adds.round.same_key

  known-Distinct : Distinct known.peers
  known-Distinct = unfold diff in Distinct-incoming_map [] r.peers tt

  loops-Linked : Linked after_drops
  loops-Linked = record {
    distinct = subst (λ (z : Manager). Distinct z.peers) (sym final_peers) known-Distinct;
    keyed = λ k p h.
        (diff-Reported e.peers r.peers k p
          (subst (λ (z : Manager). get z.peers k ≡ some p) final_peers h)).1.0;
    paths = λ k p h ne.
        after_drops-Has k p (subst (λ (z : Manager). get z.peers k ≡ some p) final_peers h)
          (λ q. ne (q ∙ sym final_key));
  }

-- What the first part does keeps the known peers and their paths.
Linked-SamePaths : (e e' : Engine) → SamePaths e e' → Linked e → Linked e'
Linked-SamePaths e e' s l = record {
  distinct = subst (λ (z : Manager). Distinct z.peers) (sym s.round.same_peers) l.distinct;
  keyed =
      λ k p h. l.keyed k p (subst (λ (z : Manager). get z.peers k ≡ some p) s.round.same_peers h);
  paths = λ k p h ne.
      subst (λ z. Has z k) (sym s.paths)
        (l.paths k p (subst (λ (z : Manager). get z.peers k ≡ some p) s.round.same_peers h)
          (λ q. ne (q ∙ sym s.round.same_key)));
}

-- After any answer of the control plane, every peer that the agent knows, but itself, has an endpoint
-- and a link, if that was so before, as it is when no peer is known: a peer that is added is given
-- them, one that is updated or stays the same keeps them, and taking down those of the removed peers
-- takes no others down. The known peers have distinct keys and stand under them again.
pub apply_sync-Linked :
    (found : Bool) (e : Engine) (r : SyncResponse) → Linked e → Linked (apply_sync found e r).1
unfolding apply_sync
apply_sync-Linked found e r l =
    let by_gateway = routes_by_gateway [] r.routes in
    let e0 : Engine = record e { last_routes = r.routes } in
    let s0 : SamePaths e e0 = record {
      round = record { same_key = refl; same_peers = refl };
      paths = refl;
    } in
    let e1 = (reconcile found r by_gateway e0).1 in
    loops-Linked e1 r by_gateway (
      Linked-SamePaths e0 e1 (reconcile-SamePaths found r by_gateway e0)
        (Linked-SamePaths e e0 s0 l))
