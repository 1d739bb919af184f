-- ===== src/Engine/Sync/Rounds.antt =====
-- client/internal/engine/engine.go, `applySync`: what the rounds of its loops do to the data paths.
use blinex.Prelude.{
  ◌≡◌, ◌≢◌, refl, inl, inr, true, false, not, ◌&&◌, Option, none, List, [], ◌∷◌, ◌==◌, nat_eq,
  if◌then◌else◌, is_some, arith, Bool-cases, sym, ap, ◌∙◌, subst,
}
use blinex.Prelude.Text.{Text, text_eq, text_beq_iff}
use blinex.Prelude.Dict.{Dict, get, get-put, get-remove}
use blinex.Management.Sync.{PeerInfo}
use blinex.Peers.{Update}
use blinex.Peers.Diff.{Mem}
use blinex.Dns.{upsert, remove_record}
use blinex.Engine.Paths.{Paths, ensure_relay_link, new_wire, set_endpoint, wired, tear_down}
use blinex.Engine.Sync.{Engine, Action, os_routes, add_peer, update_peer, drop_peer, each}

-- The engine has an endpoint and a link for the key.
abbrev pub Has : Paths → Text → Type 0
Has s k = is_some (get s.relay_endpts k) && is_some (get s.links k) ≡ true

pub ensure-Has : (s : Paths) (k : Text) → Has (ensure_relay_link s k) k
unfolding ensure_relay_link new_wire set_endpoint wired
ensure-Has s k = elim (Bool-cases (is_some (get s.relay_endpts k) && is_some (get s.links k))) [
  | inl y ↦ rw y y
  | inr n ↦
      let w = (new_wire s k).0 in
      rw n (
        rw (get-put s.relay_endpts k k w.endpoint, get-put s.links k k w)
          (ground (arith, text_beq_iff k k)))
]

pub ensure-keeps : (s : Paths) (k j : Text) → Has s j → Has (ensure_relay_link s k) j
unfolding ensure_relay_link new_wire set_endpoint wired
ensure-keeps s k j h =
    elim (Bool-cases (is_some (get s.relay_endpts k) && is_some (get s.links k))) [
      | inl y ↦ rw y h
      | inr n ↦
          let w = (new_wire s k).0 in
          rw n
            (rw (get-put s.relay_endpts k j w.endpoint, get-put s.links k j w) (ground (arith, h)))
    ]

pub tear_down-keeps : (s : Paths) (k j : Text) → k == j ≡ false → Has s j → Has (tear_down s k) j
unfolding tear_down
tear_down-keeps s k j n h = rw (get-remove s.relay_endpts k j, get-remove s.links k j, n) h

-- A round leaves the peers and the agent's own key, and keeps the paths but for one key, if it drops
-- that, or gives the key a path.
pub record Round (e e' : Engine) : Type 0 where
  pub same_key : e'.self_key ≡ e.self_key
  pub same_peers : e'.peers ≡ e.peers

pub record Adds (e e' : Engine) (k : Text) : Type 0 where
  pub round : Round e e'
  pub keeps : (j : Text) → Has e.paths j → Has e'.paths j
  pub gains : k ≢ e.self_key → Has e'.paths k

pub record Drops (e e' : Engine) (k : Text) : Type 0 where
  pub round : Round e e'
  pub keeps : (j : Text) → k ≢ j → Has e.paths j → Has e'.paths j

pub record SamePaths (e e' : Engine) : Type 0 where
  pub round : Round e e'
  pub paths : e'.paths ≡ e.paths

pub os_routes-SamePaths :
    (e : Engine) (key : Text) (old new : Option (List Text))
    → SamePaths e (os_routes e key old new).1
unfolding os_routes
os_routes-SamePaths e key old new = elim (Bool-cases e.netstack) [
  | inl y ↦ rw y (record { round = record { same_key = refl; same_peers = refl }; paths = refl })
  | inr n ↦ rw n (record { round = record { same_key = refl; same_peers = refl }; paths = refl })
]

-- A round for the agent itself.
pub idle : (e : Engine) (k : Text) → k == e.self_key ≡ true → Adds e e k
idle e k y = record {
  round = record { same_key = refl; same_peers = refl };
  keeps = λ j h. h;
  gains = λ ne. absurd (ne ((text_beq_iff k e.self_key).0 y));
}

-- A round that ensures the path of a key.
pub ensured :
    (e e0 e' : Engine) (k : Text)
    → SamePaths e e0
    → Round e0 e'
    → e'.paths ≡ ensure_relay_link e0.paths k
    → Adds e e' k
ensured e e0 e' k s r p = record {
  round = record {
    same_key = r.same_key ∙ s.round.same_key;
    same_peers = r.same_peers ∙ s.round.same_peers;
  };
  keeps = λ j h.
      subst (λ z. Has z j) (sym p)
        (ensure-keeps e0.paths k j (subst (λ z. Has z j) (sym s.paths) h));
  gains = λ ne. subst (λ z. Has z k) (sym p) (ensure-Has e0.paths k);
}

module _ (by_gateway : Dict Text (List Text)) where
  pub add_peer-Adds : (e : Engine) (p : PeerInfo) → Adds e (add_peer by_gateway e p).1 p.wg_pub_key
  unfolding add_peer
  add_peer-Adds e p = elim (Bool-cases (p.wg_pub_key == e.self_key)) [
    | inl y ↦ rw y (idle e p.wg_pub_key y)
    | inr n ↦
        let s = os_routes-SamePaths e p.wg_pub_key none (get by_gateway p.wg_pub_key) in
        let e0 = (os_routes e p.wg_pub_key none (get by_gateway p.wg_pub_key)).1 in
        rw n (
          ensured e e0
            (record e0 {
              dns = upsert e0.dns p.dns_label p.ip;
              paths = ensure_relay_link e0.paths p.wg_pub_key;
            })
            p.wg_pub_key s (record { same_key = refl; same_peers = refl }) refl)
  ]

  pub update_peer-Adds :
      (e : Engine) (u : Update) → Adds e (update_peer by_gateway e u).1 u.new.wg_pub_key
  unfolding update_peer
  update_peer-Adds e u = elim (Bool-cases (u.new.wg_pub_key == e.self_key)) [
    | inl y ↦ rw y (idle e u.new.wg_pub_key y)
    | inr n ↦
        let p = u.new in
        let old = get e.applied_routes p.wg_pub_key in
        let s = os_routes-SamePaths e p.wg_pub_key old (get by_gateway p.wg_pub_key) in
        let e0 = (os_routes e p.wg_pub_key old (get by_gateway p.wg_pub_key)).1 in
        rw n (
          ensured e e0
            (record e0 {
              dns =
                  upsert
                    (if not (u.old.dns_label == p.dns_label)
                      then remove_record e0.dns u.old.dns_label
                      else e0.dns)
                    p.dns_label p.ip;
              paths = ensure_relay_link e0.paths p.wg_pub_key;
            })
            p.wg_pub_key s (record { same_key = refl; same_peers = refl }) refl)
  ]

pub drop_peer-Drops : (e : Engine) (p : PeerInfo) → Drops e (drop_peer e p).1 p.wg_pub_key
unfolding drop_peer
drop_peer-Drops e p = elim (Bool-cases (p.wg_pub_key == e.self_key)) [
  | inl y ↦
      rw y (record { round = record { same_key = refl; same_peers = refl }; keeps = λ j ne h. h })
  | inr n ↦
      let old = get e.applied_routes p.wg_pub_key in
      let s = os_routes-SamePaths e p.wg_pub_key old none in
      let e0 = (os_routes e p.wg_pub_key old none).1 in
      rw n (record {
        round = record { same_key = s.round.same_key; same_peers = s.round.same_peers };
        keeps = λ j ne h.
            tear_down-keeps e0.paths p.wg_pub_key j
              (ground (arith, ne, text_beq_iff p.wg_pub_key j))
              (subst (λ z. Has z j) (sym s.paths) h);
      })
]

module _ {A : Type 0} (f : Engine → A → List Action × Engine) (key : A → Text) where
  pub record Gained (e e' : Engine) (xs : List A) : Type 0 where
    pub round : Round e e'
    pub keeps : (j : Text) → Has e.paths j → Has e'.paths j
    pub gains : (x : A) → Mem x xs → key x ≢ e.self_key → Has e'.paths (key x)

  pub each-Gained :
      ((e : Engine) (x : A) → Adds e (f e x).1 (key x))
      → (e : Engine) (xs : List A) → Gained e (each f e xs).1 xs
  unfolding each
  each-Gained h e [] = record {
    round = record { same_key = refl; same_peers = refl };
    keeps = λ j p. p;
    gains = λ x m ne. absurd m;
  }
  each-Gained h e (y ∷ ys) =
      let a = h e y in
      let b = each-Gained h (f e y).1 ys in
      record {
        round = record {
          same_key = b.round.same_key ∙ a.round.same_key;
          same_peers = b.round.same_peers ∙ a.round.same_peers;
        };
        keeps = λ j p. b.keeps j (a.keeps j p);
        gains = λ x m ne. elim m [
          | inl i ↦
              let ne' : key y ≢ e.self_key = (λ q. ne (ap key (sym i) ∙ q)) in
              subst (λ z. Has (each f e (y ∷ ys)).1.paths (key z)) i (b.keeps (key y) (a.gains ne'))
          | inr t ↦ b.gains x t (λ q. ne (q ∙ a.round.same_key))
        ];
      }

  pub record Dropped (e e' : Engine) (xs : List A) : Type 0 where
    pub round : Round e e'
    pub keeps : (j : Text) → ((x : A) → Mem x xs → key x ≢ j) → Has e.paths j → Has e'.paths j

  pub each-Dropped :
      ((e : Engine) (x : A) → Drops e (f e x).1 (key x))
      → (e : Engine) (xs : List A) → Dropped e (each f e xs).1 xs
  unfolding each
  each-Dropped h e [] = record {
    round = record { same_key = refl; same_peers = refl };
    keeps = λ j n p. p;
  }
  each-Dropped h e (y ∷ ys) =
      let a = h e y in
      let b = each-Dropped h (f e y).1 ys in
      record {
        round = record {
          same_key = b.round.same_key ∙ a.round.same_key;
          same_peers = b.round.same_peers ∙ a.round.same_peers;
        };
        keeps = λ j n p. b.keeps j (λ x m. n x (inr m)) (a.keeps j (n y (inl refl)) p);
      }
