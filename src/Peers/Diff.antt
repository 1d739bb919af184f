-- ===== src/Peers/Diff.antt =====
-- client/internal/peer/manager.go, `Diff`: what the changes it returns say of the old and the new
-- peers.
use blinex.Prelude.{
  subst, true, false, Option, none, some, List, [], ◌∷◌, ◌++◌, ◌==◌, if◌then◌else◌, is_some, ◌≡◌,
  ◌⊎◌, ◌↔◌, inl, inr, refl, arith, Bool-cases,
}
use blinex.Prelude.Text.{Text, text_eq, text_beq_iff}
use blinex.Prelude.Dict.{Dict, Distinct, get, put, get-put}
use blinex.Management.Sync.{PeerInfo}
use blinex.Peers.{
  Manager, Changes, allowed_ips_equal, incoming_map, differs, added_to, update_of, updated_in,
  removed_from, diff,
}

abbrev pub Mem : {A : Type 0} → A → List A → Type 0
Mem a [] = ⊥
Mem a (x ∷ xs) = (x ≡ a) ⊎ Mem a xs

-- Two records of a peer that agree on what the agent configures.
pub record SameView (old p : PeerInfo) : Type 0 where
  pub ip : old.ip ≡ p.ip
  pub hostname : old.hostname ≡ p.hostname
  pub allowed_ips : old.allowed_ips ≡ p.allowed_ips

-- Where a peer of the new list, with the record `o` that stood under its key, shows in the changes.
abbrev pub Reported : Option PeerInfo → PeerInfo → Changes → Type 0
Reported none p c = Mem p c.added
Reported (some old) p c = Mem (record { old = old; new = p }) c.updated ⊎ SameView old p

equal_sound : (xs ys : List Text) → allowed_ips_equal xs ys ≡ true → xs ≡ ys
unfolding allowed_ips_equal
equal_sound [] [] h = refl
equal_sound (x ∷ xs) (y ∷ ys) h = ground (arith, equal_sound xs ys, text_beq_iff x y)
equal_sound [] (y ∷ ys) h = cc h
equal_sound (x ∷ xs) [] h = cc h

differs-SameView : (old p : PeerInfo) → differs old p ≡ false → SameView old p
unfolding differs
differs-SameView old p h = record {
  ip = ground (arith, text_beq_iff old.ip p.ip);
  hostname = ground (arith, text_beq_iff old.hostname p.hostname);
  allowed_ips = ground (arith, equal_sound old.allowed_ips p.allowed_ips);
}

get-incoming :
    (m : Dict Text PeerInfo) (ps : List PeerInfo) (k : Text) (p : PeerInfo)
    → get (incoming_map m ps) k ≡ some p
    → (Mem p ps × (p.wg_pub_key ≡ k)) ⊎ (get m k ≡ some p)
unfolding incoming_map
get-incoming m [] k p h = inr h
get-incoming m (q ∷ ps) k p h = elim (get-incoming (put m q.wg_pub_key q) ps k p h) [
  | inl (x, e) ↦ inl (inr x, e)
  | inr g ↦ elim (Bool-cases (q.wg_pub_key == k)) [
    | inl y ↦
        let e : some q ≡ some p = ground (arith, get-put m q.wg_pub_key k q) in
        let f : q ≡ p = cc e in inl (inl f, ground (arith, f, text_beq_iff q.wg_pub_key k))
    | inr n ↦ inr (ground (arith, get-put m q.wg_pub_key k q))
  ]
]

Mem-added :
    (m : Dict Text PeerInfo) (ps : List PeerInfo) (p : PeerInfo)
    → get m p.wg_pub_key ≡ none
    → Mem p ps
    → Mem p (added_to m ps)
unfolding added_to
Mem-added m [] p h x = x
Mem-added m (q ∷ ps) p h (inl e) =
    let g : is_some (get m q.wg_pub_key) ≡ false = cc (e, h) in rw g (inl e)
Mem-added m (q ∷ ps) p h (inr x) = elim (Bool-cases (is_some (get m q.wg_pub_key))) [
  | inl y ↦ rw y (Mem-added m ps p h x)
  | inr n ↦ rw n (inr (Mem-added m ps p h x))
]

Mem-right : {A : Type 0} (a : A) (xs ys : List A) → Mem a ys → Mem a (xs ++ ys)
Mem-right a [] ys x = x
Mem-right a (b ∷ xs) ys x = inr (Mem-right a xs ys x)

updates :
    (old p : PeerInfo)
    → differs old p ≡ true
    → update_of p (some old) ≡ record { old = old; new = p } ∷ []
unfolding update_of
updates old p y = rw y refl

Mem-updated :
    (m : Dict Text PeerInfo) (ps : List PeerInfo) (old p : PeerInfo)
    → get m p.wg_pub_key ≡ some old
    → differs old p ≡ true
    → Mem p ps
    → Mem (record { old = old; new = p }) (updated_in m ps)
unfolding updated_in
Mem-updated m [] old p h d x = absurd x
Mem-updated m (q ∷ ps) old p h d (inl e) =
    let g : update_of q (get m q.wg_pub_key) ≡ record { old = old; new = p } ∷ [] =
      cc (e, h, updates old p d) in
    rw g (inl refl)
Mem-updated m (q ∷ ps) old p h d (inr x) =
    Mem-right (record { old = old; new = p }) (update_of q (get m q.wg_pub_key)) (updated_in m ps)
      (Mem-updated m ps old p h d x)

Reported-of :
    (m : Manager) (ps : List PeerInfo) (p : PeerInfo) (o : Option PeerInfo)
    → get m.peers p.wg_pub_key ≡ o
    → Mem p ps
    → Reported o p (diff m ps).0
unfolding diff
Reported-of m ps p none h x = Mem-added m.peers ps p h x
Reported-of m ps p (some old) h x = elim (Bool-cases (differs old p)) [
  | inl y ↦ inl (Mem-updated m.peers ps old p h y x)
  | inr n ↦ inr (differs-SameView old p n)
]

-- A peer that is known after a new list came in is in that list under its own key, and it is
-- reported as added, if its key was not known, and otherwise as the update of the record that stood
-- there, unless the two agree on the address, the hostname and the allowed IPs.
pub diff-Reported :
    (m : Manager) (incoming : List PeerInfo) (k : Text) (p : PeerInfo)
    → get (diff m incoming).1.peers k ≡ some p
    → Mem p incoming × ((p.wg_pub_key ≡ k) × Reported (get m.peers k) p (diff m incoming).0)
diff-Reported m incoming k p h =
    unfold diff in
    elim (get-incoming [] incoming k p h) [
      | inl (x, e) ↦ (
        x,
        (
          e,
          subst (λ j. Reported (get m.peers j) p (diff m incoming).0) e
              (Reported-of m incoming p (get m.peers p.wg_pub_key) refl x),
        ),
      )
      | inr g ↦ unfold get in cc g
    ]

-- The peer stands in the first map under a key that the second does not have.
abbrev pub Gone : Dict Text PeerInfo → Dict Text PeerInfo → PeerInfo → Type 0
Gone old new p = (k : Text) × ((get old k ≡ some p) × (get new k ≡ none))

Gone-tail :
    (new m : Dict Text PeerInfo) (j : Text) (p q : PeerInfo)
    → get m j ≡ none
    → Gone m new p
    → Gone ((j, q) ∷ m) new p
unfolding get
Gone-tail new m j p q d (k, (g, n)) = elim (Bool-cases (j == k)) [
  | inl y ↦ let e : j ≡ k = (text_beq_iff j k).0 y in let f : none ≡ some p = cc (e, d, g) in cc f
  | inr o ↦ (k, (rw o g, n))
]

Gone-step :
    (new m : Dict Text PeerInfo) (j : Text) (p q : PeerInfo) (o : Option PeerInfo)
    → get new j ≡ o
    → get m j ≡ none
    → (Mem p (removed_from new m) → Gone m new p)
    → Mem p (if is_some o then removed_from new m else q ∷ removed_from new m)
    → Gone ((j, q) ∷ m) new p
Gone-step new m j p q (some r) e d f x = Gone-tail new m j p q d (f x)
Gone-step new m j p q none e d f (inr x) = Gone-tail new m j p q d (f x)
Gone-step new m j p q none e d f (inl h) =
    (j, (unfold get in rw ((text_beq_iff j j).1 refl) (cc h), e))

removed_sound :
    (new m : Dict Text PeerInfo) (p : PeerInfo)
    → Distinct m
    → Mem p (removed_from new m)
    → Gone m new p
unfolding removed_from get
removed_sound new [] p d x = absurd x
removed_sound new ((j, q) ∷ m) p d x =
    Gone-step new m j p q (get new j) refl d.0 (removed_sound new m p d.1) x

removed_complete :
    (new m : Dict Text PeerInfo) (k : Text) (p : PeerInfo)
    → get m k ≡ some p
    → get new k ≡ none
    → Mem p (removed_from new m)
unfolding removed_from get
removed_complete new [] k p g n = cc g
removed_complete new ((j, q) ∷ m) k p g n = elim (Bool-cases (j == k)) [
  | inl y ↦
      let e : j ≡ k = (text_beq_iff j k).0 y in
      let f : is_some (get new j) ≡ false = cc (e, n) in rw f (inl (ground arith))
  | inr o ↦
      let r = removed_complete new m k p (ground arith) n in
      elim (Bool-cases (is_some (get new j))) [ inl y ↦ rw y r | inr f ↦ rw f (inr r) ]
]

-- The peers reported as removed are those that were known under a key that no peer of the new list
-- has.
pub diff-removed_iff :
    (m : Manager) (incoming : List PeerInfo) (p : PeerInfo)
    → Distinct m.peers
    → Mem p (diff m incoming).0.removed ↔ Gone m.peers (diff m incoming).1.peers p
unfolding diff
diff-removed_iff m incoming p d =
    let new = incoming_map [] incoming in
    (removed_sound new m.peers p d, λ g. removed_complete new m.peers g.0 p g.1.0 g.1.1)
