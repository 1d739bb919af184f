-- ===== src/Management/Sync/ExitNode.antt =====
-- management/internal/grpcserver/server.go, `resolveExitNode`: what the exit node that a peer is sent
-- stands for.
use blinex.Prelude.{
  true, ◌||◌, Option, none, some, List, [], ◌∷◌, ◌≡◌, ◌≢◌, ◌↔◌, refl, inl, inr, arith, ◌==◌,
  if◌then◌else◌, any, find, Some, Bool-cases,
}
use blinex.Prelude.Text.{Text, text_eq, text_beq_iff}
use blinex.Management.Domain.{Peer}
use blinex.Management.Sync.{chosen_by, default_route, if_offered, resolve_exit_node}

-- `k` is an exit node for `self`: the first peer of the key `self` has chosen it, it is another
-- peer, and the first peer of the key `k` offers a default route.
pub record ExitFor (peers : List Peer) (self k : Text) : Type 0 where
  pub me : Peer
  pub me_found : find (λ p. p.wg_pub_key == self) peers ≡ some me
  pub chose : me.exit_node ≡ k
  pub other : k ≢ self
  pub gateway : Peer
  pub gateway_found : find (λ p. p.wg_pub_key == k) peers ≡ some gateway
  pub offers : Some (λ c. c ≡ default_route) gateway.advertised_routes

any-Some :
    (cs : List Text) → (any (λ c. c == default_route) cs ≡ true) ↔ Some (λ c. c ≡ default_route) cs
unfolding any
any-Some [] = (λ h. cc h, λ s. absurd s)
any-Some (c ∷ cs) = ground (arith, any-Some cs, text_beq_iff c default_route)

-- The code's answer for the first peer found.
abbrev answer : List Peer → Text → Text → Text
answer peers self chosen =
    if chosen == [] || chosen == self
    then []
    else if_offered (find (λ p. p.wg_pub_key == chosen) peers) chosen

answer_self :
    (self : Text) (o : Option Peer) (peers : List Peer) (k : Text)
    → k ≢ []
    → answer peers self (chosen_by o) ≡ k
    → (me : Peer) × (o ≡ some me)
answer_self self none peers k ne h = ground (arith, (text_beq_iff [] []).1 refl)
answer_self self (some me) peers k ne h = (me, refl)

answer-gateway :
    (chosen : Text) (o : Option Peer) (k : Text)
    → k ≢ []
    → if_offered o chosen ≡ k
    → (g : Peer) × ((o ≡ some g) × Some (λ c. c ≡ default_route) g.advertised_routes)
answer-gateway chosen none k ne h = absurd (ne (cc h))
answer-gateway chosen (some g) k ne h = (g, (refl, (any-Some g.advertised_routes).0 (ground arith)))

answer-parts :
    (peers : List Peer) (self chosen k : Text)
    → k ≢ []
    → answer peers self chosen ≡ k
    → (chosen ≡ k) × ((k ≢ self) × (if_offered (find (λ p. p.wg_pub_key == k) peers) k ≡ k))
answer-parts peers self chosen k ne h = elim (Bool-cases (chosen == [])) [
  | inl y ↦ ground arith
  | inr n ↦ elim (Bool-cases (chosen == self)) [
    | inl y ↦ ground arith
    | inr o ↦
        let e : chosen ≡ k = ground arith in
        (e, (λ q. ground (arith, text_beq_iff chosen self), rw (← e) (ground (arith, e))))
  ]
]

ExitFor-sound :
    (peers : List Peer) (self k : Text)
    → k ≢ []
    → resolve_exit_node peers self ≡ k
    → ExitFor peers self k
unfolding resolve_exit_node
ExitFor-sound peers self k ne h =
    let found = find (λ p. p.wg_pub_key == self) peers in
    let (me, f) = answer_self self found peers k ne h in
    let (e, (o, t)) = answer-parts peers self (chosen_by found) k ne h in
    let (g, (gf, s)) = answer-gateway k (find (λ p. p.wg_pub_key == k) peers) k ne t in
    record {
      me = me;
      me_found = f;
      chose = cc (f, e);
      other = o;
      gateway = g;
      gateway_found = gf;
      offers = s;
    }

ExitFor-complete :
    (peers : List Peer) (self k : Text)
    → k ≢ []
    → ExitFor peers self k
    → resolve_exit_node peers self ≡ k
unfolding resolve_exit_node
ExitFor-complete peers self k ne x =
    simp (x.me_found, x.chose, x.gateway_found)
      (ground (
        arith,
        text_beq_iff k [],
        text_beq_iff k self,
        (any-Some x.gateway.advertised_routes).1 x.offers,
        x.other,
      ))

-- For a key `k` that is not empty: a peer is sent `k` as its exit node exactly when it has chosen `k`,
-- `k` is another peer, and the account's first peer of the key `k` offers a default route.
pub resolve_exit_node_iff :
    (peers : List Peer) (self k : Text)
    → k ≢ []
    → (resolve_exit_node peers self ≡ k) ↔ ExitFor peers self k
resolve_exit_node_iff peers self k ne =
    (ExitFor-sound peers self k ne, ExitFor-complete peers self k ne)
