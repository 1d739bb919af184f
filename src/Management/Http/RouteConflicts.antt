-- ===== src/Management/Http/RouteConflicts.antt =====
-- management/internal/httpserver/server.go, `setPeerRoutes`: what the test of overlaps with the mesh
-- means for addresses.
use blinex.Prelude.{
  ℕ, zero, suc, ◌+◌, ◌-◌, ◌*◌, ◌/◌, ◌^◌, ◌<◌, ◌≡◌, ◌≢◌, ◌∙◌, ap, refl, inl, inr, true, false, none,
  some, arith, ◌==◌, nat_eq, nat_beq_iff, Bool-cases, List, [], ◌∷◌, Option, Bool, subst, all, All,
  sym, leb,
}
use blinex.Prelude.Text.{Text, text, text_eq, text_beq_iff}
use blinex.Prelude.Dict.{get, get-put_self}
use blinex.Netip.{Addr, Prefix, contains, parse_cidr}
use blinex.Management.Domain.{Peer}
use blinex.Management.Store.{get_peer, save_peer}
use blinex.Management.Store.Frame.{Keyed}
use blinex.Management.Auth.{Claims}
use blinex.Management.Http.{Api, Reply}
use blinex.Management.Http.Peers.{
  mesh, conflicts, cidr_ok, route_ok, routes_found, save_and_notify, set_peer_routes,
}
use native.Mathlib.Nat.{div-div-eq-div-mul, mul-div_cancel, pow-suc, mul_assoc}

pow_split : (k d : ℕ) → 2 ^ (k + d) ≡ 2 ^ k * 2 ^ d
pow_split k zero =
    let e : k + 0 ≡ k = omega arith in
    let f : 2 ^ k ≡ 2 ^ k * 1 = omega arith in ap (λ n. 2 ^ n) e ∙ f
pow_split k (suc d) =
    let e : k + suc d ≡ suc (k + d) = omega arith in
    ap (λ n. 2 ^ n) e
    ∙ pow-suc 2 (k + d)
    ∙ ap (λ n. n * 2) (pow_split k d)
    ∙ mul_assoc (2 ^ k) (2 ^ d) 2
    ∙ ap (λ n. 2 ^ k * n) (sym (pow-suc 2 d))

-- Dropping bits in two steps.
div_split : (x k d : ℕ) → x / 2 ^ (k + d) ≡ x / 2 ^ k / 2 ^ d
div_split x k d = ap (λ n. x / n) (pow_split k d) ∙ sym (div-div-eq-div-mul x (2 ^ k) (2 ^ d))

-- Addresses that agree on more bits agree on fewer.
fewer : (x y k d : ℕ) → x / 2 ^ k ≡ y / 2 ^ k → x / 2 ^ (k + d) ≡ y / 2 ^ (k + d)
fewer x y k d h = div_split x k d ∙ ap (λ n. n / 2 ^ d) h ∙ sym (div_split y k d)

pow_pos : (k : ℕ) → 0 < 2 ^ k
pow_pos zero = omega arith
pow_pos (suc k) = omega (arith, pow_pos k, pow-suc 2 k)

-- Clearing the bits that a prefix does not fix leaves those that a shorter one fixes.
cleared : (x k d : ℕ) → (x / 2 ^ k * 2 ^ k) / 2 ^ (k + d) ≡ x / 2 ^ (k + d)
cleared x k d =
    div_split (x / 2 ^ k * 2 ^ k) k d
    ∙ ap (λ n. n / 2 ^ d) (mul-div_cancel (x / 2 ^ k) (pow_pos k))
    ∙ sym (div_split x k d)

-- A network that takes in an address of the mesh conflicts with it.
mesh-conflicts :
    (p : Prefix) (x : Addr) → contains mesh x ≡ true → contains p x ≡ true → conflicts p ≡ true
unfolding contains conflicts
mesh-conflicts p x hm hp =
    let k = 32 - p.bits in
    let m : 1681915904 / 2 ^ 22 ≡ x / 2 ^ 22 =
      (nat_beq_iff (1681915904 / 2 ^ 22) (x / 2 ^ 22)).0 hm in
    let q : p.addr / 2 ^ k ≡ x / 2 ^ k = (nat_beq_iff (p.addr / 2 ^ k) (x / 2 ^ k)).0 hp in
    elim (Bool-cases (leb k 22)) [
      | inl y ↦
          let e : k + (22 - k) ≡ 22 = ground arith in
          let f : (x / 2 ^ k * 2 ^ k) / 2 ^ 22 ≡ x / 2 ^ 22 =
            subst (λ n. (x / 2 ^ k * 2 ^ k) / 2 ^ n ≡ x / 2 ^ n) e (cleared x k (22 - k)) in
          let g : 1681915904 / 2 ^ 22 ≡ (p.addr / 2 ^ k * 2 ^ k) / 2 ^ 22 =
            m ∙ sym f ∙ ap (λ n. (n * 2 ^ k) / 2 ^ 22) (sym q) in
          rw ((nat_beq_iff (1681915904 / 2 ^ 22) ((p.addr / 2 ^ k * 2 ^ k) / 2 ^ 22)).1 g) refl
      | inr n ↦
          let e : 22 + (k - 22) ≡ k = ground arith in
          let f : 1681915904 / 2 ^ k ≡ x / 2 ^ k =
            subst (λ n. 1681915904 / 2 ^ n ≡ x / 2 ^ n) e (fewer 1681915904 x 22 (k - 22) m) in
          rw ((nat_beq_iff (p.addr / 2 ^ k) (1681915904 / 2 ^ k)).1 (q ∙ sym f)) (ground arith)
    ]

-- A network that a route names, unless the route is a default one, has no address of the mesh.
pub Clear : Text → Type 0
Clear r =
    (p : Prefix)
    → parse_cidr r ≡ some p
    → r ≢ text "0.0.0.0/0"
    → (x : Addr) → contains mesh x ≡ true
    → contains p x ≡ false

no_ipv6 : parse_cidr (text "::/0") ≡ none
unfolding parse_cidr
no_ipv6 = refl

route_ok-Clear : (ipv6_route : Text → Bool) (r : Text) → route_ok ipv6_route r ≡ true → Clear r
unfolding Clear route_ok cidr_ok
route_ok-Clear ipv6_route r h p e ne x hm = elim (Bool-cases (contains p x)) [
  | inl y ↦ elim (Bool-cases (r == text "::/0")) [
    | inl z ↦ absurd (
        let f : r ≡ text "::/0" = (text_beq_iff r (text "::/0")).0 z in
        let g : none ≡ some p = rw (← no_ipv6, ← f) e in cc g)
    | inr n ↦ ground (arith, mesh-conflicts p x hm y, e, ne, text_beq_iff r (text "0.0.0.0/0"))
  ]
  | inr n ↦ n
]

all-Clear :
    (ipv6_route : Text → Bool) (rs : List Text) → all (route_ok ipv6_route) rs ≡ true → All Clear rs
unfolding all
all-Clear ipv6_route [] h = tt
all-Clear ipv6_route (r ∷ rs) h =
    (route_ok-Clear ipv6_route r (ground arith), all-Clear ipv6_route rs (ground arith))

routes_stored :
    (a : Api) (c : Claims) (key : Text) (routes : List Text) (o : Option Peer) (q : Peer)
    → get a.server.store.peers key ≡ o
    → Keyed (λ (p : Peer). p.wg_pub_key) a.server.store.peers
    → (routes_found a c routes o).0 ≡ Reply.one_peer q
    → (p : Peer) × (o ≡ some p)
      × (p.account_id ≡ c.account_id)
      × (q ≡ record p { advertised_routes = routes })
      × (get_peer (routes_found a c routes o).1.server.store key ≡ some q)
unfolding routes_found save_and_notify save_peer get_peer
routes_stored a c key routes none q here keyed h = absurd (cc h)
routes_stored a c key routes (some p) q here keyed h =
    elim (Bool-cases (p.account_id == c.account_id)) [
      | inl y ↦
          let p' = record p { advertised_routes = routes } in
          let e : Reply.one_peer p' ≡ Reply.one_peer q = ground arith in
          let f : p' ≡ q = cc e in
          let at : p.wg_pub_key ≡ key = keyed key p here in
          (
            p,
            refl,
            (text_beq_iff p.account_id c.account_id).0 y,
            sym f,
            subst
                (λ (x : Peer).
                  get (routes_found a c routes (some p)).1.server.store.peers key ≡ some x)
                f
                (subst
                  (λ (k : Text).
                    get (routes_found a c routes (some p)).1.server.store.peers k ≡ some p')
                  at (rw y (get-put_self a.server.store.peers p.wg_pub_key p'))),
          )
      | inr n ↦ ground arith
    ]

-- When the API accepts the routes of a peer, what was stored under the key of the request is a peer
-- of the caller's account; it is stored there with these routes and otherwise unchanged, and so it
-- is answered; and no network among the routes that is an IPv4 one, but for the default route, has
-- an address of the mesh, whatever its length. The stored peers stand under their own keys.
pub set_peer_routes-Clear :
    (ipv6_route : Text → Bool) (a : Api) (c : Claims) (key : Text) (routes : List Text) (q : Peer)
    → Keyed (λ (p : Peer). p.wg_pub_key) a.server.store.peers
    → (set_peer_routes ipv6_route a c key (some routes)).0 ≡ Reply.one_peer q
    → ((p : Peer) × (get_peer a.server.store key ≡ some p)
        × (p.account_id ≡ c.account_id)
        × (q ≡ record p { advertised_routes = routes })
        × (get_peer (set_peer_routes ipv6_route a c key (some routes)).1.server.store key ≡ some q))
      × All Clear routes
unfolding set_peer_routes get_peer
set_peer_routes-Clear ipv6_route a c key routes q keyed h =
    elim (Bool-cases (all (route_ok ipv6_route) routes)) [
      | inl y ↦
          let stored =
            routes_stored a c key routes (get a.server.store.peers key) q refl keyed
              (ground arith) in
          rw y (unfold get_peer in stored, all-Clear ipv6_route routes y)
      | inr n ↦ ground arith
    ]
