-- ===== src/Engine/Paths/Own.antt =====
-- client/internal/engine/engine.go, client/internal/relay/conn.go and client/internal/wgmgr/bind.go:
-- whose link an endpoint leads to.
use blinex.Prelude.{
  ◌+◌, ◌%◌, ◌^◌, ◌≤◌, ◌<◌, ◌≡◌, inl, inr, false, ◌&&◌, none, some, List, [], ◌∷◌, ◌==◌, nat_eq,
  nat_beq_iff, if◌then◌else◌, is_some, length, arith, Bool-cases, ap,
}
use blinex.Prelude.Text.{Text, text_eq, text_beq_iff}
use blinex.Prelude.Dict.{get, get-put, get-remove}
use blinex.Netip.{Addr}
use blinex.Engine.Paths.{
  Wire, Paths, virtual_base, endpoint_of, new_wire, set_endpoint, wired, ensure_relay_link,
  tear_down, send_to,
}

pub data Op : Type 0 where
  ensure drop : Text → Op

unfoldable pub step_paths : Paths → Op → Paths
step_paths s (Op.ensure k) = ensure_relay_link s k
step_paths s (Op.drop k) = tear_down s k

-- The paths after operations, the newest first.
unfoldable pub run_paths : Paths → List Op → Paths
run_paths s [] = s
run_paths s (x ∷ xs) = step_paths (run_paths s xs) x

abbrev pub no_paths : Paths
no_paths = record { counter = 0; relay_conns = []; relay_endpts = []; links = []; endpoints = [] }

-- An endpoint of the agent's map leads to the peer, and is among those given out.
record Owned (s : Paths) (k : Text) (ep : Addr) : Type 0 where
  leads : send_to s ep ≡ some k
  given : ep ≤ virtual_base + s.counter

abbrev Inv : Paths → Type 0
Inv s = (k : Text) (ep : Addr) → get s.relay_endpts k ≡ some ep → Owned s k ep

-- A new link, while the counter is small.
wire-Inv :
    (s : Paths) (k : Text)
    → s.counter + 1 < 2 ^ 16
    → Inv s
    → Inv (
        set_endpoint
          (wired (new_wire s k).1 k (new_wire s k).0)
          (new_wire s k).0.endpoint
          (new_wire s k).0)
unfolding set_endpoint wired new_wire send_to endpoint_of
wire-Inv s k small inv j ep h =
    let n = s.counter + 1 in
    let e : n % 2 ^ 32 ≡ n = omega arith in
    let e16 : (n % 2 ^ 32) % 2 ^ 16 ≡ n = omega arith in
    let new : Addr = virtual_base + (n % 2 ^ 32) % 2 ^ 16 in
    let w : Wire = record { peer_key = k; endpoint = new } in
    let g : (if k == j then some new else get s.relay_endpts j) ≡ some ep =
      rw (← get-put s.relay_endpts k j new) h in
    elim (Bool-cases (k == j)) [
      | inl y ↦
          let same : some new ≡ some ep = ground arith in
          let at : new ≡ ep = cc same in
          let key : k ≡ j = (text_beq_iff k j).0 y in
          record {
            leads =
                rw (get-put s.endpoints new ep w) (rw ((nat_beq_iff new ep).1 at) (ap some key));
            given = omega (arith, at, e, e16);
          }
      | inr m ↦
          let old = inv j ep (ground arith) in
          let ne : new == ep ≡ false = ground (arith, old.given, e, e16) in
          record {
            leads = rw (get-put s.endpoints new ep w) (rw ne old.leads);
            given = omega (arith, old.given, e);
          }
    ]

ensure-Inv : (s : Paths) (k : Text) → s.counter + 1 < 2 ^ 16 → Inv s → Inv (ensure_relay_link s k)
unfolding ensure_relay_link
ensure-Inv s k small inv =
    elim (Bool-cases (is_some (get s.relay_endpts k) && is_some (get s.links k))) [
      | inl y ↦ rw y inv
      | inr n ↦ rw n (wire-Inv s k small inv)
    ]

drop-Inv : (s : Paths) (k : Text) → Inv s → Inv (tear_down s k)
unfolding tear_down send_to
drop-Inv s k inv j ep h =
    let g : (if k == j then none else get s.relay_endpts j) ≡ some ep =
      rw (← get-remove s.relay_endpts k j) h in
    let old = inv j ep (ground arith) in record { leads = old.leads; given = old.given }

counter_le : (xs : List Op) → (run_paths no_paths xs).counter ≤ length xs
unfolding run_paths step_paths ensure_relay_link new_wire set_endpoint wired tear_down
counter_le [] = omega arith
counter_le (Op.ensure k ∷ xs) =
    let s = run_paths no_paths xs in
    elim (Bool-cases (is_some (get s.relay_endpts k) && is_some (get s.links k))) [
      | inl y ↦ rw y (omega (arith, counter_le xs))
      | inr n ↦ rw n (omega (arith, counter_le xs))
    ]
counter_le (Op.drop k ∷ xs) = omega (arith, counter_le xs)

run-Inv : (xs : List Op) → length xs < 2 ^ 16 → Inv (run_paths no_paths xs)
unfolding run_paths step_paths
run-Inv [] h = λ k ep g. absurd (unfold get in cc g)
run-Inv (Op.ensure k ∷ xs) h =
    ensure-Inv (run_paths no_paths xs) k (omega (arith, counter_le xs)) (run-Inv xs (omega arith))
run-Inv (Op.drop k ∷ xs) h = drop-Inv (run_paths no_paths xs) k (run-Inv xs (omega arith))

-- However data paths are built and taken down, in fewer than 65536 operations, what is sent to the
-- endpoint that the agent has for a peer goes to that peer and no other.
pub send_to-own :
    (xs : List Op) (k : Text) (ep : Addr)
    → length xs < 2 ^ 16
    → get (run_paths no_paths xs).relay_endpts k ≡ some ep
    → send_to (run_paths no_paths xs) ep ≡ some k
send_to-own xs k ep h g = (run-Inv xs h k ep g).leads
