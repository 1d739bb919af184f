-- ===== src/Peerlink/Probe/Backoff.antt =====
-- How long a demoted path is held on relay.
use blinex.Prelude.{
  ℕ, ◌+◌, ◌≤◌, ◌≡◌, refl, Bool, true, false, List, [], ◌∷◌, arith, nat_eq, if◌then◌else◌, All,
}
use blinex.Peerlink.Probe.{
  ProbeState, new_probe_state, is_answered, observe, min_upgrade_backoff, max_upgrade_backoff,
}
use blinex.Peerlink.Probe.Promotion.{Tick, run}

pub record InRange (p : ProbeState) : Type 0 where
  pub low : min_upgrade_backoff ≤ p.backoff
  pub high : p.backoff ≤ max_upgrade_backoff

observe-InRange : (p : ProbeState) (pong now : ℕ) → InRange p → InRange (observe p pong now).1
unfolding observe
observe-InRange p pong now v = ground arith

run-InRange : (ticks : List Tick) → InRange (run ticks)
run-InRange [] = unfold run new_probe_state in omega arith
run-InRange (t ∷ ticks) = step ticks t (run-InRange ticks)
  where
    step : (ticks : List Tick) (t : Tick) → InRange (run ticks) → InRange (run (t ∷ ticks))
    step ticks t v = unfold run in observe-InRange (run ticks) t.pong t.now v

-- A demotion: from direct to relay, at a tick without an answer, until `now + retry_in`.
demote-observe :
    (p : ProbeState) (pong now : ℕ)
    → InRange p
    → (observe p pong now).0.demote ≡ true
    → (p.direct ≡ true)
      × (is_answered p pong now ≡ false)
      × ((observe p pong now).1.direct ≡ false)
      × ((observe p pong now).1.next_upgrade ≡ now + (observe p pong now).0.retry_in)
      × (min_upgrade_backoff ≤ (observe p pong now).0.retry_in)
      × ((observe p pong now).0.retry_in ≤ max_upgrade_backoff)
unfolding observe
demote-observe p pong now v h = ground arith

-- Ticks, the oldest first, and whether one of them promotes.
unfoldable pub promotes : ProbeState → List Tick → Bool
promotes p [] = false
promotes p (t ∷ ticks) =
    let (v, p') = observe p t.pong t.now in
    let rest = promotes p' ticks in if v.promote then true else rest

-- On relay, a tick that comes too early changes neither the path nor the time of the next upgrade.
held :
    (p : ProbeState) (pong now : ℕ)
    → p.direct ≡ false
    → now ≤ p.next_upgrade
    → ((observe p pong now).0.promote ≡ false)
      × ((observe p pong now).1.direct ≡ false)
      × ((observe p pong now).1.next_upgrade ≡ p.next_upgrade)
unfolding observe
held p pong now d h = ground arith

promotes_held :
    (p : ProbeState) (ticks : List Tick)
    → p.direct ≡ false
    → All (λ t. t.now ≤ p.next_upgrade) ticks
    → promotes p ticks ≡ false
promotes_held p [] d a = unfold promotes in refl
promotes_held p (t ∷ ticks) d a =
    let (np, d', n') = held p t.pong t.now d a.0 in
    step np (promotes_held (observe p t.pong t.now).1 ticks d' (rw n' a.1))
  where
    step :
        (observe p t.pong t.now).0.promote ≡ false
        → promotes (observe p t.pong t.now).1 ticks ≡ false
        → promotes p (t ∷ ticks) ≡ false
    step np rest = unfold promotes in rw np rest

-- After any ticks, a demotion happens only on a direct path at a tick that was not answered; the time
-- of holding is then from 15 seconds to 5 minutes, and however the ticks inside it are answered,
-- none of them promotes.
pub demote_holds :
    (before : List Tick) (t : Tick) (after : List Tick)
    → (observe (run before) t.pong t.now).0.demote ≡ true
    → All (λ (u : Tick). u.now ≤ t.now + (observe (run before) t.pong t.now).0.retry_in) after
    → ((run before).direct ≡ true)
      × (is_answered (run before) t.pong t.now ≡ false)
      × (min_upgrade_backoff ≤ (observe (run before) t.pong t.now).0.retry_in)
      × ((observe (run before) t.pong t.now).0.retry_in ≤ max_upgrade_backoff)
      × (promotes (observe (run before) t.pong t.now).1 after ≡ false)
demote_holds before t after h inside =
    let (d, a, d', n, low, high) =
      demote-observe (run before) t.pong t.now (run-InRange before) h in
    (d, a, low, high, promotes_held (observe (run before) t.pong t.now).1 after d' (rw n inside))
