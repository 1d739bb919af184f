-- ===== src/Peerlink/Probe/Promotion.antt =====
-- When a path is promoted.
use blinex.Prelude.{
  ℕ, zero, suc, ◌-◌, ◌≤◌, ◌<◌, ◌≡◌, refl, ◌≢◌, inl, inr, true, false, List, [], ◌∷◌, arith, nat_eq,
  if◌then◌else◌, Bool-cases,
}
use blinex.Peerlink.Probe.{
  ProbeState, new_probe_state, is_answered, observe, probe_timeout, unix, upgrade_threshold,
}

-- A tick of the probe loop: the latest pong, and the time.
pub record Tick : Type 0 where
  pub pong : ℕ
  pub now : ℕ

-- The state after ticks, the newest first.
unfoldable pub run : List Tick → ProbeState
run [] = new_probe_state
run (t ∷ ticks) = (observe (run ticks) t.pong t.now).1

abbrev pub last_pong : List Tick → ℕ
last_pong [] = 0
last_pong (t ∷ ticks) = t.pong

-- A pong that no earlier tick has seen last, and that is recent, came before the tick.
pub record Answered (ticks : List Tick) (t : Tick) : Type 0 where
  pub some_pong : t.pong ≢ 0
  pub new_pong : t.pong ≢ last_pong ticks
  pub recent : t.now - unix t.pong < probe_timeout

-- The newest `n` ticks were all answered.
abbrev pub Streak : ℕ → List Tick → Type 0
Streak zero ticks = Unit {0}
Streak (suc n) [] = ⊥
Streak (suc n) (t ∷ ticks) = Answered ticks t × Streak n ticks

Streak-mono : (m n : ℕ) (ticks : List Tick) → m ≤ n → Streak n ticks → Streak m ticks
Streak-mono zero n ticks h s = tt
Streak-mono (suc m) zero ticks h s = absurd (omega arith)
Streak-mono (suc m) (suc n) [] h s = elim s [ ]
Streak-mono (suc m) (suc n) (t ∷ ticks) h s = (s.0, Streak-mono m n ticks (omega arith) s.1)

record Inv (ticks : List Tick) (p : ProbeState) : Type 0 where
  seen : p.seen_pong ≡ last_pong ticks
  streak : Streak p.consecutive_good ticks

Answered-of :
    (ticks : List Tick) (p : ProbeState) (t : Tick)
    → Inv ticks p
    → is_answered p t.pong t.now ≡ true
    → Answered ticks t
unfolding is_answered
Answered-of ticks p t v h = record {
  some_pong = ground (arith, v.seen);
  new_pong = ground (arith, v.seen);
  recent = ground arith;
}

good-observe :
    (p : ProbeState) (pong now : ℕ)
    → (observe p pong now).1.consecutive_good
      ≡ (if is_answered p pong now then suc p.consecutive_good else 0)
unfolding observe
good-observe p pong now = ground arith

seen-observe : (p : ProbeState) (pong now : ℕ) → (observe p pong now).1.seen_pong ≡ pong
unfolding observe
seen-observe p pong now = ground arith

observe-Inv :
    (ticks : List Tick) (p : ProbeState) (t : Tick)
    → Inv ticks p
    → Inv (t ∷ ticks) (observe p t.pong t.now).1
observe-Inv ticks p t v = record {
  seen = seen-observe p t.pong t.now;
  streak = elim (Bool-cases (is_answered p t.pong t.now)) [
    | inl y ↦ rw (good-observe p t.pong t.now, y) ((Answered-of ticks p t v y, v.streak))
    | inr n ↦ rw (good-observe p t.pong t.now, n) tt
  ];
}

run-Inv : (ticks : List Tick) → Inv ticks (run ticks)
run-Inv [] = unfold run new_probe_state in record { seen = refl; streak = tt }
run-Inv (t ∷ ticks) = step ticks t (run-Inv ticks)
  where
    step :
        (ticks : List Tick) (t : Tick) → Inv ticks (run ticks) → Inv (t ∷ ticks) (run (t ∷ ticks))
    step ticks t v = unfold run in observe-Inv ticks (run ticks) t v

promote-observe :
    (p : ProbeState) (pong now : ℕ)
    → (observe p pong now).0.promote ≡ true
    → (p.direct ≡ false)
      × (upgrade_threshold ≤ (observe p pong now).1.consecutive_good)
      × (p.next_upgrade < now)
      × ((observe p pong now).1.direct ≡ true)
unfolding observe
promote-observe p pong now h = ground arith

-- Whatever the ticks, the path is promoted only from relay, only at a tick where this one and the two
-- before were each answered by a pong of its own that was recent, and only after the time of the next
-- upgrade has passed.
pub promote-Streak :
    (ticks : List Tick) (t : Tick)
    → (observe (run ticks) t.pong t.now).0.promote ≡ true
    → ((run ticks).direct ≡ false)
      × Streak upgrade_threshold (t ∷ ticks)
      × ((run ticks).next_upgrade < t.now)
promote-Streak ticks t h =
    let (d, g, n, _) = promote-observe (run ticks) t.pong t.now h in
    (
      d,
      Streak-mono upgrade_threshold (observe (run ticks) t.pong t.now).1.consecutive_good
          (t ∷ ticks) g (observe-Inv ticks (run ticks) t (run-Inv ticks)).streak,
      n,
    )
