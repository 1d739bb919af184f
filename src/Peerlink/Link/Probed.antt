-- ===== src/Peerlink/Link/Probed.antt =====
-- client/internal/peerlink/link.go: what has to come before the direct path is taken.
use blinex.Prelude.{
  ℕ, Bool, ◌≡◌, refl, true, false, not, ◌&&◌, Option, none, some, List, [], ◌∷◌, arith,
  if◌then◌else◌, inl, inr, Bool-cases, nat_eq, nat_beq_iff, ◌==◌, ap, ◌∙◌, subst,
}
use blinex.Prelude.Dict.{get}
use blinex.Peerlink.Probe.{ProbeState, observe, upgrade_threshold}
use blinex.Peerlink.Probe.Promotion.{Tick, run, Streak, promote-Streak}
use blinex.Peerlink.Link.{
  Link, Conn, Round, Event, step, run_link, close, look, looked_of, probe, probe_of, observed,
  switch, switch_of, switched, reverting, set_ice_conn, read_failed, is_conn, is_under_way,
}
use blinex.Peerlink.Link.Observations.{
  counted, history, began, Loops, run-Loops, grown, found_in_put, found_in_remove, packet-same,
  forget-same, stop-same,
}

-- What a verdict to promote rests on.
abbrev Earned : List Tick → Round → Type 0
Earned ticks Round.looked = Unit {0}
Earned ticks (Round.decided v) = v.promote ≡ true → Streak upgrade_threshold ticks

-- What a round that is under way rests on: where it began, and the observations.
abbrev Begun : Option Conn → List Tick → Conn → Round → Type 0
Begun start ticks c r = (start ≡ some c) × Earned ticks r

abbrev Rounds : List Event → Type 0
Rounds xs =
    (c : Conn) (r : Round)
    → get (run_link xs).rounds c ≡ some r
    → Begun (began xs c) (history xs c) c r

is_conn-some : (o : Option Conn) (d : Conn) → is_conn o d ≡ true → o ≡ some d
is_conn-some none d h = absurd (cc h)
is_conn-some (some c) d h = ap some ((nat_beq_iff c d).0 h)

-- A round that is under way is not that of a loop in none.
idle-Rounds :
    (xs : List Event) (d : Conn) (b : Bool)
    → Rounds xs
    → get (run_link xs).rounds d ≡ none
    → (c : Conn) (r : Round) → get (run_link xs).rounds c ≡ some r
    → Begun (if b && d == c then (run_link xs).ice_conn else began xs c) (history xs c) c r
idle-Rounds xs d false inv idle c r h = inv c r h
idle-Rounds xs d true inv idle c r h = elim (Bool-cases (d == c)) [
  | inr n ↦ rw n (inv c r h)
  | inl y ↦ absurd (
      let g = subst (λ k. get (run_link xs).rounds k ≡ none) ((nat_beq_iff d c).0 y) idle in
      cc (g, h))
]

looked-Rounds :
    (xs : List Event) (d : Conn) (o : Option ProbeState)
    → Rounds xs
    → get (run_link xs).rounds d ≡ none
    → (c : Conn) (r : Round) → get (looked_of (run_link xs) d o).rounds c ≡ some r
    → Begun (if true && d == c then (run_link xs).ice_conn else began xs c) (history xs c) c r
unfolding looked_of
looked-Rounds xs d none inv idle c r h = idle-Rounds xs d true inv idle c r h
looked-Rounds xs d (some st) inv idle c r h =
    let l = run_link xs in
    elim (Bool-cases (is_conn l.ice_conn d)) [
      | inr n ↦ idle-Rounds xs d true inv idle c r (ground arith)
      | inl y ↦ elim (found_in_put l.rounds d c Round.looked r (ground arith)) [
        | inr (ne, g) ↦ rw ne (inv c r g)
        | inl (same, e) ↦
            subst
              (λ q. Begun (if true && d == c then l.ice_conn else began xs c) (history xs c) c q) e
              (rw same (is_conn-some l.ice_conn d y ∙ ap some ((nat_beq_iff d c).0 same), tt))
      ]
    ]

look-Rounds :
    (xs : List Event) (d : Conn) (o : Option Round)
    → get (run_link xs).rounds d ≡ o
    → Rounds xs
    → (c : Conn) (r : Round)
    → get
        (if is_under_way o
          then run_link xs
          else looked_of (run_link xs) d (get (run_link xs).probes d)).rounds
        c
      ≡ some r
    → Begun
        (if not (is_under_way o) && d == c then (run_link xs).ice_conn else began xs c)
        (history xs c)
        c
        r
look-Rounds xs d none idle inv c r h =
    looked-Rounds xs d (get (run_link xs).probes d) inv idle c r h
look-Rounds xs d (some q) here inv c r h = inv c r h

probe-Rounds :
    (xs : List Event) (d : Conn) (ok : Bool) (now : ℕ) (q : Option Round) (o : Option ProbeState)
    → get (run_link xs).rounds d ≡ q
    → get (run_link xs).probes d ≡ o
    → Loops xs
    → Rounds xs
    → (c : Conn) (r : Round) → get (probe_of (run_link xs) d ok now q o).rounds c ≡ some r
    → Begun
        (began xs c)
        (grown
          (history xs c)
          (counted ok q o && d == c)
          (record { pong = (run_link xs).last_pong; now = now }))
        c
        r
unfolding probe_of observed
probe-Rounds xs d ok now none o hq ho loops inv c r h = inv c r h
probe-Rounds xs d ok now (some (Round.decided v)) o hq ho loops inv c r h = inv c r h
probe-Rounds xs d ok now (some Round.looked) none hq ho loops inv c r h = inv c r h
probe-Rounds xs d ok now (some Round.looked) (some s) hq ho loops inv c r h =
    let l = run_link xs in
    let t : Tick = record { pong = l.last_pong; now = now } in
    let begun = (λ (k : Conn) (e : d ≡ k).
      (inv k Round.looked (subst (λ j. get l.rounds j ≡ some Round.looked) e hq)).0) in
    elim (Bool-cases ok) [
      | inr n ↦ elim (found_in_put l.rounds d c (Round.decided reverting) r (ground arith)) [
        | inr (ne, g) ↦ rw n (inv c r g)
        | inl (same, e) ↦ rw n (
            subst (λ x. Begun (began xs c) (history xs c) c x) e
              (begun c ((nat_beq_iff d c).0 same), λ p. cc p))
      ]
      | inl z ↦
          let v = (observe s l.last_pong now).0 in
          elim (found_in_put l.rounds d c (Round.decided v) r (ground arith)) [
            | inr (ne, g) ↦ rw (z, ne) (inv c r g)
            | inl (same, e) ↦
                let eq : d ≡ c = (nat_beq_iff d c).0 same in
                let old : s ≡ run (history xs c) =
                  loops c s (subst (λ k. get l.probes k ≡ some s) eq ho) in
                rw (z, same)
                  (subst (λ x. Begun (began xs c) (t ∷ history xs c) c x) e
                    (
                      begun c eq,
                      λ p.
                          (promote-Streak (history xs c) t
                            (subst (λ x. (observe x t.pong t.now).0.promote ≡ true) old p)).1,
                    ))
          ]
    ]

switch-rounds :
    (l : Link) (d c : Conn) (r : Round)
    → get (switch l d).rounds c ≡ some r
    → get l.rounds c ≡ some r
unfolding switch
switch-rounds l d c r h = kept (get l.rounds d) h
  where
    kept : (o : Option Round) → get (switch_of l d o).rounds c ≡ some r → get l.rounds c ≡ some r
    kept none g = unfold switch_of in g
    kept (some Round.looked) g = unfold switch_of in g
    kept (some (Round.decided v)) g = unfold switch_of in (found_in_remove l.rounds d c r g).1

run-Rounds : (xs : List Event) → Rounds xs
unfolding run_link step history began set_ice_conn read_failed close look probe
run-Rounds [] c r h = absurd (unfold get in cc h)
run-Rounds (Event.attach d ∷ xs) c r h =
    let (ne, g) = found_in_remove (run_link xs).rounds d c r h in rw ne (run-Rounds xs c r g)
run-Rounds (Event.read_error ∷ xs) c r h = run-Rounds xs c r h
run-Rounds (Event.forget d ∷ xs) c r h =
    run-Rounds xs c r (rw (← (forget-same (run_link xs) d).1) h)
run-Rounds (Event.packet b now ∷ xs) c r h =
    run-Rounds xs c r (rw (← (packet-same (run_link xs) b now).1) h)
run-Rounds (Event.looking d ∷ xs) c r h =
    look-Rounds xs d (get (run_link xs).rounds d) refl (run-Rounds xs) c r h
run-Rounds (Event.probing d ok now ∷ xs) c r h =
    let l = run_link xs in
    probe-Rounds xs d ok now (get l.rounds d) (get l.probes d) refl refl (run-Loops xs)
      (run-Rounds xs) c r h
run-Rounds (Event.switching d ∷ xs) c r h = run-Rounds xs c r (switch-rounds (run_link xs) d c r h)
run-Rounds (Event.stopping d ∷ xs) c r h =
    run-Rounds xs c r (rw (← (stop-same (run_link xs) d).0) h)
run-Rounds (Event.closing ∷ xs) c r h = run-Rounds xs c r h

-- What the step that takes the direct path is.
pub record Proved (xs : List Event) (x : Event) : Type 0 where
  pub conn : Conn
  pub round : x ≡ Event.switching conn
  pub current : began xs conn ≡ some conn
  pub streak : Streak upgrade_threshold (history xs conn)

switched_on :
    (xs : List Event) (d : Conn) (o : Option Round)
    → get (run_link xs).rounds d ≡ o
    → (run_link xs).use_ice ≡ false
    → (switch_of (run_link xs) d o).use_ice ≡ true
    → Proved xs (Event.switching d)
unfolding switch_of switched
switched_on xs d none here f h = absurd (cc (f, h))
switched_on xs d (some Round.looked) here f h = absurd (cc (f, h))
switched_on xs d (some (Round.decided v)) here f h =
    let (start, earned) = run-Rounds xs d (Round.decided v) here in
    record { conn = d; round = refl; current = start; streak = earned (ground arith) }

look-use_ice : (l : Link) (c : Conn) → (look l c).use_ice ≡ l.use_ice
unfolding look looked_of
look-use_ice l c = ground arith

probe-use_ice : (l : Link) (c : Conn) (ok : Bool) (now : ℕ) → (probe l c ok now).use_ice ≡ l.use_ice
unfolding probe probe_of observed
probe-use_ice l c ok now = ground arith

-- Whatever has happened on a link, and however the steps of its loops and of calls are interleaved,
-- the step that moves it from the relay to the direct path ends a round of the probe loop of a
-- connection which was the link's when that round began; and of the observations that this loop has
-- made with a ping written since its connection was attached, the last three each saw a recent pong,
-- later than the one that the observation before saw. Pongs are noted for the link: one that came
-- over an earlier connection counts too. That the connection is still the link's at that step is not
-- said: it may have been replaced since the round began.
pub run_link-Proved :
    (xs : List Event) (x : Event)
    → (run_link xs).use_ice ≡ false
    → (run_link (x ∷ xs)).use_ice ≡ true
    → Proved xs x
unfolding run_link step set_ice_conn read_failed close switch
run_link-Proved xs (Event.attach d) f h = absurd (cc (f, h))
run_link-Proved xs Event.read_error f h = absurd (cc h)
run_link-Proved xs (Event.forget d) f h = absurd (cc ((forget-same (run_link xs) d).2, f, h))
run_link-Proved xs (Event.packet b now) f h =
    absurd (cc ((packet-same (run_link xs) b now).2, f, h))
run_link-Proved xs (Event.looking d) f h = absurd (cc (look-use_ice (run_link xs) d, f, h))
run_link-Proved xs (Event.probing d ok now) f h =
    absurd (cc (probe-use_ice (run_link xs) d ok now, f, h))
run_link-Proved xs (Event.switching d) f h = switched_on xs d (get (run_link xs).rounds d) refl f h
run_link-Proved xs (Event.stopping d) f h = absurd (cc ((stop-same (run_link xs) d).1, f, h))
run_link-Proved xs Event.closing f h = absurd (cc h)
