-- ===== src/Peerlink/Link/Observations.antt =====
-- client/internal/peerlink/link.go: what the probe loops of a link have observed.
use blinex.Prelude.{
  ℕ, Bool, ◌≡◌, refl, true, false, not, ◌&&◌, Option, none, some, List, [], ◌∷◌, arith,
  if◌then◌else◌, ◌⊎◌, inl, inr, Bool-cases, nat_eq, nat_beq_iff, ◌==◌, sym, ap, ◌∙◌, subst,
}
use blinex.Prelude.Text.{Text}
use blinex.Prelude.Dict.{Dict, get, put, remove, get-put, get-remove}
use blinex.Peerlink.Probe.{ProbeState, new_probe_state, observe}
use blinex.Peerlink.Probe.Promotion.{Tick, run}
use blinex.Peerlink.Link.{
  Link, Conn, Round, Event, step, run_link, close, look, looked_of, probe, probe_of, observed,
  switch, switch_of, stop, set_ice_conn, read_failed, forget_conn, read_packet, is_conn,
  is_under_way,
}

-- A probe loop that is in such a round and state observes, with a ping that was written.
abbrev pub counted : Bool → Option Round → Option ProbeState → Bool
counted ok none o = false
counted ok (some (Round.decided v)) o = false
counted ok (some Round.looked) none = false
counted ok (some Round.looked) (some st) = ok

-- The observations of the probe loop of a connection since it was attached for which the ping was
-- written, the newest first.
unfoldable pub history : List Event → Conn → List Tick
history [] c = []
history (Event.attach d ∷ xs) c = let rest = history xs c in if d == c then [] else rest
history (Event.probing d ok now ∷ xs) c =
    let l = run_link xs in
    let rest = history xs c in
    if counted ok (get l.rounds d) (get l.probes d) && d == c
    then record { pong = l.last_pong; now = now } ∷ rest
    else rest
history (_ ∷ xs) c = history xs c

-- The connection that the link had when the probe loop of `c` last began a round.
unfoldable pub began : List Event → Conn → Option Conn
began [] c = none
began (Event.looking d ∷ xs) c =
    let rest = began xs c in
    if not (is_under_way (get (run_link xs).rounds d)) && d == c
    then (run_link xs).ice_conn
    else rest
began (_ ∷ xs) c = began xs c

-- The probe loops are in the states that their observations have led to.
abbrev pub Loops : List Event → Type 0
Loops xs =
    (c : Conn) (st : ProbeState) → get (run_link xs).probes c ≡ some st → st ≡ run (history xs c)

module _ {V : Type 0} where
  pub found_in_put :
      (m : Dict Conn V) (d c : Conn) (v w : V)
      → get (put m d v) c ≡ some w
      → ((d == c ≡ true) × (v ≡ w)) ⊎ ((d == c ≡ false) × (get m c ≡ some w))
  found_in_put m d c v w h =
      let g : (if d == c then some v else get m c) ≡ some w = rw (← get-put m d c v) h in
      elim (Bool-cases (d == c)) [
        | inl y ↦ let e : some v ≡ some w = ground arith in inl (y, cc e)
        | inr n ↦ inr (n, ground arith)
      ]

  pub found_in_remove :
      (m : Dict Conn V) (d c : Conn) (w : V)
      → get (remove m d) c ≡ some w
      → (d == c ≡ false) × (get m c ≡ some w)
  found_in_remove m d c w h =
      let g : (if d == c then none else get m c) ≡ some w = rw (← get-remove m d c) h in
      (ground arith, ground arith)

-- The observations after one more, if it counts.
abbrev pub grown : List Tick → Bool → Tick → List Tick
grown ticks b t = if b then t ∷ ticks else ticks

probe-Loops :
    (xs : List Event) (d : Conn) (ok : Bool) (now : ℕ) (r : Option Round) (o : Option ProbeState)
    → get (run_link xs).probes d ≡ o
    → Loops xs
    → (c : Conn) (st : ProbeState) → get (probe_of (run_link xs) d ok now r o).probes c ≡ some st
    → st
      ≡ run (
          grown
            (history xs c)
            (counted ok r o && d == c)
            (record { pong = (run_link xs).last_pong; now = now }))
unfolding probe_of observed run
probe-Loops xs d ok now none o here inv c st h = inv c st h
probe-Loops xs d ok now (some (Round.decided v)) o here inv c st h = inv c st h
probe-Loops xs d ok now (some Round.looked) none here inv c st h = inv c st h
probe-Loops xs d ok now (some Round.looked) (some s) here inv c st h =
    let l = run_link xs in
    elim (Bool-cases ok) [
      | inr n ↦ let (ne, g) = found_in_remove l.probes d c st (ground arith) in rw n (inv c st g)
      | inl z ↦ elim (found_in_put l.probes d c (observe s l.last_pong now).1 st (ground arith)) [
        | inl (same, e) ↦
            let eq : d ≡ c = (nat_beq_iff d c).0 same in
            let old : s ≡ run (history xs c) =
              inv c s (subst (λ k. get l.probes k ≡ some s) eq here) in
            rw (z, same) (sym e ∙ ap (λ q. (observe q l.last_pong now).1) old)
        | inr (ne, g) ↦ rw (z, ne) (inv c st g)
      ]
    ]

pub packet-same :
    (l : Link) (b : Text) (now : ℕ)
    → ((read_packet l b now).1.probes ≡ l.probes)
      × ((read_packet l b now).1.rounds ≡ l.rounds)
      × ((read_packet l b now).1.use_ice ≡ l.use_ice)
unfolding read_packet
packet-same l [] now = (refl, refl, refl)
packet-same l (b ∷ rest) now = (ground arith, ground arith, ground arith)

pub forget-same :
    (l : Link) (c : Conn)
    → ((forget_conn l c).probes ≡ l.probes)
      × ((forget_conn l c).rounds ≡ l.rounds)
      × ((forget_conn l c).use_ice ≡ l.use_ice)
unfolding forget_conn
forget-same l c = (ground arith, ground arith, ground arith)

pub stop-same :
    (l : Link) (c : Conn) → ((stop l c).rounds ≡ l.rounds) × ((stop l c).use_ice ≡ l.use_ice)
unfolding stop
stop-same l c = (ground arith, ground arith)

stop-probes :
    (l : Link) (d c : Conn) (st : ProbeState)
    → get (stop l d).probes c ≡ some st
    → get l.probes c ≡ some st
unfolding stop
stop-probes l d c st h = elim (Bool-cases (l.closed && not (is_under_way (get l.rounds d)))) [
  | inl y ↦ (found_in_remove l.probes d c st (ground arith)).1
  | inr n ↦ ground arith
]

looked-probes :
    (l : Link) (d c : Conn) (o : Option ProbeState) (st : ProbeState)
    → get (looked_of l d o).probes c ≡ some st
    → get l.probes c ≡ some st
unfolding looked_of
looked-probes l d c none st h = h
looked-probes l d c (some s) st h = elim (Bool-cases (is_conn l.ice_conn d)) [
  | inl y ↦ ground arith
  | inr n ↦ (found_in_remove l.probes d c st (ground arith)).1
]

look-probes :
    (l : Link) (d c : Conn) (st : ProbeState)
    → get (look l d).probes c ≡ some st
    → get l.probes c ≡ some st
unfolding look
look-probes l d c st h = elim (Bool-cases (is_under_way (get l.rounds d))) [
  | inl y ↦ ground arith
  | inr n ↦ looked-probes l d c (get l.probes d) st (ground arith)
]

switch-probes : (l : Link) (c : Conn) → (switch l c).probes ≡ l.probes
unfolding switch switch_of
switch-probes l c = ground arith

pub run-Loops : (xs : List Event) → Loops xs
unfolding run_link step history set_ice_conn read_failed close probe run
run-Loops [] c st h = absurd (unfold get in cc h)
run-Loops (Event.attach d ∷ xs) c st h =
    elim (found_in_put (run_link xs).probes d c new_probe_state st h) [
      | inl (same, e) ↦ rw same (sym e)
      | inr (ne, g) ↦ rw ne (run-Loops xs c st g)
    ]
run-Loops (Event.read_error ∷ xs) c st h = run-Loops xs c st h
run-Loops (Event.forget d ∷ xs) c st h =
    run-Loops xs c st (rw (← (forget-same (run_link xs) d).0) h)
run-Loops (Event.packet b now ∷ xs) c st h =
    run-Loops xs c st (rw (← (packet-same (run_link xs) b now).0) h)
run-Loops (Event.looking d ∷ xs) c st h = run-Loops xs c st (look-probes (run_link xs) d c st h)
run-Loops (Event.probing d ok now ∷ xs) c st h =
    let l = run_link xs in
    probe-Loops xs d ok now (get l.rounds d) (get l.probes d) refl (run-Loops xs) c st h
run-Loops (Event.switching d ∷ xs) c st h =
    run-Loops xs c st (rw (← switch-probes (run_link xs) d) h)
run-Loops (Event.stopping d ∷ xs) c st h = run-Loops xs c st (stop-probes (run_link xs) d c st h)
run-Loops (Event.closing ∷ xs) c st h = run-Loops xs c st h
