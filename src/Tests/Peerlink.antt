-- ===== src/Tests/Peerlink.antt =====
-- The probe loop: three answered ticks promote, and a silence after them demotes.
use blinex.Prelude.{
  ℕ, ◌+◌, ◌*◌, ◌≤◌, ◌<◌, ◌≡◌, refl, true, false, List, [], ◌∷◌, arith, nat_eq, All,
}
use blinex.Prelude.{◌++◌}
use blinex.Prelude.Dict.{get, put, remove}
use blinex.Peerlink.Link.{
  Event, Way, probe_pong, run_link, step, look, looked_of, probe, probe_of, observed, switch,
  switch_of, switched, read_packet, set_ice_conn, write,
}
use blinex.Peerlink.Link.Probed.{Proved, run_link-Proved}
use blinex.Peerlink.Link.Closing.{write-closed}
use blinex.Peerlink.Probe.{
  new_probe_state, is_answered, observe, unix, second, upgrade_threshold, min_upgrade_backoff,
  max_upgrade_backoff,
}
use blinex.Peerlink.Probe.Promotion.{Tick, run, Streak, promote-Streak}
use blinex.Peerlink.Probe.Backoff.{promotes, demote_holds}

-- A tick at a second, with a pong that came at a second.
abbrev tick_at : ℕ → ℕ → Tick
tick_at pong at = record { pong = pong * second; now = unix (at * second) }

abbrev two_answered : List Tick
two_answered = tick_at 105 106 ∷ tick_at 101 102 ∷ []

promoted : (observe (run two_answered) (109 * second) (unix (110 * second))).0.promote ≡ true
unfolding observe run new_probe_state
promoted = refl

promote-Streak_example :
    ((run two_answered).direct ≡ false)
    × Streak upgrade_threshold (tick_at 109 110 ∷ two_answered)
    × ((run two_answered).next_upgrade < unix (110 * second))
promote-Streak_example = promote-Streak two_answered (tick_at 109 110) promoted

abbrev three_answered : List Tick
three_answered = tick_at 109 110 ∷ two_answered

-- The next tick sees the same pong, and is demoted; an answer 4 seconds later does not promote.
demoted : (observe (run three_answered) (109 * second) (unix (114 * second))).0.demote ≡ true
unfolding observe run new_probe_state
demoted = refl

soon :
    All
      (λ (u : Tick).
        u.now
        ≤ unix (114 * second)
          + (observe (run three_answered) (109 * second) (unix (114 * second))).0.retry_in)
      (tick_at 117 118 ∷ [])
unfolding observe run new_probe_state
soon = (omega arith, tt)

demote_holds_example :
    ((run three_answered).direct ≡ true)
    × (is_answered (run three_answered) (109 * second) (unix (114 * second)) ≡ false)
    × (min_upgrade_backoff
        ≤ (observe (run three_answered) (109 * second) (unix (114 * second))).0.retry_in)
    × ((observe (run three_answered) (109 * second) (unix (114 * second))).0.retry_in
        ≤ max_upgrade_backoff)
    × (promotes
          (observe (run three_answered) (109 * second) (unix (114 * second))).1
          (tick_at 117 118 ∷ [])
        ≡ false)
demote_holds_example =
    demote_holds three_answered (tick_at 109 114) (tick_at 117 118 ∷ []) demoted soon

-- A link with one connection, whose pongs come a second before each of three rounds.
abbrev pong_at : ℕ → Event
pong_at s = Event.packet (probe_pong ∷ []) (s * second)

-- A whole round, of which the newest step is the switch.
abbrev round_at : ℕ → List Event → List Event
round_at s xs = Event.switching 1 ∷ Event.probing 1 true (unix (s * second)) ∷ Event.looking 1 ∷ xs

abbrev before_third : List Event
before_third =
    pong_at 109 ∷ round_at 106 (pong_at 105 ∷ round_at 102 (pong_at 101 ∷ Event.attach 1 ∷ []))

-- The third round, up to its switch.
abbrev before_switch : List Event
before_switch = Event.probing 1 true (unix (110 * second)) ∷ Event.looking 1 ∷ before_third

still_relay : (run_link before_switch).use_ice ≡ false
unfolding run_link step look looked_of probe probe_of observed switch switch_of switched read_packet
    set_ice_conn observe get put remove new_probe_state
still_relay = refl

now_direct : (run_link (Event.switching 1 ∷ before_switch)).use_ice ≡ true
unfolding run_link step look looked_of probe probe_of observed switch switch_of switched read_packet
    set_ice_conn observe get put remove new_probe_state
now_direct = refl

-- A connection that is attached while the third round is under way is written to unproved.
unproved :
    write (run_link (Event.switching 1 ∷ Event.attach 2 ∷ before_switch)) true ≡ Way.over_ice 2
unfolding write run_link step look looked_of probe probe_of observed switch switch_of switched
    read_packet set_ice_conn observe get put remove new_probe_state
unproved = refl

run_link-Proved_example : Proved before_switch (Event.switching 1)
run_link-Proved_example = run_link-Proved before_switch (Event.switching 1) still_relay now_direct

write-closed_example :
    write
      (run_link
        (round_at 113 (pong_at 112 ∷ []) ++ Event.closing ∷ Event.switching 1 ∷ before_switch))
      true
    ≡ Way.over_relay
write-closed_example =
    write-closed (round_at 113 (pong_at 112 ∷ [])) (Event.switching 1 ∷ before_switch) true tt
