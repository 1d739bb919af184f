-- ===== src/Peerlink/Link/Closing.antt =====
-- client/internal/peerlink/link.go: what a closed link does.
use blinex.Prelude.{
  ℕ, Bool, ◌≡◌, refl, none, List, [], ◌∷◌, ◌++◌, arith, nat_eq, inl, inr, Bool-cases,
}
use blinex.Prelude.Text.{Text}
use blinex.Peerlink.Link.{
  Link, Conn, Way, write, Event, step, run_link, close, look, looked_of, probe, probe_of, observed,
  switch, switch_of, stop, read_failed, forget_conn, read_packet,
}

-- No connection is attached by the events.
abbrev pub NoAttach : List Event → Type 0
NoAttach [] = Unit
NoAttach (Event.attach c ∷ xs) = ⊥
NoAttach (_ ∷ xs) = NoAttach xs

forget-none : (l : Link) (c : Conn) → l.ice_conn ≡ none → (forget_conn l c).ice_conn ≡ none
unfolding forget_conn
forget-none l c e = ground (arith, e)

packet-ice_conn : (l : Link) (b : Text) (now : ℕ) → (read_packet l b now).1.ice_conn ≡ l.ice_conn
unfolding read_packet
packet-ice_conn l [] now = refl
packet-ice_conn l (b ∷ rest) now = ground arith

look-ice_conn : (l : Link) (c : Conn) → (look l c).ice_conn ≡ l.ice_conn
unfolding look looked_of
look-ice_conn l c = ground arith

probe-ice_conn :
    (l : Link) (c : Conn) (ok : Bool) (now : ℕ) → (probe l c ok now).ice_conn ≡ l.ice_conn
unfolding probe probe_of observed
probe-ice_conn l c ok now = ground arith

switch-ice_conn : (l : Link) (c : Conn) → (switch l c).ice_conn ≡ l.ice_conn
unfolding switch switch_of
switch-ice_conn l c = ground arith

stop-ice_conn : (l : Link) (c : Conn) → (stop l c).ice_conn ≡ l.ice_conn
unfolding stop
stop-ice_conn l c = ground arith

none_after :
    (xs before : List Event)
    → NoAttach xs
    → (run_link (xs ++ Event.closing ∷ before)).ice_conn ≡ none
unfolding run_link step close read_failed
none_after [] before n = refl
none_after (Event.attach c ∷ xs) before n = absurd n
none_after (Event.read_error ∷ xs) before n = none_after xs before n
none_after (Event.forget c ∷ xs) before n =
    forget-none (run_link (xs ++ Event.closing ∷ before)) c (none_after xs before n)
none_after (Event.packet b now ∷ xs) before n =
    rw (packet-ice_conn (run_link (xs ++ Event.closing ∷ before)) b now) (none_after xs before n)
none_after (Event.looking c ∷ xs) before n =
    rw (look-ice_conn (run_link (xs ++ Event.closing ∷ before)) c) (none_after xs before n)
none_after (Event.probing c ok now ∷ xs) before n =
    rw (probe-ice_conn (run_link (xs ++ Event.closing ∷ before)) c ok now) (none_after xs before n)
none_after (Event.switching c ∷ xs) before n =
    rw (switch-ice_conn (run_link (xs ++ Event.closing ∷ before)) c) (none_after xs before n)
none_after (Event.stopping c ∷ xs) before n =
    rw (stop-ice_conn (run_link (xs ++ Event.closing ∷ before)) c) (none_after xs before n)
none_after (Event.closing ∷ xs) before n = refl

-- From `Close` on, until another connection is attached, every packet goes over the relay, whatever
-- the loops that are still running do, pongs that come late and a switch that was under way included.
pub write-closed :
    (xs before : List Event) (ok : Bool)
    → NoAttach xs
    → write (run_link (xs ++ Event.closing ∷ before)) ok ≡ Way.over_relay
unfolding write
write-closed xs before ok n = elim (Bool-cases (run_link (xs ++ Event.closing ∷ before)).use_ice) [
  | inl y ↦ rw (y, none_after xs before n) refl
  | inr f ↦ rw f refl
]
