-- ===== src/Signal/Queue.antt =====
-- What is held for peers that are not connected.
use blinex.Prelude.{
  ℕ, ◌-◌, ◌≤◌, ◌≡◌, refl, inl, inr, Bool, false, Option, none, some, List, [], ◌∷◌, ◌++◌, arith,
  leb, ◌==◌, Bool-cases, Option-cases, length, drop, All, length-append, subst,
}
use blinex.Prelude.Text.{Text, text_eq, text_beq_iff}
use blinex.Prelude.Dict.{
  get, put, kept, Distinct, get-put, get-remove, get-evict, Distinct-evict, Distinct-put,
  Distinct-remove,
}
use blinex.Signal.{
  Message, Pending, Server, is_relay, is_stale, pending_per_peer, queued, enqueue, take_pending,
  expire_pending, handle_absent_target, register, disconnect, new,
}

-- A queue within its bound, of signaling only, addressed to its peer.
pub record IsQueue (key : Text) (msgs : List Message) : Type 0 where
  pub bounded : length msgs ≤ pending_per_peer
  pub signaling : All (λ m. (is_relay m ≡ false) × (m.remote_key ≡ key)) msgs

pub record Inv (s : Server) : Type 0 where
  pub distinct : Distinct s.pending
  pub queues : (key : Text) (q : Pending) → get s.pending key ≡ some q → IsQueue key q.msgs

All-append_one :
    (P : Message → Type 0) (ms : List Message) (m : Message) → All P ms → P m → All P (ms ++ m ∷ [])
All-append_one P [] m a p = (p, tt)
All-append_one P (x ∷ ms) m a p = (a.0, All-append_one P ms m a.1 p)

All-drop_one : (P : Message → Type 0) (ms : List Message) → All P ms → All P (drop 1 ms)
All-drop_one P [] a = tt
All-drop_one P (x ∷ ms) a = a.1

length-drop_one : (ms : List Message) → length (drop 1 ms) ≡ length ms - 1
length-drop_one [] = omega arith
length-drop_one (x ∷ ms) = omega arith

enqueue-IsQueue :
    (msgs : List Message) (m : Message)
    → IsQueue m.remote_key msgs
    → is_relay m ≡ false
    → IsQueue m.remote_key (enqueue msgs m)
enqueue-IsQueue msgs m v sig = elim (Bool-cases (leb pending_per_peer (length msgs))) [
  | inl y ↦
      unfold enqueue in
      rw y (record {
        bounded =
            omega (arith, length-append (drop 1 msgs) (m ∷ []), length-drop_one msgs, v.bounded);
        signaling = All-append_one _ (drop 1 msgs) m (All-drop_one _ msgs v.signaling) (sig, refl);
      })
  | inr n ↦
      unfold enqueue in
      rw n (record {
        bounded = ground (arith, length-append msgs (m ∷ []), v.bounded);
        signaling = All-append_one _ msgs m v.signaling (sig, refl);
      })
]

kept-some : {V : Type 0} (p : V → Bool) (o : Option V) (v : V) → kept p o ≡ some v → o ≡ some v
kept-some p none v h = cc
kept-some p (some w) v h = ground arith

expire-Inv : (s : Server) (now : ℕ) → Inv s → Inv (expire_pending s now)
expire-Inv s now v =
    unfold expire_pending in
    record {
      distinct = Distinct-evict (is_stale now) s.pending v.distinct;
      queues = λ key q g. v.queues key q (
          kept-some (is_stale now) (get s.pending key) q
            (rw (get-evict (is_stale now) s.pending key v.distinct) at g));
    }

queued-IsQueue : (s : Server) (key : Text) → Inv s → IsQueue key (queued (get s.pending key))
queued-IsQueue s key v = elim (Option-cases (get s.pending key)) [
  | inl e ↦ rw e (record { bounded = omega arith; signaling = tt })
  | inr (q, e) ↦ rw e (v.queues key q e)
]

abbrev held : Server → Message → ℕ → Pending
held s m now = record { msgs = enqueue (queued (get s.pending m.remote_key)) m; at = now }

hold-Inv :
    (s : Server) (m : Message) (now : ℕ)
    → Inv s
    → is_relay m ≡ false
    → Inv (record s { pending = put s.pending m.remote_key (held s m now) })
hold-Inv s m now v sig = record {
  distinct = Distinct-put s.pending m.remote_key _ v.distinct;
  queues = λ key q g. elim (Bool-cases (m.remote_key == key)) [
    | inl same ↦
        placed key q ((text_beq_iff m.remote_key key).0 same)
          (rw (get-put s.pending m.remote_key key (held s m now), same) at g)
    | inr other ↦
        v.queues key q (rw (get-put s.pending m.remote_key key (held s m now), other) at g)
  ];
}
  where
    placed :
        (key : Text) (q : Pending)
        → m.remote_key ≡ key
        → some (held s m now) ≡ some q
        → IsQueue key q.msgs
    placed key q e g =
        let here : held s m now ≡ q = cc g in
        subst (λ k. IsQueue k q.msgs) e
          (subst (λ (r : Pending). IsQueue m.remote_key r.msgs) here
            (enqueue-IsQueue (queued (get s.pending m.remote_key)) m
              (queued-IsQueue s m.remote_key v) sig))

absent-Inv : (s : Server) (m : Message) (now : ℕ) → Inv s → Inv (handle_absent_target s m now)
absent-Inv s m now v = elim (Bool-cases (is_relay m)) [
  | inr sig ↦
      unfold handle_absent_target in
      rw sig (hold-Inv (expire_pending s now) m now (expire-Inv s now v) sig)
  | inl r ↦ logged (unfold handle_absent_target in rw r (ground arith))
]
  where
    logged : (handle_absent_target s m now).pending ≡ s.pending → Inv (handle_absent_target s m now)
    logged e = record { distinct = rw e v.distinct; queues = rw e v.queues }

take-Inv : (s : Server) (key : Text) (now : ℕ) → Inv s → Inv (take_pending s key now).1
take-Inv s key now v = elim (Option-cases (get s.pending key)) [
  | inl e ↦ unfold take_pending in rw e v
  | inr (q, e) ↦
      unfold take_pending in
      rw e (record {
        distinct = Distinct-remove s.pending key v.distinct;
        queues = λ k r g. ground (arith, get-remove s.pending key k, v.queues k r);
      })
]

pub registering-Inv :
    (s : Server) (key : Text) (self : ℕ)
    → Inv s
    → Inv (record s { streams = put s.streams key self })
registering-Inv s key self v = record { distinct = v.distinct; queues = v.queues }

-- What happens at the server, in the steps that a lock guards, whichever handlers they belong to: a
-- stream registers, a message finds its addressee absent, or a handler ends.
pub data Event : Type 0 where
  registers : ℕ → Text → ℕ → Event
  is_absent : Message → ℕ → Event
  disconnects : ℕ → Text → Event

unfoldable pub step : Server → Event → Server
unfolding register
step s (registers self key now) = (register s self key now).1
step s (is_absent m now) = handle_absent_target s m now
step s (disconnects self peer_key) = disconnect s self peer_key

unfoldable pub run : Server → List Event → Server
run s [] = s
run s (e ∷ es) = run (step s e) es

pending-disconnect :
    (s : Server) (self : ℕ) (peer_key : Text) → (disconnect s self peer_key).pending ≡ s.pending
unfolding disconnect
pending-disconnect s self peer_key = ground arith

step-Inv : (s : Server) (e : Event) → Inv s → Inv (step s e)
step-Inv s (registers self key now) v =
    unfold step in take-Inv _ key now (registering-Inv s key self v)
step-Inv s (is_absent m now) v = unfold step in absent-Inv s m now v
step-Inv s (disconnects self peer_key) v =
    unfold step in
    record {
      distinct = rw (pending-disconnect s self peer_key) v.distinct;
      queues = rw (pending-disconnect s self peer_key) v.queues;
    }

pub run-Inv : (s : Server) (es : List Event) → Inv s → Inv (run s es)
run-Inv s [] v = unfold run in v
run-Inv s (e ∷ es) v = rest (run-Inv (step s e) es (step-Inv s e v))
  where
    rest : Inv (run (step s e) es) → Inv (run s (e ∷ es))
    rest h = unfold run in h

pub new-Inv : Inv new
new-Inv = unfold new in record { distinct = tt; queues = λ key q g. unfold get in cc g }

-- Whatever registers, is held and disconnects, in whatever order, what a new server holds for a peer is at most
-- `pending_per_peer` messages, all of them addressed to that peer, and no relayed data.
pub pending_bounded :
    (es : List Event) (key : Text) (q : Pending)
    → get (run new es).pending key ≡ some q
    → IsQueue key q.msgs
pending_bounded es key q g = (run-Inv new es new-Inv).queues key q g
