-- ===== src/Signal/Reconnect.antt =====
-- What happens around a reconnect.
use blinex.Prelude.{
  ℕ, ◌-◌, ◌≤◌, ◌≡◌, refl, ◌∙◌, ◌≢◌, ◌⊎◌, inl, inr, Bool, true, false, ◌&&◌, Option, none, some,
  List, [], ◌∷◌, ◌++◌, map, arith, ◌==◌, nat_eq, if◌then◌else◌, Option-cases,
}
use blinex.Prelude.Text.{Text, text_eq, text_beq, text_beq_iff}
use blinex.Prelude.Dict.{get, get-put_self, get-remove}
use blinex.Signal.{
  Message, Pending, Server, Meanwhile, register, is_relay, is_stale, pending_ttl, queued, enqueue,
  take_pending, expire_pending, handle_absent_target, route, receive, deliver, disconnect, is_other,
}

abbrev pub holds : ℕ → Option ℕ → Bool
holds self none = false
holds self (some other) = other == self

-- After a handler ends, the registrations are as before, but that its own key has none if it was
-- still registered to this very stream: a newer stream of the same peer stays registered.
pub streams-disconnect :
    (s : Server) (self : ℕ) (peer_key k : Text)
    → peer_key ≢ []
    → get (disconnect s self peer_key).streams k
      ≡ (if peer_key == k && holds self (get s.streams k) then none else get s.streams k)
unfolding disconnect
streams-disconnect s self peer_key k ne = elim (Option-cases (get s.streams peer_key)) [
  | inl e ↦ ground (arith, text_beq_iff peer_key [], text_beq_iff peer_key k)
  | inr (t, e) ↦
      ground
        (arith, text_beq_iff peer_key [], text_beq_iff peer_key k, get-remove s.streams peer_key k)
]

deliver_all :
    (sends : ℕ → Message → Bool) (self : ℕ) (ms : List Message)
    → ((x : Message) → sends self x ≡ true)
    → deliver sends self ms ≡ map (λ m. record { stream = self; msg = m }) ms
unfolding deliver
deliver_all sends self [] ok = refl
deliver_all sends self (m ∷ ms) ok = rw (ok m, deliver_all sends self ms ok)

absent-get :
    (s : Server) (m : Message) (at : ℕ)
    → is_relay m ≡ false
    → get (handle_absent_target s m at).pending m.remote_key
      ≡ some (record {
        msgs = enqueue (queued (get (expire_pending s at).pending m.remote_key)) m;
        at = at;
      })
absent-get s m at sig =
    unfold handle_absent_target in
    rw sig (
      get-put_self (expire_pending s at).pending m.remote_key (record {
        msgs = enqueue (queued (get (expire_pending s at).pending m.remote_key)) m;
        at = at;
      }))

-- The sends of a first pass, where the queue is in time.
registers :
    (sends : ℕ → Message → Bool) (w : Meanwhile) (s : Server) (first : Message) (self now : ℕ)
    (auth_key : Option Text) (q : Pending)
    → ((x : Message) → sends self x ≡ true)
    → get s.pending first.key ≡ some q
    → is_stale now q ≡ false
    → first.key == [] ≡ false
    → is_other auth_key first.key ≡ false
    → (receive sends w s self auth_key [] first now).1
      ≡ map (λ m. record { stream = self; msg = m }) q.msgs
        ++ (route sends w (w.delivering (register s self first.key now).1) first now).0
unfolding receive text_beq
registers sends w s first self now auth_key q ok g stale ne other =
    let taken : (register s self first.key now).0 ≡ q.msgs =
      (unfold register take_pending in rw (g, stale) refl) in
    rw (ne, other, taken, deliver_all sends self q.msgs ok) refl

nothing_left :
    (s : Server) (self : ℕ) (key : Text) (now : ℕ) (q : Pending)
    → get s.pending key ≡ some q
    → get (register s self key now).1.pending key ≡ none
unfolding register take_pending
nothing_left s self key now q g =
    rw g (rw (get-remove s.pending key key, (text_beq_iff key key).1 refl) refl)

-- Signaling for a peer that is not connected is sent to it in the first pass of its next handler,
-- if that pass is within the time limit, the queue of the peer has not changed since, whatever else
-- has, and the sends to the new stream succeed: what the handler sends is the messages that were
-- held for the peer before, less the oldest where the queue was full, then the new one, in that
-- order and to the new stream, and after them only what comes of the first message itself; and
-- once the peer has registered nothing is held for it. Other handlers may run at any time during
-- the pass and send to the new stream as well.
pub held_is_delivered :
    (sends : ℕ → Message → Bool) (w : Meanwhile) (s s' : Server) (m first : Message)
    (self at now : ℕ) (auth_key : Option Text)
    → ((x : Message) → sends self x ≡ true)
    → get s'.pending m.remote_key ≡ get (handle_absent_target s m at).pending m.remote_key
    → is_relay m ≡ false
    → now - at ≤ pending_ttl
    → first.key ≡ m.remote_key
    → first.key ≢ []
    → (auth_key ≡ none) ⊎ (auth_key ≡ some first.key)
    → ((receive sends w s' self auth_key [] first now).1
        ≡ map
            (λ x. record { stream = self; msg = x })
            (enqueue (queued (get (expire_pending s at).pending m.remote_key)) m)
          ++ (route sends w (w.delivering (register s' self first.key now).1) first now).0)
      × (get (register s' self first.key now).1.pending first.key ≡ none)
held_is_delivered sends w s s' m first self at now auth_key ok same sig fresh to ne auth =
    let q : Pending = record {
      msgs = enqueue (queued (get (expire_pending s at).pending m.remote_key)) m;
      at = at;
    } in
    let found : get s'.pending first.key ≡ some q = rw to (same ∙ absent-get s m at sig) in
    (
      registers sends w s' first self now auth_key q ok found (ground arith)
          (ground (arith, text_beq_iff first.key [])) (not_other auth_key auth),
      nothing_left s' self first.key now q found,
    )
  where
    not_other : (a : Option Text) → (a ≡ none) ⊎ (a ≡ some first.key) → is_other a first.key ≡ false
    not_other none h = refl
    not_other (some k) h = ground (arith, text_beq_iff first.key k)
