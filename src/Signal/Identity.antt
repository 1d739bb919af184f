-- ===== src/Signal/Identity.antt =====
-- Whom a handler speaks for, and where its messages go.
use blinex.Prelude.{
  ℕ, ◌≡◌, refl, sym, ◌∙◌, ◌≢◌, ◌⊎◌, inl, inr, Bool, false, Option, none, some, List, [], ◌∷◌, ◌++◌,
  arith, ◌==◌, Bool-cases, Option-cases, All, Some, if◌then◌else◌,
}
use blinex.Prelude.Text.{Text, text_eq, text_beq_iff}
use blinex.Prelude.Dict.{get}
use blinex.Signal.{
  Message, Pending, Server, Meanwhile, is_relay, running, Sent, is_stale, take_pending, register,
  route, receive, deliver, is_other,
}
use blinex.Signal.Queue.{Inv}

-- The `peerKey` that a handler can have, given the key that it has authenticated: between its passes
-- the server may change in any way.
pub data Alive (auth_key : Option Text) : Text → Type 0 where
  fresh : Alive auth_key []
  passed :
      {peer_key k : Text}
      → Alive auth_key peer_key
      → (sends : ℕ → Message → Bool) (w : Meanwhile) (s : Server) (self : ℕ) (m : Message) (now : ℕ)
      → (receive sends w s self auth_key peer_key m now).0 ≡ running k
      → Alive auth_key k

-- What one pass that goes on says of the message's key.
pass_key :
    (sends : ℕ → Message → Bool) (w : Meanwhile) (s : Server) (self : ℕ) (auth_key : Option Text)
    (peer_key : Text) (m : Message) (now : ℕ) (k : Text)
    → (receive sends w s self auth_key peer_key m now).0 ≡ running k
    → (m.key ≡ k)
      × (((peer_key ≡ []) × (k ≢ []) × (is_other auth_key k ≡ false))
          ⊎ ((peer_key ≢ []) × (k ≡ peer_key)))
unfolding receive
pass_key sends w s self auth_key peer_key m now k h = elim (Bool-cases (peer_key == [])) [
  | inl first ↦
      let e : m.key ≡ k = ground arith in
      (
        e,
        inl (
          (text_beq_iff peer_key []).0 first,
          λ z. ground (arith, text_beq_iff m.key []),
          rw (← e) (ground arith),
        ),
      )
  | inr later ↦ (
    ground (arith, text_beq_iff m.key peer_key),
    inr (λ z. ground (arith, text_beq_iff peer_key []), ground arith),
  )
]

Alive-key :
    {auth_key : Option Text} {p : Text}
    → Alive auth_key p
    → (p ≡ []) ⊎ ((p ≢ []) × (is_other auth_key p ≡ false))
Alive-key fresh = inl refl
Alive-key {auth_key} {p} (passed {peer_key = q} a sends w s self m now h) =
    elim (pass_key sends w s self auth_key q m now p h).1 [
      | inl (_, ne, o) ↦ inr (ne, o)
      | inr (ne, e) ↦ elim (Alive-key a) [
        | inl z ↦ absurd (ne z)
        | inr (_, o) ↦ inr (rw e ne, rw e o)
      ]
    ]

-- The key is the caller's authenticated one, where there is one.
abbrev pub Authentic : Option Text → Text → Type 0
Authentic none k = Unit {0}
Authentic (some a) k = k ≡ a

-- A handler goes on from a message only under one key, which is not empty: the message carries it,
-- the handler had it before unless this is its first message, and it is the authenticated key of the
-- caller, where there is one. Every other message ends the handler.
pub speaks_as_itself :
    {auth_key : Option Text} {peer_key : Text} (k : Text)
    → Alive auth_key peer_key
    → (sends : ℕ → Message → Bool) (w : Meanwhile) (s : Server) (self : ℕ) (m : Message) (now : ℕ)
    → (receive sends w s self auth_key peer_key m now).0 ≡ running k
    → (m.key ≡ k) × (k ≢ []) × ((peer_key ≡ []) ⊎ (k ≡ peer_key)) × Authentic auth_key k
speaks_as_itself {auth_key} {peer_key} k a sends w s self m now h =
    let (e, c) = pass_key sends w s self auth_key peer_key m now k h in
    elim (Alive-key (passed a sends w s self m now h)) [
      | inl z ↦ elim c [ inl (_, ne, _) ↦ absurd (ne z) | inr (ne, q) ↦ absurd (ne (sym q ∙ z)) ]
      | inr (ne, o) ↦ (e, ne, before c, authentic auth_key o)
    ]
  where
    before :
        ((peer_key ≡ []) × (k ≢ []) × (is_other auth_key k ≡ false))
          ⊎ ((peer_key ≢ []) × (k ≡ peer_key))
        → (peer_key ≡ []) ⊎ (k ≡ peer_key)
    before (inl (z, _, _)) = inl z
    before (inr (_, q)) = inr q

    authentic : (auth : Option Text) → is_other auth k ≡ false → Authentic auth k
    authentic none o = tt
    authentic (some b) o = ground (arith, text_beq_iff k b)

-- A message that is held, in time, for a peer and is addressed to it.
pub record Held (s : Server) (key : Text) (now : ℕ) (x : Message) : Type 0 where
  pub queue : Pending
  pub found : get s.pending key ≡ some queue
  pub fresh : is_stale now queue ≡ false
  pub member : Some (λ y. y ≡ x) queue.msgs
  pub signaling : is_relay x ≡ false
  pub addressed : x.remote_key ≡ key

-- The server at which a pass looks its message's addressee up.
abbrev pub looked_at : Meanwhile → Server → ℕ → Text → Message → ℕ → Server
looked_at w s self peer_key m now =
    if peer_key == [] then w.delivering (register s self m.key now).1 else s

-- A send of a pass: of the message received, to the stream registered for its addressee when it is
-- looked up, or of one that was held for the peer that registers, to the stream that it registers.
abbrev pub Goes : Meanwhile → Server → ℕ → Text → Message → ℕ → Sent → Type 0
Goes w s self peer_key m now x =
    ((x.msg ≡ m) × (get (looked_at w s self peer_key m now).streams m.remote_key ≡ some x.stream))
    ⊎ ((peer_key ≡ []) × Held s m.key now x.msg × (x.stream ≡ self))

module _ (P : Sent → Type 0) (sends : ℕ → Message → Bool) where
  route-All :
      (w : Meanwhile) (s : Server) (m : Message) (now : ℕ)
      → ((t : ℕ) → get s.streams m.remote_key ≡ some t → P (record { stream = t; msg = m }))
      → All P (route sends w s m now).0
  route-All w s m now p = elim (Bool-cases (m.remote_key == [])) [
    | inl y ↦ unfold route in rw y tt
    | inr n ↦ elim (Option-cases (get s.streams m.remote_key)) [
      | inl e ↦ unfold route in rw (n, e) tt
      | inr (t, e) ↦ elim (Bool-cases (sends t m)) [
        | inl y ↦ unfold route in rw (n, e, y) ((p t e, tt))
        | inr z ↦ unfold route in rw (n, e, z) tt
      ]
    ]
  ]

  deliver-All :
      (self : ℕ) (ms : List Message)
      → All (λ x. P (record { stream = self; msg = x })) ms
      → All P (deliver sends self ms)
  unfolding deliver
  deliver-All self [] a = tt
  deliver-All self (x ∷ ms) a = elim (Bool-cases (sends self x)) [
    | inl y ↦ rw y (a.0, deliver-All self ms a.1)
    | inr n ↦ rw n tt
  ]

All-append {ℓ} :
    {A : Type ℓ} (P : A → Type 0) (xs ys : List A) → All P xs → All P ys → All P (xs ++ ys)
All-append P [] ys a b = b
All-append P (x ∷ xs) ys a b = (a.0, All-append P xs ys a.1 b)

All-map :
    (P Q : Message → Type 0) (ms : List Message) → ((x : Message) → P x → Q x) → All P ms → All Q ms
All-map P Q [] f a = tt
All-map P Q (x ∷ ms) f a = (f x a.0, All-map P Q ms f a.1)

All-member :
    (P : Message → Type 0) (ms : List Message) → All P ms → All (λ x. Some (λ y. y ≡ x) ms × P x) ms
All-member P [] a = tt
All-member P (x ∷ ms) a =
    ((inl refl, a.0), All-map _ _ ms (λ y p. (inr p.0, p.1)) (All-member P ms a.1))

register-Held :
    (s : Server) (self : ℕ) (key : Text) (now : ℕ)
    → Inv s
    → All (Held s key now) (register s self key now).0
unfolding register take_pending
register-Held s self key now v = elim (Option-cases (get s.pending key)) [
  | inl e ↦ rw e tt
  | inr (q, e) ↦ elim (Bool-cases (is_stale now q)) [
    | inl y ↦ rw (e, y) tt
    | inr n ↦
        let held : All (Held s key now) q.msgs =
          All-map _ (Held s key now) q.msgs
            (λ x p. record {
              queue = q;
              found = e;
              fresh = n;
              member = p.0;
              signaling = p.1.0;
              addressed = p.1.1;
            })
            (All-member _ q.msgs (v.queues key q e).signaling) in
        rw (e, n) held
  ]
]

-- At a server whose queues are sound, every send of a pass is the message that was received, to the
-- stream registered for its addressee when the pass looks it up, or, in a handler's first pass, one
-- of the messages that are held, in time, for the peer that registers, as it was held, to the
-- handler's own stream; whatever other handlers do in between. Nobody else is sent anything.
pub receive-Goes :
    (sends : ℕ → Message → Bool) (w : Meanwhile) (s : Server) (self : ℕ) (auth_key : Option Text)
    (peer_key : Text) (m : Message) (now : ℕ)
    → Inv s
    → All (Goes w s self peer_key m now) (receive sends w s self auth_key peer_key m now).1
unfolding receive
receive-Goes sends w s self auth_key peer_key m now v = elim (Bool-cases (peer_key == [])) [
  | inl first ↦ elim (Bool-cases (m.key == [])) [
    | inl y ↦ rw (first, y) tt
    | inr n ↦ elim (Bool-cases (is_other auth_key m.key)) [
      | inl y ↦ rw (first, n, y) tt
      | inr z ↦
          let empty : peer_key ≡ [] = (text_beq_iff peer_key []).0 first in
          rw (first, n, z)
            (All-append _ _ _
              (deliver-All _ sends self _
                (All-map _ _ _ (λ x h. inr (empty, h, refl)) (register-Held s self m.key now v)))
              (route-All _ sends w (w.delivering (register s self m.key now).1) m now
                (λ t e. inl (refl, rw first e))))
    ]
  ]
  | inr later ↦ elim (Bool-cases (m.key == peer_key)) [
    | inl y ↦ rw (later, y) (route-All _ sends w s m now (λ t e. inl (refl, rw later e)))
    | inr n ↦ rw (later, n) tt
  ]
]
