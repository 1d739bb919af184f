-- ===== src/Signal.antt =====
-- signal/internal/server/server.go: messages between peers, addressed by their WireGuard keys. A
-- stream is known by a number, one for each call of `Send`. What is done under one lock is one step:
-- `register`, the look-up in `route`, `handle_absent_target` and `disconnect`. A pass of a handler's
-- loop is several of them, and what other handlers make of the server between two of them is an
-- argument. The transport is outside: `sends` says which sends succeed.
pub mod Queue
pub mod Identity
pub mod Reconnect
use blinex.Prelude.{
  ℕ, zero, suc, ◌+◌, ◌-◌, ◌*◌, ◌≡◌, Bool, true, false, not, ◌&&◌, ◌||◌, Option, none, some, List,
  [], ◌∷◌, ◌++◌, ltb, leb, ◌==◌, nat_eq, if◌then◌else◌, length, drop,
}
use blinex.Prelude.Text.{Text, text_eq}
use blinex.Prelude.Dict.{Dict, get, put, remove, evict}

-- `signalv1.Body.Type`
pub data BodyType : Type 0 where
  offer answer candidate mode relay : BodyType

pub record Message : Type 0 where
  pub key : Text
  pub remote_key : Text
  pub body : BodyType
  pub payload : Text
  pub raw : List ℕ

abbrev pub is_relay : Message → Bool
is_relay m = elim m.body [ relay ↦ true | _ ↦ false ]

abbrev pub second : ℕ
second = 1_000_000_000

abbrev pub pending_ttl : ℕ
pending_ttl = 15 * second

abbrev pub pending_per_peer : ℕ
pending_per_peer = 32

abbrev pub drop_log_every : ℕ
drop_log_every = 30 * second

-- `pendingQueue`
pub record Pending : Type 0 where
  pub msgs : List Message
  pub at : ℕ

pub record Server : Type 0 where
  pub streams : Dict Text ℕ
  pub pending : Dict Text Pending
  pub drop_log : Dict Text ℕ

unfoldable pub new : Server
new = record { streams = []; pending = []; drop_log = [] }

abbrev pub is_stale : ℕ → Pending → Bool
is_stale now q = ltb pending_ttl (now - q.at)

-- `takePendingLocked`
taken : Server → Text → Option Pending → ℕ → List Message × Server
taken s key none now = ([], s)
taken s key (some q) now =
    (if is_stale now q then [] else q.msgs, record s { pending = remove s.pending key })

unfoldable pub take_pending : Server → Text → ℕ → List Message × Server
unfolding taken
take_pending s key now = taken s key (get s.pending key) now

-- `expirePendingLocked`
unfoldable pub expire_pending : Server → ℕ → Server
expire_pending s now = record s { pending = evict (is_stale now) s.pending }

abbrev pub queued : Option Pending → List Message
queued none = []
queued (some q) = q.msgs

-- The newest are kept.
unfoldable pub enqueue : List Message → Message → List Message
enqueue msgs m = (if leb pending_per_peer (length msgs) then drop 1 msgs else msgs) ++ m ∷ []

should_log : Option ℕ → ℕ → Bool
should_log none now = true
should_log (some last) now = leb drop_log_every (now - last)

-- `handleAbsentTarget`
unfoldable pub handle_absent_target : Server → Message → ℕ → Server
unfolding should_log
handle_absent_target s m now =
    let s' = expire_pending s now in
    if is_relay m
    then (if should_log (get s.drop_log m.remote_key) now
        then record s { drop_log = put s.drop_log m.remote_key now }
        else s)
    else record s' {
      pending =
          put s'.pending m.remote_key
            (record { msgs = enqueue (queued (get s'.pending m.remote_key)) m; at = now });
    }

-- What the other handlers make of the server during one pass of a handler: while it delivers what was
-- held, and between its look-up of the addressee and `handleAbsentTarget`.
pub record Meanwhile : Type 0 where
  pub delivering : Server → Server
  pub looked_up : Server → Server

-- A first message registers the stream and takes what is held, under one lock.
unfoldable pub register : Server → ℕ → Text → ℕ → List Message × Server
register s self key now = take_pending (record s { streams = put s.streams key self }) key now

-- How a pass of the loop leaves the handler.
pub data Status : Type 0 where
  running : Text → Status
  invalid_argument permission_denied : Status

-- A send to a stream, that succeeded.
pub record Sent : Type 0 where
  pub stream : ℕ
  pub msg : Message

-- The delivery of what was held stops at the first failure.
deliver : (ℕ → Message → Bool) → ℕ → List Message → List Sent
deliver sends self [] = []
deliver sends self (m ∷ ms) =
    let rest = deliver sends self ms in
    if sends self m then record { stream = self; msg = m } ∷ rest else []

forward : (ℕ → Message → Bool) → Meanwhile → Server → Message → ℕ → Option ℕ → List Sent × Server
forward sends w s m now none = ([], handle_absent_target (w.looked_up s) m now)
forward sends w s m now (some target) =
    (if sends target m then record { stream = target; msg = m } ∷ [] else [], s)

-- The routing at the end of a pass.
unfoldable pub route : (ℕ → Message → Bool) → Meanwhile → Server → Message → ℕ → List Sent × Server
unfolding forward
route sends w s m now =
    if m.remote_key == [] then ([], s) else forward sends w s m now (get s.streams m.remote_key)

abbrev pub is_other : Option Text → Text → Bool
is_other none key = false
is_other (some auth_key) key = not (key == auth_key)

-- One pass of the loop of `Send` over a message: the handler's `self`, its authenticated key where
-- there is one, and its `peerKey`, empty before the first message.
unfoldable pub receive :
    (ℕ → Message → Bool)
    → Meanwhile
    → Server
    → ℕ
    → Option Text
    → Text
    → Message
    → ℕ
    → Status × List Sent × Server
unfolding deliver register
receive sends w s self auth_key peer_key m now =
    let (held, s') = register s self m.key now in
    let (out, s'') = route sends w (w.delivering s') m now in
    let (out', s1) = route sends w s m now in
    if peer_key == []
    then (if m.key == []
        then (invalid_argument, [], s)
        else if is_other auth_key m.key
        then (permission_denied, [], s)
        else (running m.key, deliver sends self held ++ out, s''))
    else if not (m.key == peer_key)
    then (permission_denied, [], s)
    else (running peer_key, out', s1)

-- The deferred function: only the handler's own registration is removed.
registered : Server → ℕ → Text → Option ℕ → Server
registered s self peer_key none = s
registered s self peer_key (some other) =
    if other == self then record s { streams = remove s.streams peer_key } else s

unfoldable pub disconnect : Server → ℕ → Text → Server
unfolding registered
disconnect s self peer_key =
    if peer_key == [] then s else registered s self peer_key (get s.streams peer_key)
