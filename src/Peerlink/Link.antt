-- ===== src/Peerlink/Link.antt =====
-- client/internal/peerlink/link.go, `Link`: the data path to one peer. A connection that ICE has made
-- is a number of its own. What runs of itself are one read loop and one probe loop for each
-- connection. Only the field of the connection is under a lock, so that a round of a probe loop is
-- three steps, its look at that field, its observation and its switch, between which anything may
-- happen, and a read loop that fails ends in two. `SetICEConn` and `Close` are one step each. What is
-- lost on the way of a write, and the order of steps, are given with the steps.
pub mod Observations
pub mod Probed
pub mod Closing
use blinex.Prelude.{
  ℕ, Bool, true, false, not, ◌&&◌, ◌||◌, Option, none, some, List, [], ◌∷◌, ◌==◌, nat_eq,
  if◌then◌else◌, length, leb,
}
use blinex.Prelude.Text.{Text}
use blinex.Prelude.Dict.{Dict, get, put, remove}
use blinex.Peerlink.Probe.{ProbeState, Verdict, new_probe_state, observe}

abbrev pub Conn : Type 0
Conn = ℕ

-- How far a round of a probe loop has got: it has seen that its connection is the link's, or it has
-- come to a verdict that it is about to act on.
pub data Round : Type 0 where
  looked : Round
  decided : Verdict → Round

-- `probes` are the probe loops that run, with their `st`, and `rounds` the rounds that are under way.
pub record Link : Type 0 where
  pub ice_conn : Option Conn
  pub use_ice : Bool
  pub last_pong : ℕ
  pub closed : Bool
  pub probes : Dict Conn ProbeState
  pub rounds : Dict Conn Round

-- `New`
abbrev pub new_link : Link
new_link = record {
  ice_conn = none;
  use_ice = false;
  last_pong = 0;
  closed = false;
  probes = [];
  rounds = [];
}

-- Which connection carries a packet.
pub data Way : Type 0 where
  over_relay : Way
  over_ice : Conn → Way

via : Option Conn → Bool → Way
via none ok = Way.over_relay
via (some c) ok = if ok then Way.over_ice c else Way.over_relay

-- `Write`; `ok` says whether a write to the ICE connection succeeds.
unfoldable pub write : Link → Bool → Way
unfolding via
write l ok = if l.use_ice then via l.ice_conn ok else Way.over_relay

-- `SetICEConn`, with the connection that it closes.
unfoldable pub set_ice_conn : Link → Conn → Option Conn × Link
set_ice_conn l c = (
  l.ice_conn,
  record l {
    ice_conn = some c;
    probes = put l.probes c new_probe_state;
    rounds = remove l.rounds c;
  },
)

abbrev pub is_conn : Option Conn → Conn → Bool
is_conn none c = false
is_conn (some d) c = d == c

-- The read loop of a connection at an error, and the step with which it ends.
unfoldable pub read_failed : Link → Link
read_failed l = record l { use_ice = false }

unfoldable pub forget_conn : Link → Conn → Link
forget_conn l c = if is_conn l.ice_conn c then record l { ice_conn = none } else l

-- What the read loop does with a packet.
pub data Received : Type 0 where
  -- writes a pong of that size
  answered : ℕ → Received
  noted : Received
  injected : Text → Received

abbrev pub probe_ping : ℕ
probe_ping = 254

abbrev pub probe_pong : ℕ
probe_pong = 253

-- A round of the read loop: the packet, and the time in nanoseconds since 1970.
unfoldable pub read_packet : Link → Text → ℕ → Received × Link
read_packet l [] now = (Received.injected [], l)
read_packet l (b ∷ rest) now =
    if b == probe_ping
    then (Received.answered (length (b ∷ rest)), l)
    else if b == probe_pong
    then (Received.noted, record l { last_pong = now })
    else (Received.injected (b ∷ rest), l)

-- What the verdict of a probe makes of the path.
unfoldable pub switched : Bool → Verdict → Bool
switched use_ice v = if v.promote then true else if v.demote then false else use_ice

abbrev pub is_under_way : Option Round → Bool
is_under_way none = false
is_under_way (some r) = true

unfoldable pub looked_of : Link → Conn → Option ProbeState → Link
looked_of l c none = l
looked_of l c (some st) =
    if is_conn l.ice_conn c
    then record l { rounds = put l.rounds c Round.looked }
    else record l { probes = remove l.probes c }

-- A tick: the probe loop of a connection, if it runs and is in no round, looks at the link's
-- connection, and ends if that is another.
unfoldable pub look : Link → Conn → Link
unfolding looked_of
look l c = if is_under_way (get l.rounds c) then l else looked_of l c (get l.probes c)

-- What a round does whose ping cannot be written.
abbrev pub reverting : Verdict
reverting = record { promote = false; demote = true; retry_in = 0 }

-- The round goes on: the ping is written if `ok`, and the last pong is observed.
unfoldable pub observed : Link → Conn → Bool → ℕ → ProbeState → Link
observed l c ok now st =
    let (v, st') = observe st l.last_pong now in
    if ok
    then record l { probes = put l.probes c st'; rounds = put l.rounds c (Round.decided v) }
    else record l { probes = remove l.probes c; rounds = put l.rounds c (Round.decided reverting) }

unfoldable pub probe_of : Link → Conn → Bool → ℕ → Option Round → Option ProbeState → Link
unfolding observed
probe_of l c ok now none o = l
probe_of l c ok now (some (Round.decided v)) o = l
probe_of l c ok now (some Round.looked) none = l
probe_of l c ok now (some Round.looked) (some st) = observed l c ok now st

unfoldable pub probe : Link → Conn → Bool → ℕ → Link
unfolding probe_of
probe l c ok now = probe_of l c ok now (get l.rounds c) (get l.probes c)

-- The round ends: the path is switched by its verdict, as it then stands.
unfoldable pub switch_of : Link → Conn → Option Round → Link
switch_of l c none = l
switch_of l c (some Round.looked) = l
switch_of l c (some (Round.decided v)) = record l {
  use_ice = switched l.use_ice v;
  rounds = remove l.rounds c;
}

unfoldable pub switch : Link → Conn → Link
unfolding switch_of switched
switch l c = switch_of l c (get l.rounds c)

-- A probe loop that is in no round and finds the link closed ends.
unfoldable pub stop : Link → Conn → Link
stop l c =
    if l.closed && not (is_under_way (get l.rounds c))
    then record l { probes = remove l.probes c }
    else l

-- `UsingICE`
unfoldable pub using_ice : Link → Bool
using_ice l = l.use_ice

-- `Close`
unfoldable pub close : Link → Link
close l = record l { closed = true; ice_conn = none; use_ice = false }

pub data Event : Type 0 where
  attach : Conn → Event
  read_error : Event
  forget : Conn → Event
  packet : Text → ℕ → Event
  looking : Conn → Event
  probing : Conn → Bool → ℕ → Event
  switching : Conn → Event
  stopping : Conn → Event
  closing : Event

unfoldable pub step : Link → Event → Link
step l (Event.attach c) = (set_ice_conn l c).1
step l Event.read_error = read_failed l
step l (Event.forget c) = forget_conn l c
step l (Event.packet b now) = (read_packet l b now).1
step l (Event.looking c) = look l c
step l (Event.probing c ok now) = probe l c ok now
step l (Event.switching c) = switch l c
step l (Event.stopping c) = stop l c
step l Event.closing = close l

-- The link after events, the newest first.
unfoldable pub run_link : List Event → Link
run_link [] = new_link
run_link (x ∷ xs) = step (run_link xs) x
