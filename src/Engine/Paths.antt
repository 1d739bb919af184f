-- ===== src/Engine/Paths.antt =====
-- The data paths of an agent: `ensureRelayLink` and the teardown in `applySync` of
-- client/internal/engine/engine.go, client/internal/relay/conn.go, and the endpoints of
-- client/internal/wgmgr/bind.go. A relay connection and its link are one record, of the peer and the
-- endpoint; the text of an endpoint is parsed back at once, and is left out.
pub mod Own
use blinex.Prelude.{
  ℕ, ◌+◌, ◌*◌, ◌%◌, ◌^◌, Bool, true, false, ◌&&◌, Option, none, some, List, [], ◌∷◌, ◌==◌, nat_eq,
  if◌then◌else◌, is_some,
}
use blinex.Prelude.Text.{Text, text_eq}
use blinex.Prelude.Dict.{Dict, get, put, remove}
use blinex.Netip.{Addr}

-- `relay.Conn` with the `peerlink.Link` on it, which `PacketWriter` is; port 1 is left out.
pub record Wire : Type 0 where
  pub peer_key : Text
  pub endpoint : Addr

-- The engine's maps, `relayCounter`, and the `endpoints` of the bind.
pub record Paths : Type 0 where
  pub counter : ℕ
  pub relay_conns : Dict Text Wire
  pub relay_endpts : Dict Text Addr
  pub links : Dict Text Wire
  pub endpoints : Dict Addr Wire

-- `127.127.0.0`
abbrev pub virtual_base : Addr
virtual_base = 2_139_029_504

-- The endpoint of the connection with that number.
unfoldable pub endpoint_of : ℕ → Addr
endpoint_of n = virtual_base + n % 2 ^ 16

-- `relay.New` with `peerlink.New`: the counter is a `uint32`.
unfoldable pub new_wire : Paths → Text → Wire × Paths
unfolding endpoint_of
new_wire s key =
    let n = (s.counter + 1) % 2 ^ 32 in
    (record { peer_key = key; endpoint = endpoint_of n }, record s { counter = n })

-- `SetEndpoint`
unfoldable pub set_endpoint : Paths → Addr → Wire → Paths
set_endpoint s ep w = record s { endpoints = put s.endpoints ep w }

unfoldable pub wired : Paths → Text → Wire → Paths
wired s key w = record s {
  relay_conns = put s.relay_conns key w;
  relay_endpts = put s.relay_endpts key w.endpoint;
  links = put s.links key w;
}

-- `ensureRelayLink`
unfoldable pub ensure_relay_link : Paths → Text → Paths
unfolding new_wire set_endpoint wired
ensure_relay_link s key =
    let (w, s') = new_wire s key in
    if is_some (get s.relay_endpts key) && is_some (get s.links key)
    then s
    else set_endpoint (wired s' key w) w.endpoint w

-- The maps after a peer is removed; the bind keeps the endpoint.
unfoldable pub tear_down : Paths → Text → Paths
tear_down s key = record s {
  relay_conns = remove s.relay_conns key;
  relay_endpts = remove s.relay_endpts key;
  links = remove s.links key;
}

abbrev pub peer_of : Option Wire → Option Text
peer_of none = none
peer_of (some w) = some w.peer_key

-- `RelayBind.Send`: the peer to which the relay carries what is written to an endpoint.
unfoldable pub send_to : Paths → Addr → Option Text
send_to s ep = peer_of (get s.endpoints ep)
