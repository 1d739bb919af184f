-- ===== src/Management/Streams.antt =====
-- management/internal/grpcserver/server.go: the open streams of `Sync`. A stream is its channel's
-- number. The answers are sent in steps: when a stream is opened, and when its channel has a value.
-- The look-up of the country, which runs on its own, is left out.
pub mod Reconnect
pub mod Freshness
use blinex.Prelude.{
  ℕ, Bool, true, false, not, ◌&&◌, ◌||◌, Option, none, some, List, [], ◌∷◌, ◌==◌, nat_eq,
  if◌then◌else◌, is_some,
}
use blinex.Prelude.Text.{Text, text, text_eq}
use blinex.Prelude.Dict.{Dict, get, put, remove}
use blinex.Management.Domain.{Peer}
use blinex.Management.Ipam.{release}
use blinex.Management.Store.{Store, get_peer, save_peer, get_peers_by_account, get_rules_by_account}
use blinex.Management.Login.{Server, SyncSub, Call, Code, Result, speaks_for, notify_all}
use blinex.Management.Sync.{SyncResponse, build_sync_response}

-- What the handler of an open stream keeps.
pub record Stream : Type 0 where
  pub key : Text
  pub account_id : Text
  pub peer_key : Text

-- `detached` are the channels of streams that the server's map does not name, with whether they hold
-- a value; `running` are the streams.
pub record Hub : Type 0 where
  pub server : Server
  pub running : Dict ℕ Stream
  pub detached : Dict ℕ Bool

-- The channel that leaves the map, if there is one.
unfoldable pub detach : Dict ℕ Bool → Option SyncSub → Dict ℕ Bool
detach d none = d
detach d (some sub) = put d sub.ch sub.marked

abbrev pub with_subs : Server → Dict Text SyncSub → Server
with_subs s subs = record s { subs = subs }

-- `registerSub`
unfoldable pub register_sub : Hub → Text → SyncSub → Hub
unfolding detach
register_sub h key sub = record h {
  server = with_subs h.server (put h.server.subs key sub);
  detached = detach h.detached (get h.server.subs key);
}

-- `unregisterSub`
unfoldable pub unregister_sub : Hub → Text → Hub
unfolding detach
unregister_sub h key = record h {
  server = with_subs h.server (remove h.server.subs key);
  detached = detach h.detached (get h.server.subs key);
}

-- `ConnectedKeys`
unfoldable pub is_connected : Server → Text → Bool
is_connected s key = is_some (get s.subs key)

unfoldable pub touched : Store → ℕ → Option Peer → Store
touched st now none = st
touched st now (some fresh) = save_peer st (record fresh { last_seen = now })

-- `touchLastSeen`
unfoldable pub touch_last_seen : Server → Text → ℕ → Server
unfolding touched
touch_last_seen s key now = record s { store = touched s.store now (get_peer s.store key) }

-- The new public address of the peer: the record in the store is the one that the handler has.
located : Store → Text → Option Peer → Store
located st ip none = st
located st ip (some peer) =
    if not (ip == []) && not (ip == text "unknown") && not (ip == peer.public_ip)
    then save_peer st (record peer { public_ip = ip })
    else st

unfoldable pub locate : Server → Text → Text → Server
unfolding located
locate s key ip = record s { store = located s.store ip (get_peer s.store key) }

-- `send`
unfoldable pub response_to : Text → Server → Stream → SyncResponse
response_to network s x =
    build_sync_response network (get_peers_by_account s.store x.account_id)
      (get_rules_by_account s.store x.account_id) x.key

module _ (network : Text) where
  unfoldable pub registered_peer : Hub → Call → Text → ℕ → Option Peer → Result SyncResponse × Hub
  unfolding register_sub touch_last_seen locate
  registered_peer h c key id none = (Result.fail Code.not_found, h)
  registered_peer h c key id (some peer) =
      let x : Stream = record {
        key = key;
        account_id = peer.account_id;
        peer_key = peer.wg_pub_key;
      } in
      let sub : SyncSub = record { account_id = peer.account_id; ch = id; marked = false } in
      let h' = register_sub h key sub in
      let s = locate (touch_last_seen h'.server peer.wg_pub_key c.now) key c.source_ip in
      (
        Result.done (response_to network s x),
        record h' { server = s; running = put h.running id x },
      )

  -- `Sync` up to its loop, with the first answer; `claims` is the key of the caller's token.
  unfoldable pub sync : Hub → Call → Option Text → Text → ℕ → Result SyncResponse × Hub
  unfolding registered_peer
  sync h c claims key id =
      if key == []
      then (Result.fail Code.invalid_argument, h)
      else if not (speaks_for claims key)
      then (Result.fail Code.permission_denied, h)
      else registered_peer h c key id (get_peer h.server.store key)

  -- The stream's channel in the map.
  unfoldable pub own_sub : ℕ → Option SyncSub → Option SyncSub
  own_sub id none = none
  own_sub id (some sub) = if sub.ch == id then some sub else none

  unfoldable pub pushed :
      Hub → ℕ → Stream → Option SyncSub → Option Bool → Option SyncResponse × Hub
  pushed h id x (some sub) d =
      if sub.marked
      then (
        some (response_to network h.server x),
        record h {
          server = with_subs h.server (put h.server.subs x.key (record sub { marked = false }));
        },
      )
      else (none, h)
  pushed h id x none none = (none, h)
  pushed h id x none (some marked) =
      if marked
      then (some (response_to network h.server x), record h { detached = put h.detached id false })
      else (none, h)

  unfoldable pub round : Hub → ℕ → Option Stream → Option SyncResponse × Hub
  unfolding pushed own_sub
  round h id none = (none, h)
  round h id (some x) = pushed h id x (own_sub id (get h.server.subs x.key)) (get h.detached id)

  -- A round of the loop of a stream: the answer that it sends, if its channel has a value.
  unfoldable pub sync_round : Hub → ℕ → Option SyncResponse × Hub
  unfolding round
  sync_round h id = round h id (get h.running id)

unfoldable pub ended : Hub → ℕ → ℕ → Option Stream → Hub
unfolding unregister_sub touch_last_seen
ended h id now none = h
ended h id now (some x) =
    let h' = unregister_sub h x.key in
    let s = touch_last_seen h'.server x.peer_key now in
    record h' {
      server = with_subs s (notify_all s.subs x.account_id);
      running = remove h.running id;
    }

-- The deferred calls, when the stream ends.
unfoldable pub sync_end : Hub → ℕ → ℕ → Hub
unfolding ended
sync_end h id now = ended h id now (get h.running id)

-- `NotifyAccount`
unfoldable pub notify_account : Hub → Text → Hub
notify_account h account = record h {
  server = with_subs h.server (notify_all h.server.subs account);
}

-- `ReleaseIP`
unfoldable pub release_ip : Hub → Text → Hub
release_ip h key = record h { server = record h.server { ipam = release h.server.ipam key } }
