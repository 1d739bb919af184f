-- ===== src/Management/Login.antt =====
-- management/internal/grpcserver/server.go: enrolment (`Login`), the update of a peer's own facts
-- (`UpdatePeerMeta`), and the marks that make open streams send again. The store is the one in
-- memory. The country lookup, which runs on its own, the serial number and the network's fixed
-- range in the answer are left out, and the token is a parameter: what `IssueToken` makes of the
-- peer's id, key and account.
pub mod Enrolment
pub mod OneUse
use blinex.Prelude.{
  ℕ, Bool, true, false, not, ◌&&◌, ◌||◌, Option, none, some, List, [], ◌∷◌, ◌++◌, map, ltb, ◌==◌,
  if◌then◌else◌, keep,
}
use blinex.Prelude.Text.{Text, text, text_eq}
use blinex.Prelude.Dict.{Dict, get, put, remove}
use blinex.Management.Domain.{SetupKey, Peer, default_group_name, to_dns_label}
use blinex.Management.Ipam.{Ipam, allocate}
use blinex.Management.RateLimit.{RateLimiter, allow}
use blinex.Management.Store.{Store, get_setup_key, increment_setup_key_usage, get_peer, save_peer}

-- `syncSub`: `ch` is the identity of its channel, and `marked` a value in it; it holds one.
pub record SyncSub : Type 0 where
  pub account_id : Text
  pub ch : ℕ
  pub marked : Bool

pub record Server : Type 0 where
  pub store : Store
  pub ipam : Ipam
  pub login_limits : RateLimiter
  pub subs : Dict Text SyncSub

pub record PeerMeta : Type 0 where
  pub hostname : Text
  pub os : Text
  pub kernel : Text
  pub core_version : Text
  pub local_ip : Text

pub data Code : Type 0 where
  resource_exhausted invalid_argument unauthenticated permission_denied not_found : Code

pub data Result {ℓ} (A : Type ℓ) : Type ℓ where
  fail : Code → Result A
  done : A → Result A

pub record LoginResponse : Type 0 where
  pub peer_id : Text
  pub token : Text
  pub address : Text

-- What a call reads of its surroundings: the caller's address, the time, and the UUIDs it draws.
pub record Call : Type 0 where
  pub source_ip : Text
  pub now : ℕ
  pub new_id : Text
  pub random : Text

abbrev pub no_meta : PeerMeta
no_meta = record { hostname = []; os = []; kernel = []; core_version = []; local_ip = [] }

-- `notifyAll`
unfoldable pub notify_all : Dict Text SyncSub → Text → Dict Text SyncSub
notify_all [] account = []
notify_all ((k, sub) ∷ subs) account =
    (k, if not (sub.account_id == account) then sub else record sub { marked = true })
    ∷ notify_all subs account

-- The groups of a first enrolment.
unfoldable pub first_groups : SetupKey → List Text
first_groups sk = default_group_name ∷ keep (λ g. not (g == default_group_name)) sk.auto_groups

-- The record of a peer that enrols for the first time.
unfoldable pub new_peer : Call → SetupKey → Text → Text → PeerMeta → Peer
unfolding first_groups
new_peer c sk key ip meta = record {
  id = c.new_id;
  account_id = sk.account_id;
  wg_pub_key = key;
  ip = ip;
  local_ip = meta.local_ip;
  public_ip = c.source_ip;
  country = [];
  hostname = meta.hostname;
  os = meta.os;
  kernel = meta.kernel;
  version = meta.core_version;
  dns_label = to_dns_label c.random meta.hostname;
  groups = first_groups sk;
  allowed_ips = (ip ++ text "/32") ∷ [];
  advertised_routes = [];
  exit_node = [];
  connected = false;
  last_seen = c.now;
  created_at = c.now;
}

-- What a re-enrolment takes over from the record that exists.
unfoldable pub preserved : Peer → Peer → Peer
preserved peer existing = record peer {
  id = existing.id;
  created_at = existing.created_at;
  groups = existing.groups;
  advertised_routes = existing.advertised_routes;
  hostname = existing.hostname;
  dns_label = existing.dns_label;
}

-- The peer that is saved, or the refusal of a key of another account.
unfoldable pub merged : SetupKey → Peer → Option Peer → Option Peer
unfolding preserved
merged sk peer none = some peer
merged sk peer (some existing) =
    if not (existing.account_id == sk.account_id) then none else some (preserved peer existing)

module _ (issue_token : Text → Text → Text → Text) where
  unfoldable pub finish : Server → SetupKey → Option Peer → Text → Result LoginResponse × Server
  finish s sk none ip = (fail Code.permission_denied, s)
  finish s sk (some peer) ip = (
    done (record {
      peer_id = peer.id;
      token = issue_token peer.id peer.wg_pub_key peer.account_id;
      address = ip ++ text "/32";
    }),
    record s {
      store = increment_setup_key_usage (save_peer s.store peer) sk.id;
      subs = notify_all s.subs peer.account_id;
    },
  )

  unfoldable pub enrol :
      Server → Call → SetupKey → Text → PeerMeta → Option Text → Result LoginResponse × Server
  unfolding finish
  enrol s c sk key meta none = (fail Code.resource_exhausted, s)
  enrol s c sk key meta (some ip) =
      finish s sk (merged sk (new_peer c sk key ip meta) (get_peer s.store key)) ip

  -- From the read of the setup key on. `Login` holds no lock across this: logins that overlap with it
  -- are Management/Login/OneUse's subject.
  unfoldable pub with_key :
      Server → Call → Text → PeerMeta → Option SetupKey → Result LoginResponse × Server
  unfolding enrol
  with_key s c key meta none = (fail Code.unauthenticated, s)
  with_key s c key meta (some sk) =
      let (ip, ipam) = allocate s.ipam key in
      if sk.ephemeral && ltb 0 sk.used_count
      then (fail Code.unauthenticated, s)
      else enrol (record s { ipam = ipam }) c sk key meta ip

  -- `Login`, with no other call in between; a request without meta data has `no_meta`.
  unfoldable pub login : Server → Call → Text → Text → PeerMeta → Result LoginResponse × Server
  unfolding with_key
  login s c setup_key key meta =
      let (ok, limits) = allow s.login_limits c.source_ip c.now in
      let s' = record s { login_limits = limits } in
      if not ok
      then (fail Code.resource_exhausted, s')
      else if setup_key == [] || key == []
      then (fail Code.invalid_argument, s')
      else with_key s' c key meta (get_setup_key s'.store setup_key c.now)

-- The check of the caller's token against the key in the request; `none` is a call with no claims.
abbrev pub speaks_for : Option Text → Text → Bool
speaks_for none key = true
speaks_for (some claimed) key = claimed == key

unfoldable pub updated : Peer → Call → Option PeerMeta → Peer
updated p c none = record p { last_seen = c.now }
updated p c (some meta) = record p {
  hostname = meta.hostname;
  os = meta.os;
  kernel = meta.kernel;
  version = meta.core_version;
  dns_label = to_dns_label c.random meta.hostname;
  local_ip = if not (meta.local_ip == []) then meta.local_ip else p.local_ip;
  last_seen = c.now;
}

unfoldable pub saved : Server → Call → Option PeerMeta → Option Peer → Option Code × Server
unfolding updated
saved s c meta none = (some Code.not_found, s)
saved s c meta (some p) = (none, record s { store = save_peer s.store (updated p c meta) })

-- `UpdatePeerMeta`; `none` is success.
unfoldable pub update_peer_meta :
    Server → Call → Option Text → Text → Option PeerMeta → Option Code × Server
unfolding saved
update_peer_meta s c claims key meta =
    if key == []
    then (some Code.invalid_argument, s)
    else if not (speaks_for claims key)
    then (some Code.permission_denied, s)
    else saved s c meta (get_peer s.store key)
