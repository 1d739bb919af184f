-- ===== src/Peers.antt =====
-- client/internal/peer/manager.go: the peers an agent knows, and what a new list changes in them.
pub mod Diff
use blinex.Prelude.{
  ℕ, Bool, true, false, not, ◌&&◌, ◌||◌, Option, none, some, List, [], ◌∷◌, ◌++◌, ◌==◌,
  if◌then◌else◌, is_some,
}
use blinex.Prelude.Text.{Text, text_eq}
use blinex.Prelude.Dict.{Dict, get, put}
use blinex.Management.Sync.{PeerInfo}

-- `Manager`, a map by public key.
pub record Manager : Type 0 where
  pub peers : Dict Text PeerInfo

pub record Update : Type 0 where
  pub old : PeerInfo
  pub new : PeerInfo

-- What `Diff` returns.
pub record Changes : Type 0 where
  pub added : List PeerInfo
  pub updated : List Update
  pub removed : List PeerInfo

-- `New`
abbrev pub new_manager : Manager
new_manager = record { peers = [] }

-- `allowedIPsEqual`
unfoldable pub allowed_ips_equal : List Text → List Text → Bool
allowed_ips_equal [] [] = true
allowed_ips_equal (a ∷ xs) (b ∷ ys) = a == b && allowed_ips_equal xs ys
allowed_ips_equal _ _ = false

-- The map of the incoming peers: a later one of the same key replaces an earlier one.
unfoldable pub incoming_map : Dict Text PeerInfo → List PeerInfo → Dict Text PeerInfo
incoming_map m [] = m
incoming_map m (p ∷ ps) = incoming_map (put m p.wg_pub_key p) ps

-- The test that makes an update.
unfoldable pub differs : PeerInfo → PeerInfo → Bool
unfolding allowed_ips_equal
differs existing p =
    not (existing.ip == p.ip)
    || not (existing.hostname == p.hostname)
    || not (allowed_ips_equal existing.allowed_ips p.allowed_ips)

unfoldable pub added_to : Dict Text PeerInfo → List PeerInfo → List PeerInfo
added_to m [] = []
added_to m (p ∷ ps) = if is_some (get m p.wg_pub_key) then added_to m ps else p ∷ added_to m ps

update_of : PeerInfo → Option PeerInfo → List Update
unfolding differs
update_of p none = []
update_of p (some existing) =
    if differs existing p then record { old = existing; new = p } ∷ [] else []

unfoldable pub updated_in : Dict Text PeerInfo → List PeerInfo → List Update
unfolding update_of
updated_in m [] = []
updated_in m (p ∷ ps) = update_of p (get m p.wg_pub_key) ++ updated_in m ps

-- The entries of the first map whose key the second does not have.
unfoldable pub removed_from : Dict Text PeerInfo → Dict Text PeerInfo → List PeerInfo
removed_from new [] = []
removed_from new ((k, p) ∷ m) =
    if is_some (get new k) then removed_from new m else p ∷ removed_from new m

-- `Diff`
unfoldable pub diff : Manager → List PeerInfo → Changes × Manager
unfolding incoming_map added_to updated_in removed_from
diff m incoming =
    let new = incoming_map [] incoming in
    let changes : Changes = record {
      added = added_to m.peers incoming;
      updated = updated_in m.peers incoming;
      removed = removed_from new m.peers;
    } in
    (changes, record { peers = new })

-- `All`
unfoldable pub all_peers : Dict Text PeerInfo → List PeerInfo
all_peers [] = []
all_peers ((k, p) ∷ m) = p ∷ all_peers m
