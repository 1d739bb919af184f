-- ===== src/Management/Store.antt =====
-- management/internal/store/memory/store.go: the store of the control plane, a map for each kind of
-- record. An error carries no more than its being one. A loop over a map meets the entries in the
-- order in which they stand here; Go's order is any.
pub mod Order
pub mod Frame
use blinex.Prelude.{
  ℕ, ◌+◌, ◌*◌, true, false, ◌&&◌, not, Option, none, some, List, [], ◌∷◌, ◌++◌, ltb, leb, ◌==◌,
  nat_eq, if◌then◌else◌, keep,
}
use blinex.Prelude.Text.{Text, text, text_eq}
use blinex.Prelude.Dict.{Dict, get, put, remove}
use blinex.Management.Domain.{Account, SetupKey, Group, Peer, Rule, default_group_name}

pub record Store : Type 0 where
  pub accounts : Dict Text Account
  pub setup_keys : Dict Text SetupKey
  pub groups : Dict Text Group
  pub peers : Dict Text Peer
  pub rules : Dict Text Rule

-- The values of a map, in its order.
unfoldable pub values {ℓ} : {V : Type ℓ} → Dict Text V → List V
values [] = []
values ((k, v) ∷ m) = v ∷ values m

abbrev default_account : Text
default_account = text "default"

-- `New`: `key_id` is the new UUID of the seed key.
unfoldable pub new : Text → Text → ℕ → Store
new seed_key key_id now = record {
  accounts =
      (default_account, record { id = default_account; name = text "Default"; created_at = now })
      ∷ [];
  setup_keys =
      (
        seed_key,
        record {
          id = key_id;
          account_id = default_account;
          key = seed_key;
          name = text "Default key";
          ephemeral = false;
          used_count = 0;
          auto_groups = [];
          created_at = now;
          expires_at = now + 365 * 24 * 3_600_000_000_000;
        },
      )
      ∷ [];
  groups =
      (
        default_account ++ text "-default",
        record {
          id = default_account ++ text "-default";
          account_id = default_account;
          name = default_group_name;
          created_at = now;
        },
      )
      ∷ [];
  peers = [];
  rules =
      (
        default_account ++ text "-default-allow",
        record {
          id = default_account ++ text "-default-allow";
          account_id = default_account;
          name = text "Default allow";
          src = text "group:" ++ default_group_name;
          dst = text "group:" ++ default_group_name;
          protocol = text "all";
          port = 0;
          action = text "allow";
          enabled = true;
          priority = 1000;
          created_at = now;
        },
      )
      ∷ [];
}

created : Store → Text → ℕ → Option Account → Account × Store
created s id now (some a) = (a, s)
created s id now none =
    let a : Account = record { id = id; name = id; created_at = now } in
    (a, record s { accounts = put s.accounts id a })

-- `GetOrCreateAccount`
unfoldable pub get_or_create_account : Store → Text → ℕ → Account × Store
unfolding created
get_or_create_account s id now = created s id now (get s.accounts id)

-- The key if it has not expired.
unexpired : Option SetupKey → ℕ → Option SetupKey
unexpired none now = none
unexpired (some sk) now = if ltb sk.expires_at now then none else some sk

-- `GetSetupKey`
unfoldable pub get_setup_key : Store → Text → ℕ → Option SetupKey
unfolding unexpired
get_setup_key s key now = unexpired (get s.setup_keys key) now

-- `CreateSetupKey`
unfoldable pub create_setup_key : Store → SetupKey → Store
create_setup_key s sk = record s { setup_keys = put s.setup_keys sk.key sk }

-- `GetSetupKeysByAccount`
unfoldable pub get_setup_keys_by_account : Store → Text → List SetupKey
get_setup_keys_by_account s account = keep (λ sk. sk.account_id == account) (values s.setup_keys)

-- The key under which the account's setup key of that id stands.
unfoldable pub key_named : Dict Text SetupKey → Text → Text → Option Text
key_named [] account id = none
key_named ((k, sk) ∷ m) account id =
    if sk.id == id && sk.account_id == account then some k else key_named m account id

unfoldable pub without_key : Store → Option Text → Option Store
without_key s none = none
without_key s (some k) = some (record s { setup_keys = remove s.setup_keys k })

-- `DeleteSetupKey`
unfoldable pub delete_setup_key : Store → Text → Text → Option Store
unfolding key_named without_key
delete_setup_key s account id = without_key s (key_named s.setup_keys account id)

-- The loop of `IncrementSetupKeyUsage`: the first key of that id counts one use more.
unfoldable pub count_use : Dict Text SetupKey → Text → Dict Text SetupKey
count_use [] id = []
count_use ((k, sk) ∷ m) id =
    if sk.id == id
    then (k, record sk { used_count = sk.used_count + 1 }) ∷ m
    else (k, sk) ∷ count_use m id

-- `IncrementSetupKeyUsage`: a missing id changes nothing, and the caller only logs its error.
unfoldable pub increment_setup_key_usage : Store → Text → Store
increment_setup_key_usage s id = record s { setup_keys = count_use s.setup_keys id }

-- `sort.SliceStable` by a number: an element goes before those that are not less.
unfoldable insert_by {ℓ} : {A : Type ℓ} → (A → ℕ) → A → List A → List A
insert_by f a [] = a ∷ []
insert_by f a (b ∷ l) = if leb (f a) (f b) then a ∷ b ∷ l else b ∷ insert_by f a l

unfoldable sort_by {ℓ} : {A : Type ℓ} → (A → ℕ) → List A → List A
unfolding insert_by
sort_by f [] = []
sort_by f (a ∷ l) = insert_by f a (sort_by f l)

-- `GetGroupsByAccount`
unfoldable pub get_groups_by_account : Store → Text → List Group
unfolding sort_by
get_groups_by_account s account =
    sort_by (λ g. g.created_at) (keep (λ g. g.account_id == account) (values s.groups))

-- `CreateGroup`
unfoldable pub create_group : Store → Group → Store
create_group s g = record s { groups = put s.groups g.id g }

unfoldable pub without_group : Store → Text → Text → Option Group → Option Store
without_group s account id none = none
without_group s account id (some g) =
    if not (g.account_id == account) then none else some (record s { groups = remove s.groups id })

-- `DeleteGroup`
unfoldable pub delete_group : Store → Text → Text → Option Store
unfolding without_group
delete_group s account id = without_group s account id (get s.groups id)

-- `GetPeer`
unfoldable pub get_peer : Store → Text → Option Peer
get_peer s key = get s.peers key

-- `GetPeersByAccount`
unfoldable pub get_peers_by_account : Store → Text → List Peer
get_peers_by_account s account = keep (λ p. p.account_id == account) (values s.peers)

-- `GetAllPeers`
unfoldable pub get_all_peers : Store → List Peer
get_all_peers s = values s.peers

-- `SavePeer`
unfoldable pub save_peer : Store → Peer → Store
save_peer s p = record s { peers = put s.peers p.wg_pub_key p }

-- `DeletePeer`
unfoldable pub delete_peer : Store → Text → Store
delete_peer s key = record s { peers = remove s.peers key }

-- `GetRulesByAccount`
unfoldable pub get_rules_by_account : Store → Text → List Rule
unfolding sort_by
get_rules_by_account s account =
    sort_by (λ r. r.priority) (keep (λ r. r.account_id == account) (values s.rules))

-- `SaveRule`
unfoldable pub save_rule : Store → Rule → Store
save_rule s r = record s { rules = put s.rules r.id r }

unfoldable pub without_rule : Store → Text → Text → Option Rule → Option Store
without_rule s account id none = none
without_rule s account id (some r) =
    if not (r.account_id == account) then none else some (record s { rules = remove s.rules id })

-- `DeleteRule`
unfoldable pub delete_rule : Store → Text → Text → Option Store
unfolding without_rule
delete_rule s account id = without_rule s account id (get s.rules id)
