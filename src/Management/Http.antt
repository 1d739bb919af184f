-- ===== src/Management/Http.antt =====
-- management/internal/httpserver/server.go: the HTTP API. A request is its path's parameters with
-- its body, `none` for a body that gin's binder refuses, also because a required field is missing or
-- empty. The memory store is behind it, and `notify`, `connected` and `releaseIP` are the methods of
-- the gRPC server that main.go passes. The listener, CORS and the logs are left out.
pub mod Peers
pub mod Groups
pub mod Keys
pub mod Rules
pub mod Admin
pub mod Dispatch
pub mod Isolation
pub mod Access
pub mod RouteConflicts
pub mod Deletion
pub mod ExitChoice
pub mod Sound
use blinex.Prelude.{
  ℕ, Bool, true, false, not, ◌&&◌, ◌||◌, Option, none, some, List, [], ◌∷◌, ◌++◌, leb, ltb, ◌==◌,
  if◌then◌else◌, length, any, all, nat_eq,
}
use blinex.Prelude.Text.{Text, text, text_eq, trim, is_space, split}
use blinex.Prelude.Dict.{Dict}
use blinex.Management.Domain.{SetupKey, Group, Peer, Rule, is_label_byte, default_group_name}
use blinex.Management.Store.{Store}
use blinex.Management.Login.{Server, notify_all}
use blinex.Management.Auth.{Manager}

-- The servers of main.go: the gRPC server with its store, the tokens, and `loginAttempts`.
pub record Api : Type 0 where
  pub server : Server
  pub auth : Manager
  pub attempts : Dict Text ℕ

-- What a request reads of its surroundings: the time, and the UUIDs it draws.
pub record Env : Type 0 where
  pub now : ℕ
  pub id : Text
  pub secret : Text
  pub random : Text

pub data Status : Type 0 where
  bad_request unauthorized forbidden not_found conflict too_many : Status

pub data Reply : Type 0 where
  error : Status → Reply
  no_content : Reply
  health : Reply
  token : Text → Reply
  peer_list : List Peer → Reply
  one_peer : Peer → Reply
  group_list : List (Group × ℕ) → Reply
  one_group : Group → Reply
  key_list : List SetupKey → Reply
  one_key : SetupKey → Reply
  rule_list : List Rule → Reply
  one_rule : Rule → Reply

abbrev pub with_store : Api → Store → Api
with_store a st = record a { server = record a.server { store = st } }

-- `s.notify(account)`
abbrev pub notified : Api → Text → Api
notified a account = record a {
  server = record a.server { subs = notify_all a.server.subs account };
}

abbrev is_upper : ℕ → Bool
is_upper c = leb b'A' c && leb c b'Z'

abbrev is_alnum : ℕ → Bool
is_alnum c = (leb b'a' c && leb c b'z') || (leb b'0' c && leb c b'9') || is_upper c

abbrev is_name_byte : ℕ → Bool
is_name_byte c = is_alnum c || c == b'_' || c == b'-'

-- `^[A-Za-z0-9][A-Za-z0-9_-]*$`
matches_name : Text → Bool
matches_name [] = false
matches_name (c ∷ s) = is_alnum c && all is_name_byte s

-- `isValidGroupName`
unfoldable pub is_valid_group_name : Text → Bool
unfolding matches_name
is_valid_group_name g = ltb 0 (length g) && leb (length g) 64 && matches_name g

-- `ensureDefaultGroup`
unfoldable pub ensure_default_group : List Text → List Text
ensure_default_group groups =
    if any (λ g. g == default_group_name) groups then groups else default_group_name ∷ groups

trimmed_parts : List Text → List Text
trimmed_parts [] = []
trimmed_parts (o ∷ os) =
    if trim is_space o == [] then trimmed_parts os else trim is_space o ∷ trimmed_parts os

-- `parseOrigins`
unfoldable pub parse_origins : Text → List Text
unfolding trimmed_parts
parse_origins raw =
    if raw == []
    then text "http://localhost:3000" ∷ text "https://localhost:3000" ∷ []
    else trimmed_parts (split b',' raw)
