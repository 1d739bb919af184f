-- ===== src/Management/Http/Keys.antt =====
-- The setup key handlers of management/internal/httpserver/server.go.
use blinex.Prelude.{
  ℕ, zero, suc, ℤ, ◌+◌, ◌*◌, ltb, Bool, not, Option, none, some, List, if◌then◌else◌, all,
}
use blinex.Prelude.Text.{Text}
use blinex.Management.Domain.{SetupKey}
use blinex.Management.Store.{get_setup_keys_by_account, create_setup_key, delete_setup_key}
use blinex.Management.Auth.{Claims}
use blinex.Management.Http.{Api, Env, Status, Reply, with_store, is_valid_group_name}
use blinex.Management.Http.Groups.{after_delete}

-- `listSetupKeys`
unfoldable pub list_setup_keys : Api → Claims → Reply × Api
list_setup_keys a c = (Reply.key_list (get_setup_keys_by_account a.server.store c.account_id), a)

pub record KeyBody : Type 0 where
  pub name : Text
  pub ephemeral : Bool
  pub expires_in : ℤ
  pub auto_groups : List Text

-- The days a key is valid.
unfoldable pub days_of : ℤ → ℕ
days_of (ℤ.negsuc n) = 365
days_of (ℤ.pos zero) = 365
days_of (ℤ.pos (suc n)) = if ltb 365 (suc n) then 365 else suc n

abbrev pub day : ℕ
day = 24 * 3_600_000_000_000

-- The record of a new setup key.
unfoldable pub new_setup_key : Env → Claims → KeyBody → SetupKey
unfolding days_of
new_setup_key e c body = record {
  id = e.id;
  account_id = c.account_id;
  key = e.secret;
  name = body.name;
  ephemeral = body.ephemeral;
  used_count = 0;
  auto_groups = body.auto_groups;
  created_at = e.now;
  expires_at = e.now + days_of body.expires_in * day;
}

-- `createSetupKey`, with one reading of the clock.
unfoldable pub create_setup_key_handler : Api → Env → Claims → Option KeyBody → Reply × Api
unfolding new_setup_key
create_setup_key_handler a e c none = (Reply.error Status.bad_request, a)
create_setup_key_handler a e c (some body) =
    if not (all is_valid_group_name body.auto_groups)
    then (Reply.error Status.bad_request, a)
    else (
      Reply.one_key (new_setup_key e c body),
      with_store a (create_setup_key a.server.store (new_setup_key e c body)),
    )

-- `deleteSetupKey`
unfoldable pub delete_setup_key_handler : Api → Claims → Text → Reply × Api
unfolding after_delete
delete_setup_key_handler a c id = after_delete a (delete_setup_key a.server.store c.account_id id)
