-- ===== src/Management/Http/Groups.antt =====
-- The group handlers of management/internal/httpserver/server.go.
use blinex.Prelude.{
  ℕ, suc, ◌+◌, not, ◌&&◌, Option, none, some, List, [], ◌∷◌, ◌==◌, if◌then◌else◌, any, map,
}
use blinex.Prelude.Text.{Text, text_eq}
use blinex.Management.Domain.{Group, Peer, default_group_name}
use blinex.Management.Store.{
  Store, get_groups_by_account, get_peers_by_account, create_group, delete_group,
}
use blinex.Management.Auth.{Claims}
use blinex.Management.Http.{Api, Env, Status, Reply, with_store, is_valid_group_name}

-- How often a name stands in a list.
unfoldable pub occurrences : Text → List Text → ℕ
occurrences g [] = 0
occurrences g (h ∷ hs) = let rest = occurrences g hs in if h == g then suc rest else rest

-- The count of a group's name over the peers of the account.
unfoldable pub peer_count : Text → List Peer → ℕ
unfolding occurrences
peer_count g [] = 0
peer_count g (p ∷ ps) = occurrences g p.groups + peer_count g ps

-- `listGroups`
unfoldable pub list_groups : Api → Claims → Reply × Api
unfolding peer_count
list_groups a c =
    let peers = get_peers_by_account a.server.store c.account_id in
    (
      Reply.group_list (
          map (λ g. (g, peer_count g.name peers))
            (get_groups_by_account a.server.store c.account_id)),
      a,
    )

-- `createGroup`, with the name of the body.
unfoldable pub create_group_handler : Api → Env → Claims → Option Text → Reply × Api
create_group_handler a e c none = (Reply.error Status.bad_request, a)
create_group_handler a e c (some name) =
    let g : Group = record {
      id = e.id;
      account_id = c.account_id;
      name = name;
      created_at = e.now;
    } in
    if not (is_valid_group_name name)
    then (Reply.error Status.bad_request, a)
    else if any (λ old. old.name == name) (get_groups_by_account a.server.store c.account_id)
    then (Reply.error Status.conflict, a)
    else (Reply.one_group g, with_store a (create_group a.server.store g))

-- The answer to a deletion in the store, `none` being its error.
unfoldable pub after_delete : Api → Option Store → Reply × Api
after_delete a none = (Reply.error Status.not_found, a)
after_delete a (some st) = (Reply.no_content, with_store a st)

-- `deleteGroup`
unfoldable pub delete_group_handler : Api → Claims → Text → Reply × Api
unfolding after_delete
delete_group_handler a c id =
    if any (λ g. g.id == id && g.name == default_group_name)
      (get_groups_by_account a.server.store c.account_id)
    then (Reply.error Status.bad_request, a)
    else after_delete a (delete_group a.server.store c.account_id id)
