-- ===== src/Management/Http/Sound.antt =====
-- management/internal/httpserver/server.go: the handlers keep every peer in the default group, and
-- every stored rule one that the API accepts.
pub mod PeerHandlers
pub mod Handlers
pub mod Reachable
use blinex.Prelude.{
  ℕ, ℤ, ◌≡◌, refl, inl, inr, true, false, not, none, some, arith, ◌==◌, Bool-cases, List, [], ◌∷◌,
  if◌then◌else◌, Option, Option-cases, Bool, find, any, all, ◌&&◌, ◌||◌, leb, nat_eq, ltb, length,
}
use blinex.Prelude.Text.{Text, text, text_eq, text_beq_iff, trim, is_space}
use blinex.Prelude.Dict.{Dict, get, put, remove, get-put, get-remove}
use blinex.Management.Domain.{Peer, Rule, Group, SetupKey, default_group_name, to_dns_label}
use blinex.Management.Store.{
  Store, values, get_peer, save_peer, delete_peer, create_group, delete_group, without_group,
  create_setup_key, delete_setup_key, without_key, key_named, save_rule, delete_rule, without_rule,
  get_rules_by_account,
}
use blinex.Management.Auth.{Claims, authenticate, is_admin}
use blinex.Management.Http.{
  Api, Env, Reply, Status, with_store, notified, ensure_default_group, is_valid_group_name,
}
use blinex.Management.Http.Peers.{
  PeerBody, list_peers, assigned, save_and_notify, renamed, regrouped, update_with, update_found,
  update_peer, deleted, delete_found, delete_peer_handler, exit_found, set_peer_exit_node,
  routes_found, set_peer_routes,
}
use blinex.Management.Http.Groups.{
  list_groups, create_group_handler, after_delete, delete_group_handler,
}
use blinex.Management.Http.Keys.{
  KeyBody, list_setup_keys, create_setup_key_handler, delete_setup_key_handler,
}
use blinex.Management.Http.Rules.{
  validate_rule_fields, port_ok, is_valid_action, list_rules, RuleBody, new_rule,
  save_rule_and_notify, create_rule, RulePatch, patched, patch_rule, update_found_rule, update_rule,
  rule_deleted, delete_rule_handler, or_old,
}
use blinex.Management.Http.Dispatch.{Route, needs_admin, handle, authorized, serve}
use blinex.Management.Store.Order.{Mem, get_rules_by_account-Ascending}
use blinex.Management.Http.Isolation.OtherRoutes.{find_Mem}

-- A predicate on all the values of a map, also on those that another hides.
abbrev pub Every {ℓ} : {V : Type ℓ} → (V → Type 0) → Dict Text V → Type 0
Every Q [] = Unit
Every Q ((k, v) ∷ m) = Q v × Every Q m

pub Every-get {ℓ} :
    {V : Type ℓ} (Q : V → Type 0) (m : Dict Text V) (k : Text) (v : V)
    → Every Q m
    → get m k ≡ some v
    → Q v
unfolding get
Every-get Q [] k v all h = absurd (cc h)
Every-get Q ((j, w) ∷ m) k v all h = elim (Bool-cases (j == k)) [
  | inl y ↦ let e : some w ≡ some v = ground arith in let f : w ≡ v = cc e in rw (← f) all.0
  | inr n ↦ Every-get Q m k v all.1 (ground arith)
]

pub Every-remove {ℓ} :
    {V : Type ℓ} (Q : V → Type 0) (m : Dict Text V) (k : Text) → Every Q m → Every Q (remove m k)
unfolding remove
Every-remove Q [] k all = tt
Every-remove Q ((j, w) ∷ m) k all = elim (Bool-cases (j == k)) [
  | inl y ↦ rw y (Every-remove Q m k all.1)
  | inr n ↦ rw n (all.0, Every-remove Q m k all.1)
]

pub Every-put {ℓ} :
    {V : Type ℓ} (Q : V → Type 0) (m : Dict Text V) (k : Text) (v : V)
    → Q v
    → Every Q m
    → Every Q (put m k v)
unfolding put
Every-put Q m k v q all = (q, Every-remove Q m k all)

pub Every-Mem :
    (Q : Rule → Type 0) (m : Dict Text Rule) (r : Rule) → Every Q m → Mem r (values m) → Q r
unfolding values
Every-Mem Q [] r all h = absurd h
Every-Mem Q ((k, v) ∷ m) r all (inl e) = rw (← e) all.0
Every-Mem Q ((k, v) ∷ m) r all (inr t) = Every-Mem Q m r all.1 t

-- The peer is in the default group.
abbrev pub InDefault : Peer → Type 0
InDefault p = any (λ g. g == default_group_name) p.groups ≡ true

module _ (ipv6 : Text → Bool) where
  -- The rule is one that the API accepts.
  abbrev pub ValidRule : Rule → Type 0
  ValidRule r =
      (is_valid_action r.action ≡ true)
      × (validate_rule_fields ipv6 r.src r.dst r.protocol (ℤ.pos r.port) ≡ true)

  pub record Sound (st : Store) : Type 0 where
    pub peers : Every InDefault st.peers
    pub rules : Every ValidRule st.rules

  pub ensure_default_group-InDefault :
      (p : Peer) (gs : List Text) → p.groups ≡ ensure_default_group gs → InDefault p
  unfolding ensure_default_group any
  ensure_default_group-InDefault p gs h =
      ground (arith, h, text_beq_iff default_group_name default_group_name)

  abbrev pub SoundApi : Api → Type 0
  SoundApi a = Sound a.server.store
