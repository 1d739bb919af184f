-- ===== src/Management/Http/Isolation.antt =====
-- management/internal/httpserver/server.go: what a handler leaves of the accounts that its claims do
-- not name.
pub mod PeerRoutes
pub mod OtherRoutes
use blinex.Prelude.{
  ℕ, ◌≡◌, ◌≢◌, ◌↔◌, refl, inl, inr, true, false, none, some, arith, ◌==◌, Bool-cases, List, [], ◌∷◌,
  if◌then◌else◌, Option, ◌∙◌,
}
use blinex.Prelude.Text.{Text, text_eq, text_beq_iff}
use blinex.Prelude.Dict.{Dict, get, put, remove, Distinct}
use blinex.Management.Domain.{SetupKey, Group, Peer, Rule}
use blinex.Management.Store.{Store}
use blinex.Management.Store.Frame.{Frame, Frame-refl, Frame-trans, Keyed}
use blinex.Management.Login.{Server, SyncSub, notify_all}
use blinex.Management.Http.{Api, Env, with_store, notified}

-- Peers and rules stand under their own keys, and no map has a key twice.
pub record Consistent (st : Store) : Type 0 where
  pub peers_keyed : Keyed (λ (p : Peer). p.wg_pub_key) st.peers
  pub rules_keyed : Keyed (λ (r : Rule). r.id) st.rules
  pub rules_distinct : Distinct st.rules
  pub keys_distinct : Distinct st.setup_keys

-- The UUIDs that a request draws are not in use.
pub record Fresh (e : Env) (st : Store) : Type 0 where
  pub group : get st.groups e.id ≡ none
  pub rule : get st.rules e.id ≡ none
  pub setup_key : get st.setup_keys e.secret ≡ none

-- What is not the account's is the same: its peers, groups, setup keys, rules and streams.
pub record Isolated (account : Text) (s s' : Server) : Type 0 where
  pub accounts : s'.store.accounts ≡ s.store.accounts
  pub peers : Frame (λ (p : Peer). p.account_id) account s.store.peers s'.store.peers
  pub groups : Frame (λ (g : Group). g.account_id) account s.store.groups s'.store.groups
  pub keys : Frame (λ (k : SetupKey). k.account_id) account s.store.setup_keys s'.store.setup_keys
  pub rules : Frame (λ (r : Rule). r.account_id) account s.store.rules s'.store.rules
  pub streams : Frame (λ (x : SyncSub). x.account_id) account s.subs s'.subs

-- A step that changes only the account, and leaves a consistent store.
pub record Safe (account : Text) (a b : Api) : Type 0 where
  pub isolated : Isolated account a.server b.server
  pub consistent : Consistent b.server.store

module _ (account : Text) (s : Server) where
  same_peers : Frame (λ (x : Peer). x.account_id) account s.store.peers s.store.peers
  same_peers = Frame-refl (λ (x : Peer). x.account_id) account s.store.peers

  same_groups : Frame (λ (x : Group). x.account_id) account s.store.groups s.store.groups
  same_groups = Frame-refl (λ (x : Group). x.account_id) account s.store.groups

  same_keys : Frame (λ (x : SetupKey). x.account_id) account s.store.setup_keys s.store.setup_keys
  same_keys = Frame-refl (λ (x : SetupKey). x.account_id) account s.store.setup_keys

  same_rules : Frame (λ (x : Rule). x.account_id) account s.store.rules s.store.rules
  same_rules = Frame-refl (λ (x : Rule). x.account_id) account s.store.rules

  same_streams : Frame (λ (x : SyncSub). x.account_id) account s.subs s.subs
  same_streams = Frame-refl (λ (x : SyncSub). x.account_id) account s.subs

pub Isolated-refl : (account : Text) (s : Server) → Isolated account s s
Isolated-refl account s = record {
  accounts = refl;
  peers = same_peers account s;
  groups = same_groups account s;
  keys = same_keys account s;
  rules = same_rules account s;
  streams = same_streams account s;
}

pub Safe-refl : (account : Text) (a : Api) → Consistent a.server.store → Safe account a a
Safe-refl account a k = record { isolated = Isolated-refl account a.server; consistent = k }

pub Safe-trans :
    (account : Text) (a b c : Api) → Safe account a b → Safe account b c → Safe account a c
Safe-trans account a b c s t = record {
  isolated = record {
    accounts = t.isolated.accounts ∙ s.isolated.accounts;
    peers =
        Frame-trans (λ (p : Peer). p.account_id) account a.server.store.peers b.server.store.peers
          c.server.store.peers s.isolated.peers t.isolated.peers;
    groups =
        Frame-trans (λ (g : Group). g.account_id) account a.server.store.groups
          b.server.store.groups c.server.store.groups s.isolated.groups t.isolated.groups;
    keys =
        Frame-trans (λ (k : SetupKey). k.account_id) account a.server.store.setup_keys
          b.server.store.setup_keys c.server.store.setup_keys s.isolated.keys t.isolated.keys;
    rules =
        Frame-trans (λ (r : Rule). r.account_id) account a.server.store.rules b.server.store.rules
          c.server.store.rules s.isolated.rules t.isolated.rules;
    streams =
        Frame-trans (λ (x : SyncSub). x.account_id) account a.server.subs b.server.subs
          c.server.subs s.isolated.streams t.isolated.streams;
  };
  consistent = t.consistent;
}

Frame-notify_all :
    (account : Text) (m : Dict Text SyncSub)
    → Frame (λ (x : SyncSub). x.account_id) account m (notify_all m account)
unfolding get notify_all
Frame-notify_all account [] j w ne = (λ x. x, λ x. x)
Frame-notify_all account ((k, sub) ∷ m) j w ne =
    let rest = Frame-notify_all account m j w ne in
    elim (Bool-cases (k == j)) [
      | inl y ↦ elim (Bool-cases (sub.account_id == account)) [
        | inl z ↦
            let same : sub.account_id ≡ account = (text_beq_iff sub.account_id account).0 z in
            rw (y, z)
              (
                λ x. absurd (ne (let f : sub ≡ w = cc x in rw (← f) same)),
                λ x. absurd (ne (let f : record sub { marked = true } ≡ w = cc x in rw (← f) same)),
              )
        | inr n ↦ rw (y, n) (λ x. x, λ x. x)
      ]
      | inr n ↦ rw n rest
    ]

pub Safe-notified :
    (account : Text) (a : Api) → Consistent a.server.store → Safe account a (notified a account)
Safe-notified account a k = record {
  isolated = record {
    accounts = refl;
    peers = same_peers account a.server;
    groups = same_groups account a.server;
    keys = same_keys account a.server;
    rules = same_rules account a.server;
    streams = Frame-notify_all account a.server.subs;
  };
  consistent = record {
    peers_keyed = k.peers_keyed;
    rules_keyed = k.rules_keyed;
    rules_distinct = k.rules_distinct;
    keys_distinct = k.keys_distinct;
  };
}

pub Safe-peers :
    (account : Text) (a : Api) (m : Dict Text Peer)
    → Consistent a.server.store
    → Frame (λ (p : Peer). p.account_id) account a.server.store.peers m
    → Keyed (λ (p : Peer). p.wg_pub_key) m
    → Safe account a (with_store a (record a.server.store { peers = m }))
Safe-peers account a m k f keyed = record {
  isolated = record {
    accounts = refl;
    peers = f;
    groups = same_groups account a.server;
    keys = same_keys account a.server;
    rules = same_rules account a.server;
    streams = same_streams account a.server;
  };
  consistent = record {
    peers_keyed = keyed;
    rules_keyed = k.rules_keyed;
    rules_distinct = k.rules_distinct;
    keys_distinct = k.keys_distinct;
  };
}

pub Safe-groups :
    (account : Text) (a : Api) (m : Dict Text Group)
    → Consistent a.server.store
    → Frame (λ (g : Group). g.account_id) account a.server.store.groups m
    → Safe account a (with_store a (record a.server.store { groups = m }))
Safe-groups account a m k f = record {
  isolated = record {
    accounts = refl;
    peers = same_peers account a.server;
    groups = f;
    keys = same_keys account a.server;
    rules = same_rules account a.server;
    streams = same_streams account a.server;
  };
  consistent = record {
    peers_keyed = k.peers_keyed;
    rules_keyed = k.rules_keyed;
    rules_distinct = k.rules_distinct;
    keys_distinct = k.keys_distinct;
  };
}

pub Safe-keys :
    (account : Text) (a : Api) (m : Dict Text SetupKey)
    → Consistent a.server.store
    → Frame (λ (g : SetupKey). g.account_id) account a.server.store.setup_keys m
    → Distinct m
    → Safe account a (with_store a (record a.server.store { setup_keys = m }))
Safe-keys account a m k f d = record {
  isolated = record {
    accounts = refl;
    peers = same_peers account a.server;
    groups = same_groups account a.server;
    keys = f;
    rules = same_rules account a.server;
    streams = same_streams account a.server;
  };
  consistent = record {
    peers_keyed = k.peers_keyed;
    rules_keyed = k.rules_keyed;
    rules_distinct = k.rules_distinct;
    keys_distinct = d;
  };
}

pub Safe-rules :
    (account : Text) (a : Api) (m : Dict Text Rule)
    → Consistent a.server.store
    → Frame (λ (r : Rule). r.account_id) account a.server.store.rules m
    → Keyed (λ (r : Rule). r.id) m
    → Distinct m
    → Safe account a (with_store a (record a.server.store { rules = m }))
Safe-rules account a m k f keyed d = record {
  isolated = record {
    accounts = refl;
    peers = same_peers account a.server;
    groups = same_groups account a.server;
    keys = same_keys account a.server;
    rules = f;
    streams = same_streams account a.server;
  };
  consistent = record {
    peers_keyed = k.peers_keyed;
    rules_keyed = keyed;
    rules_distinct = d;
    keys_distinct = k.keys_distinct;
  };
}
