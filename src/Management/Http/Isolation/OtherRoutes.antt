-- ===== src/Management/Http/Isolation/OtherRoutes.antt =====
-- management/internal/httpserver/server.go: the handlers of groups, setup keys and rules change only
-- the account of the claims.
use blinex.Prelude.{
  ◌≡◌, refl, inl, inr, none, some, arith, ◌==◌, Bool-cases, List, [], ◌∷◌, Option, Bool, find,
}
use blinex.Prelude.Text.{Text, text_eq, text_beq_iff}
use blinex.Prelude.Dict.{get, put, remove, Distinct-put, Distinct-remove}
use blinex.Management.Domain.{SetupKey, Group, Rule}
use blinex.Management.Store.{
  Store, create_group, without_group, delete_group, create_setup_key, key_named, without_key,
  delete_setup_key, get_rules_by_account, save_rule, without_rule, delete_rule,
}
use blinex.Management.Store.Order.{Mem, get_rules_by_account-Ascending}
use blinex.Management.Store.Frame.{
  Frame-put, Frame-remove, Keyed-put, Keyed-remove, Own, Own-none, Own-some, get-Mem,
  key_named_found,
}
use blinex.Management.Auth.{Claims}
use blinex.Management.Http.{Api, Env, with_store, notified}
use blinex.Management.Http.Groups.{create_group_handler, after_delete, delete_group_handler}
use blinex.Management.Http.Keys.{
  KeyBody, create_setup_key_handler, delete_setup_key_handler, new_setup_key,
}
use blinex.Management.Http.Rules.{
  RuleBody, RulePatch, save_rule_and_notify, new_rule, create_rule, patched, patch_rule,
  update_found_rule, update_rule, rule_deleted, delete_rule_handler,
}
use blinex.Management.Http.Isolation.{
  Consistent, Fresh, Safe, Safe-refl, Safe-trans, Safe-groups, Safe-keys, Safe-rules, Safe-notified,
}

save_rule_safe :
    (a : Api) (c : Claims)
    → Consistent a.server.store
    → (r : Rule) → r.account_id ≡ c.account_id
    → Own (λ (x : Rule). x.account_id) c.account_id a.server.store.rules r.id
    → Safe c.account_id a (save_rule_and_notify a c r).1
unfolding save_rule_and_notify save_rule
save_rule_safe a c k r e own =
    let m = a.server.store.rules in
    let b = with_store a (record a.server.store { rules = put m r.id r }) in
    let s : Safe c.account_id a b =
      Safe-rules c.account_id a (put m r.id r) k
        (Frame-put (λ (x : Rule). x.account_id) c.account_id m r.id r e own)
        (Keyed-put (λ (x : Rule). x.id) m r r.id refl k.rules_keyed)
        (Distinct-put m r.id r k.rules_distinct) in
    Safe-trans c.account_id a b (notified b c.account_id) s
      (Safe-notified c.account_id b s.consistent)

pub find_Mem : {A : Type 0} (p : A → Bool) (l : List A) (x : A) → find p l ≡ some x → Mem x l
unfolding find
find_Mem p [] x h = absurd (cc h)
find_Mem p (y ∷ l) x h = elim (Bool-cases (p y)) [
  | inl t ↦ let e : some y ≡ some x = ground arith in inl (cc e)
  | inr n ↦ inr (find_Mem p l x (ground arith))
]

module _ (a : Api) (e : Env) (c : Claims) (k : Consistent a.server.store)
    (fresh : Fresh e a.server.store) where
  pub create_group_safe :
      (name : Option Text) → Safe c.account_id a (create_group_handler a e c name).1
  unfolding create_group_handler create_group
  create_group_safe none = Safe-refl c.account_id a k
  create_group_safe (some name) =
      let g : Group = record {
        id = e.id;
        account_id = c.account_id;
        name = name;
        created_at = e.now;
      } in
      let m = a.server.store.groups in
      let s = Safe-groups c.account_id a (put m e.id g) k (
        Frame-put (λ (x : Group). x.account_id) c.account_id m e.id g refl
          (Own-none (λ (x : Group). x.account_id) c.account_id m e.id fresh.group)) in
      ground (arith, Safe-refl c.account_id a k, s)

  pub create_setup_key_safe :
      (body : Option KeyBody) → Safe c.account_id a (create_setup_key_handler a e c body).1
  unfolding create_setup_key_handler create_setup_key new_setup_key
  create_setup_key_safe none = Safe-refl c.account_id a k
  create_setup_key_safe (some body) =
      let m = a.server.store.setup_keys in
      let sk = new_setup_key e c body in
      let s =
        Safe-keys c.account_id a (put m e.secret sk) k
          (Frame-put (λ (x : SetupKey). x.account_id) c.account_id m e.secret sk refl
            (Own-none (λ (x : SetupKey). x.account_id) c.account_id m e.secret fresh.setup_key))
          (Distinct-put m e.secret sk k.keys_distinct) in
      ground (arith, Safe-refl c.account_id a k, s)

  pub create_rule_safe :
      (ipv6 : Text → Bool) (body : Option RuleBody)
      → Safe c.account_id a (create_rule ipv6 a e c body).1
  unfolding create_rule new_rule
  create_rule_safe ipv6 none = Safe-refl c.account_id a k
  create_rule_safe ipv6 (some body) =
      let r = new_rule e c body in
      ground (
        arith,
        Safe-refl c.account_id a k,
        save_rule_safe a c k r refl (
            Own-none (λ (x : Rule). x.account_id) c.account_id a.server.store.rules e.id
              fresh.rule),
      )

-- What a listed rule is in the store.
pub listed :
    (st : Store) (account id : Text) (r : Rule)
    → Consistent st
    → find (λ x. x.id == id) (get_rules_by_account st account) ≡ some r
    → (get st.rules r.id ≡ some r) × (r.account_id ≡ account)
listed st account id r k h =
    let m =
      (get_rules_by_account-Ascending st account r).1.0
        (find_Mem (λ x. x.id == id) (get_rules_by_account st account) r h) in
    (get-Mem (λ (x : Rule). x.id) st.rules r k.rules_distinct k.rules_keyed m.0, m.1)

module _ (a : Api) (c : Claims) (k : Consistent a.server.store) where
  patch_rule_safe :
      (ipv6 : Text → Bool) (r : Rule) (q : Option RulePatch)
      → Own (λ (x : Rule). x.account_id) c.account_id a.server.store.rules r.id
      → r.account_id ≡ c.account_id
      → Safe c.account_id a (patch_rule ipv6 a c r q).1
  unfolding patch_rule patched
  patch_rule_safe ipv6 r none own e = Safe-refl c.account_id a k
  patch_rule_safe ipv6 r (some q) own e =
      let r' = patched r q in
      ground (arith, Safe-refl c.account_id a k, save_rule_safe a c k r' e own)

  update_found_rule_safe :
      (ipv6 : Text → Bool) (id : Text) (q : Option RulePatch) (o : Option Rule)
      → find (λ x. x.id == id) (get_rules_by_account a.server.store c.account_id) ≡ o
      → Safe c.account_id a (update_found_rule ipv6 a c q o).1
  unfolding update_found_rule
  update_found_rule_safe ipv6 id q none h = Safe-refl c.account_id a k
  update_found_rule_safe ipv6 id q (some r) h =
      let (g, e) = listed a.server.store c.account_id id r k h in
      patch_rule_safe ipv6 r q
        (Own-some (λ (x : Rule). x.account_id) c.account_id a.server.store.rules r.id r g e) e

  pub update_rule_safe :
      (ipv6 : Text → Bool) (id : Text) (q : Option RulePatch)
      → Safe c.account_id a (update_rule ipv6 a c id q).1
  unfolding update_rule
  update_rule_safe ipv6 id q =
      update_found_rule_safe ipv6 id q
        (find (λ x. x.id == id) (get_rules_by_account a.server.store c.account_id)) refl

  delete_group_step :
      (id : Text) (o : Option Group)
      → get a.server.store.groups id ≡ o
      → Safe c.account_id a (after_delete a (without_group a.server.store c.account_id id o)).1
  unfolding after_delete without_group
  delete_group_step id none h = Safe-refl c.account_id a k
  delete_group_step id (some g) h = elim (Bool-cases (g.account_id == c.account_id)) [
    | inl y ↦ rw y (
        Safe-groups c.account_id a (remove a.server.store.groups id) k (
          Frame-remove (λ (x : Group). x.account_id) c.account_id a.server.store.groups id
            (Own-some (λ (x : Group). x.account_id) c.account_id a.server.store.groups id g h
              ((text_beq_iff g.account_id c.account_id).0 y))))
    | inr n ↦ rw n (Safe-refl c.account_id a k)
  ]

  pub delete_group_safe : (id : Text) → Safe c.account_id a (delete_group_handler a c id).1
  unfolding delete_group_handler delete_group
  delete_group_safe id =
      ground (
        arith,
        Safe-refl c.account_id a k,
        delete_group_step id (get a.server.store.groups id) refl,
      )

  delete_key_step :
      (id : Text) (o : Option Text)
      → key_named a.server.store.setup_keys c.account_id id ≡ o
      → Safe c.account_id a (after_delete a (without_key a.server.store o)).1
  unfolding after_delete without_key
  delete_key_step id none h = Safe-refl c.account_id a k
  delete_key_step id (some j) h =
      let m = a.server.store.setup_keys in
      let (sk, g, e) = key_named_found m c.account_id id j k.keys_distinct h in
      Safe-keys c.account_id a (remove m j) k
        (Frame-remove (λ (x : SetupKey). x.account_id) c.account_id m j
          (Own-some (λ (x : SetupKey). x.account_id) c.account_id m j sk g e))
        (Distinct-remove m j k.keys_distinct)

  pub delete_setup_key_safe : (id : Text) → Safe c.account_id a (delete_setup_key_handler a c id).1
  unfolding delete_setup_key_handler delete_setup_key
  delete_setup_key_safe id =
      delete_key_step id (key_named a.server.store.setup_keys c.account_id id) refl

  delete_rule_step :
      (id : Text) (o : Option Rule)
      → get a.server.store.rules id ≡ o
      → Safe c.account_id a (rule_deleted a c (without_rule a.server.store c.account_id id o)).1
  unfolding rule_deleted without_rule
  delete_rule_step id none h = Safe-refl c.account_id a k
  delete_rule_step id (some r) h = elim (Bool-cases (r.account_id == c.account_id)) [
    | inl y ↦
        let m = a.server.store.rules in
        let b = with_store a (record a.server.store { rules = remove m id }) in
        let s : Safe c.account_id a b =
          Safe-rules c.account_id a (remove m id) k
            (Frame-remove (λ (x : Rule). x.account_id) c.account_id m id
              (Own-some (λ (x : Rule). x.account_id) c.account_id m id r h
                ((text_beq_iff r.account_id c.account_id).0 y)))
            (Keyed-remove (λ (x : Rule). x.id) m id k.rules_keyed)
            (Distinct-remove m id k.rules_distinct) in
        rw y (
          Safe-trans c.account_id a b (notified b c.account_id) s
            (Safe-notified c.account_id b s.consistent))
    | inr n ↦ rw n (Safe-refl c.account_id a k)
  ]

  pub delete_rule_safe : (id : Text) → Safe c.account_id a (delete_rule_handler a c id).1
  unfolding delete_rule_handler delete_rule
  delete_rule_safe id = delete_rule_step id (get a.server.store.rules id) refl
