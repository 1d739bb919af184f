-- ===== src/Management/Http/Rules.antt =====
-- The rule handlers of management/internal/httpserver/server.go.
use blinex.Prelude.{
  ℕ, ℤ, leb, ltb, Bool, true, false, not, ◌&&◌, ◌||◌, Option, none, some, ◌==◌, if◌then◌else◌, find,
  is_some, length, nat_eq,
}
use blinex.Prelude.Text.{Text, text, text_eq, has_prefix, to_lower}
use blinex.Netip.{parse_addr, parse_cidr}
use blinex.Management.Domain.{Rule}
use blinex.Management.Store.{Store, get_rules_by_account, save_rule, delete_rule}
use blinex.Management.Auth.{Claims}
use blinex.Management.Http.{Api, Env, Status, Reply, with_store, notified}

-- `ipv6` says whether `net.ParseIP` or `net.ParseCIDR` reads a text as one of IPv6.
unfoldable pub field_ok : (Text → Bool) → Text → Bool
field_ok ipv6 val =
    if val == text "*"
    then true
    else if has_prefix val (text "group:")
    then ltb 6 (length val)
    else is_some (parse_addr val) || is_some (parse_cidr val) || ipv6 val

-- `validProtocols`
unfoldable pub is_valid_protocol : Text → Bool
is_valid_protocol p = p == text "tcp" || p == text "udp" || p == text "icmp" || p == text "all"

unfoldable pub port_ok : ℤ → Bool
port_ok (ℤ.negsuc n) = false
port_ok (ℤ.pos n) = leb n 65535

-- `validateRuleFields`, true being no error.
unfoldable pub validate_rule_fields : (Text → Bool) → Text → Text → Text → ℤ → Bool
unfolding field_ok is_valid_protocol port_ok
validate_rule_fields ipv6 src dst protocol port =
    field_ok ipv6 src && field_ok ipv6 dst && is_valid_protocol (to_lower protocol) && port_ok port

unfoldable pub is_valid_action : Text → Bool
is_valid_action a = a == text "allow" || a == text "deny"

-- `listRules`
unfoldable pub list_rules : Api → Claims → Reply × Api
list_rules a c = (Reply.rule_list (get_rules_by_account a.server.store c.account_id), a)

pub record RuleBody : Type 0 where
  pub name : Text
  pub src : Text
  pub dst : Text
  pub protocol : Text
  pub port : ℤ
  pub action : Text
  pub enabled : Bool
  pub priority : ℕ

-- The number of a port that is not negative.
abbrev pub number : ℤ → ℕ
number (ℤ.pos n) = n
number (ℤ.negsuc n) = 0

-- `SaveRule`, the notification and the answer.
unfoldable pub save_rule_and_notify : Api → Claims → Rule → Reply × Api
save_rule_and_notify a c r =
    (Reply.one_rule r, notified (with_store a (save_rule a.server.store r)) c.account_id)

-- The record of a new rule.
unfoldable pub new_rule : Env → Claims → RuleBody → Rule
new_rule e c body = record {
  id = e.id;
  account_id = c.account_id;
  name = body.name;
  src = body.src;
  dst = body.dst;
  protocol = body.protocol;
  port = number body.port;
  action = body.action;
  enabled = body.enabled;
  priority = body.priority;
  created_at = e.now;
}

-- `createRule`
unfoldable pub create_rule : (Text → Bool) → Api → Env → Claims → Option RuleBody → Reply × Api
unfolding save_rule_and_notify new_rule
create_rule ipv6 a e c none = (Reply.error Status.bad_request, a)
create_rule ipv6 a e c (some body) =
    if not (is_valid_action body.action)
    then (Reply.error Status.bad_request, a)
    else if not (validate_rule_fields ipv6 body.src body.dst body.protocol body.port)
    then (Reply.error Status.bad_request, a)
    else save_rule_and_notify a c (new_rule e c body)

pub record RulePatch : Type 0 where
  pub name : Option Text
  pub src : Option Text
  pub dst : Option Text
  pub protocol : Option Text
  pub port : Option ℤ
  pub action : Option Text
  pub enabled : Option Bool
  pub priority : Option ℕ

-- `if req.F != nil { existing.F = *req.F }`
abbrev pub or_old {ℓ} : {A : Type ℓ} → Option A → A → A
or_old none old = old
or_old (some x) old = x

-- The rule that the patch makes, with the port that is looked at before it is stored.
unfoldable pub patched : Rule → RulePatch → Rule
patched r q = record r {
  name = or_old q.name r.name;
  src = or_old q.src r.src;
  dst = or_old q.dst r.dst;
  protocol = or_old q.protocol r.protocol;
  port = number (or_old q.port (ℤ.pos r.port));
  action = or_old q.action r.action;
  enabled = or_old q.enabled r.enabled;
  priority = or_old q.priority r.priority;
}

abbrev pub action_ok : Option Text → Bool
action_ok none = true
action_ok (some x) = is_valid_action x

unfoldable pub patch_rule : (Text → Bool) → Api → Claims → Rule → Option RulePatch → Reply × Api
unfolding save_rule_and_notify patched
patch_rule ipv6 a c r none = (Reply.error Status.bad_request, a)
patch_rule ipv6 a c r (some q) =
    let r' = patched r q in
    if not (action_ok q.action)
    then (Reply.error Status.bad_request, a)
    else if not (validate_rule_fields ipv6 r'.src r'.dst r'.protocol (or_old q.port (ℤ.pos r.port)))
    then (Reply.error Status.bad_request, a)
    else save_rule_and_notify a c r'

unfoldable pub update_found_rule :
    (Text → Bool) → Api → Claims → Option RulePatch → Option Rule → Reply × Api
unfolding patch_rule
update_found_rule ipv6 a c q none = (Reply.error Status.not_found, a)
update_found_rule ipv6 a c q (some r) = patch_rule ipv6 a c r q

-- `updateRule`: the rules that the store returns are copies of those it holds.
unfoldable pub update_rule : (Text → Bool) → Api → Claims → Text → Option RulePatch → Reply × Api
unfolding update_found_rule
update_rule ipv6 a c id q =
    update_found_rule ipv6 a c q
      (find (λ r. r.id == id) (get_rules_by_account a.server.store c.account_id))

unfoldable pub rule_deleted : Api → Claims → Option Store → Reply × Api
rule_deleted a c none = (Reply.error Status.not_found, a)
rule_deleted a c (some st) = (Reply.no_content, notified (with_store a st) c.account_id)

-- `deleteRule`
unfoldable pub delete_rule_handler : Api → Claims → Text → Reply × Api
unfolding rule_deleted
delete_rule_handler a c id = rule_deleted a c (delete_rule a.server.store c.account_id id)
