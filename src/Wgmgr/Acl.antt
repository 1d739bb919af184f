-- ===== src/Wgmgr/Acl.antt =====
-- The access rules as the agent receives them (gen/common/v1/types.pb.go), and the evaluation of
-- client/internal/wgmgr/nsrouter.go: `aclHostMatch` and `RoutingNet.aclAllows`.
pub mod FirstMatch
use blinex.Prelude.{
  ℕ, ◌%◌, ◌^◌, Bool, true, false, not, ◌&&◌, ◌||◌, Option, none, some, List, [], ◌∷◌, ltb, ◌==◌,
  nat_eq, if◌then◌else◌,
}
use blinex.Prelude.Text.{Text, text, text_eq, to_lower}
use blinex.Netip.{Addr, parse_addr, parse_prefix, contains}

-- The fields of `commonv1.Rule`. A negative `port` is no restriction, like 0, and is 0 here.
pub record Rule : Type 0 where
  pub id : Text
  pub name : Text
  pub src : Text
  pub dst : Text
  pub protocol : Text
  pub port : ℕ
  pub action : Text
  pub enabled : Bool
  pub priority : ℕ

-- `aclHostMatch`: the three tries in turn.
host_match_addr : Option Addr → Addr → Bool
host_match_addr none ip = false
host_match_addr (some a) ip = a == ip

unfoldable pub host_match : Text → Addr → Bool
unfolding host_match_addr
host_match field ip = if field == [] || field == text "*" then true else elim (parse_prefix field) [
  | some p ↦ contains p ip
  | none ↦ host_match_addr (parse_addr field) ip
]

-- The protocol and port test inside the loop: `false` is `continue`.
unfoldable pub proto_match : Rule → Text → ℕ → Bool
proto_match r proto dport =
    let p = to_lower r.protocol in
    if not (p == []) && not (p == text "all")
    then (if not (p == proto)
        then false
        else not (
            ltb 0 r.port && (p == text "tcp" || p == text "udp") && not (r.port % 2 ^ 16 == dport)))
    else true

-- `RoutingNet.aclAllows`: the first enabled rule that matches decides, and the default is deny.
unfoldable pub acl_allows : List Rule → Addr → Addr → Text → ℕ → Bool
acl_allows [] src dst proto dport = false
acl_allows (r ∷ rules) src dst proto dport =
    let next = acl_allows rules src dst proto dport in
    if not r.enabled
    then next
    else if not (host_match r.src src) || not (host_match r.dst dst)
    then next
    else if proto_match r proto dport
    then r.action == text "allow"
    else next
