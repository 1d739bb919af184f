-- ===== src/Wgmgr/Filter/Policy.antt =====
-- The filter of Windows peers and the userspace router decide by one policy.
use blinex.Prelude.{
  ℕ, ◌≡◌, refl, Bool, true, ◌&&◌, ◌||◌, List, [], ◌∷◌, arith, ◌==◌, nat_eq, if◌then◌else◌, length,
  any,
}
use blinex.Prelude.Text.{Text, text_eq}
use blinex.Netip.{Addr}
use blinex.Wgmgr.Acl.{Rule, proto_match, acl_allows}
use blinex.Wgmgr.Packet.{Packet, byte, addr_at, has_header}
use blinex.Wgmgr.Filter.{proto_name, dest_port, filter_rules, acl_filter_allows_for}

filter_rules-eq-acl_allows :
    (rules : List Rule) (src dst : Addr) (proto : Text) (dport : ℕ)
    → filter_rules rules src dst proto dport ≡ acl_allows rules src dst proto dport
unfolding filter_rules acl_allows proto_match
filter_rules-eq-acl_allows [] src dst proto dport = refl
filter_rules-eq-acl_allows (r ∷ rules) src dst proto dport =
    ground (arith, filter_rules-eq-acl_allows rules src dst proto dport)

-- The packet is addressed to this host, or the host's addresses are not known.
unfoldable pub is_policed : Packet → List Addr → Bool
is_policed pkt locals = (length locals == 0) || any (λ a. a == addr_at pkt 16) locals

-- What the filter decides, in full: a packet with no whole IPv4 header passes; one that is not for an
-- address of this host passes, where the host's addresses are known; and any other packet, which is
-- every one with a header where they are not known, is decided as the userspace router would decide
-- it.
pub acl_filter_allows_for-eq :
    (pkt : Packet) (rules : List Rule) (locals : List Addr)
    → acl_filter_allows_for pkt rules locals ≡ (
        if has_header pkt && is_policed pkt locals
        then acl_allows rules
            (addr_at pkt 12)
            (addr_at pkt 16)
            (proto_name (byte pkt 9))
            (dest_port pkt)
        else true)
unfolding acl_filter_allows_for has_header is_policed
acl_filter_allows_for-eq pkt rules locals = ground (
  arith,
  filter_rules-eq-acl_allows rules (addr_at pkt 12) (addr_at pkt 16) (proto_name (byte pkt 9))
      (dest_port pkt),
)
