-- ===== src/Wgmgr.antt =====
-- client/internal/wgmgr: what the agent lets through. `Acl` is the matching of access rules,
-- `Packet` and `Conntrack` read packets and track flows, `Filter` is the packet filter of Windows
-- peers, and `Router` is the userspace router of netstack peers.
pub mod Acl
pub mod Packet
pub mod Conntrack
pub mod Filter
pub mod Router
