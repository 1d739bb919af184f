-- ===== src/Wgmgr/Conntrack.antt =====
-- client/internal/wgmgr/conntrack.go: the flows that this host has started, so that their replies
-- are let in. Times are nanoseconds of one clock; a difference below zero is 0, which the one
-- comparison with a limit reads alike.
pub mod Replies
use blinex.Prelude.{
  ℕ, ◌-◌, ◌*◌, Bool, true, false, Option, none, some, List, [], ◌∷◌, ltb, leb, if◌then◌else◌,
  length,
}
use blinex.Prelude.Dict.{Dict, get, put, remove}
use blinex.Wgmgr.Packet.{Packet, FlowKey, flow_eq, reverse, parse_flow_key}

abbrev pub conntrack_ttl : ℕ
conntrack_ttl = 120 * 1_000_000_000

abbrev pub conntrack_max : ℕ
conntrack_max = 8192

abbrev pub Flows : Type 0
Flows = Dict FlowKey ℕ

-- The table is cleared when it is full.
record_flow : Flows → Option FlowKey → ℕ → Flows
record_flow flows none now = flows
record_flow flows (some k) now =
    put (if leb conntrack_max (length flows) then [] else flows) (reverse k) now

unfoldable pub observe_outbound : Flows → Packet → ℕ → Flows
unfolding record_flow
observe_outbound flows pkt now = record_flow flows (parse_flow_key pkt) now

admit : Flows → FlowKey → Option ℕ → ℕ → Bool × Flows
admit flows k none now = (false, flows)
admit flows k (some seen) now =
    if ltb conntrack_ttl (now - seen) then (false, remove flows k) else (true, flows)

admit_key : Flows → Option FlowKey → ℕ → Bool × Flows
admit_key flows none now = (false, flows)
admit_key flows (some k) now = admit flows k (get flows k) now

-- Whether a packet is a reply, and the table without the entry that was found expired.
unfoldable pub allow_inbound : Flows → Packet → ℕ → Bool × Flows
unfolding admit admit_key
allow_inbound flows pkt now = admit_key flows (parse_flow_key pkt) now
