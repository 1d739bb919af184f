-- ===== src/Wgmgr/Filter.antt =====
-- The packet filter of Windows peers: client/internal/wgmgr/aclfilter.go (`aclFilterAllowsFor`) and
-- aclfilter_windows.go (`aclFilterTUN`). Packets come with the time at which the filter looks at
-- them. The wrapped device and the interface addresses are the operating system's: what the device
-- has read is an argument, what is handed to it is a result, and so are the addresses.
pub mod Policy
pub mod Batch
use blinex.Prelude.{
  ℕ, zero, suc, ◌+◌, ◌-◌, ◌*◌, ◌/◌, ◌%◌, ◌^◌, Bool, true, false, not, ◌&&◌, ◌||◌, Option, none,
  some, List, [], ◌∷◌, ltb, leb, ◌==◌, nat_eq, if◌then◌else◌, length, any, drop, take, is_some,
}
use blinex.Prelude.Text.{Text, text, text_eq, to_lower}
use blinex.Netip.{Addr}
use blinex.Wgmgr.Acl.{Rule, host_match}
use blinex.Wgmgr.Packet.{Packet, byte, word16, addr_at, header_len}
use blinex.Wgmgr.Conntrack.{Flows, observe_outbound, allow_inbound}

-- The `switch` on `pkt[9]`.
unfoldable pub proto_name : ℕ → Text
proto_name n =
    if n == 6
    then text "tcp"
    else if n == 17
    then text "udp"
    else if n == 1
    then text "icmp"
    else []

-- `dport`: read only where the protocol has ports and the packet is long enough.
unfoldable pub dest_port : Packet → ℕ
unfolding proto_name
dest_port pkt =
    let proto = proto_name (byte pkt 9) in
    if (proto == text "tcp" || proto == text "udp") && leb (header_len pkt + 4) (length pkt)
    then word16 pkt (header_len pkt + 2)
    else 0

-- The loop over the rules in `aclFilterAllowsFor`.
unfoldable pub filter_rules : List Rule → Addr → Addr → Text → ℕ → Bool
filter_rules [] src dst proto dport = false
filter_rules (r ∷ rules) src dst proto dport =
    let next = filter_rules rules src dst proto dport in
    if not r.enabled
    then next
    else if not (host_match r.src src) || not (host_match r.dst dst)
    then next
    else let p = to_lower r.protocol in
      if not (p == []) && not (p == text "all")
      then (if not (p == proto)
          then next
          else if ltb 0 r.port
              && (p == text "tcp" || p == text "udp")
              && not (r.port % 2 ^ 16 == dport)
          then next
          else r.action == text "allow")
      else r.action == text "allow"

unfoldable pub acl_filter_allows_for : Packet → List Rule → List Addr → Bool
acl_filter_allows_for pkt rules locals =
    let ihl = header_len pkt in
    if ltb (length pkt) 20 || not (byte pkt 0 / 16 == 4)
    then true
    else if ltb ihl 20 || ltb (length pkt) ihl
    then true
    else if ltb 0 (length locals) && not (any (λ a. a == addr_at pkt 16) locals)
    then true
    else filter_rules rules (addr_at pkt 12) (addr_at pkt 16) (proto_name (byte pkt 9))
        (dest_port pkt)

-- `aclFilterTUN`
pub record Filter : Type 0 where
  pub rules : List Rule
  pub rules_set : Bool
  pub local_cache : Option (List Addr)
  pub local_at : ℕ
  pub flows : Flows

unfoldable pub new_filter : Filter
new_filter = record { rules = []; rules_set = false; local_cache = none; local_at = 0; flows = [] }

unfoldable pub set_rules : Filter → List Rule → Filter
set_rules f rules = record f { rules = rules; rules_set = true }

unfoldable pub clear_rules : Filter → Filter
clear_rules f = record f { rules = []; rules_set = false }

-- What `Device.Read` has filled in, and the clock at each packet: `n`, `bufs` and `sizes`.
observe_bufs : ℕ → Flows → List (ℕ × Packet) → List ℕ → ℕ → Flows
observe_bufs zero flows bufs sizes offset = flows
observe_bufs (suc n) flows [] sizes offset = flows
observe_bufs (suc n) flows (b ∷ bufs) [] offset = flows
observe_bufs (suc n) flows ((now, b) ∷ bufs) (size ∷ sizes) offset =
    observe_bufs n
      (if ltb offset (offset + size) && leb (offset + size) (length b)
        then observe_outbound flows (take size (drop offset b)) now
        else flows)
      bufs sizes offset

-- `Read`, after the device has read without an error.
unfoldable pub read : Filter → ℕ → List (ℕ × Packet) → List ℕ → ℕ → Filter
unfolding observe_bufs
read f n bufs sizes offset =
    if f.rules_set then record f { flows = observe_bufs n f.flows bufs sizes offset } else f

abbrev pub local_addrs_ttl : ℕ
local_addrs_ttl = 10 * 1_000_000_000

refreshed : Filter → Option (List Addr) → ℕ → List Addr × Filter
refreshed f none now = ([], f)
refreshed f (some addrs) now = (addrs, record f { local_cache = some addrs; local_at = now })

cached : Filter → Option (List Addr) → Option (List Addr) → ℕ → List Addr × Filter
cached f none interface_addrs now = refreshed f interface_addrs now
cached f (some addrs) interface_addrs now =
    if ltb (now - f.local_at) local_addrs_ttl then (addrs, f) else refreshed f interface_addrs now

-- `localAddrs`; `interface_addrs` is what `net.InterfaceAddrs` returns, `none` an error.
unfoldable pub local_addrs : Filter → Option (List Addr) → ℕ → List Addr × Filter
unfolding cached refreshed
local_addrs f interface_addrs now = cached f f.local_cache interface_addrs now

-- The loop of `Write`: the buffers to hand on, and the flow table.
filter_bufs : List Rule → List Addr → ℕ → Flows → List (ℕ × Packet) → List Packet × Flows
filter_bufs rules locals offset flows [] = ([], flows)
filter_bufs rules locals offset flows ((now, b) ∷ bufs) =
    let skipped = filter_bufs rules locals offset flows bufs in
    let (reply, flows') = allow_inbound flows (drop offset b) now in
    let (rest, left) = filter_bufs rules locals offset flows' bufs in
    if leb (length b) offset
    then skipped
    else if reply || acl_filter_allows_for (drop offset b) rules locals
    then (b ∷ rest, left)
    else (rest, left)

bare : List (ℕ × Packet) → List Packet
bare [] = []
bare ((now, b) ∷ bufs) = b ∷ bare bufs

-- `Write`: the buffers that reach the device, and the filter afterwards.
unfoldable pub write :
    Filter → Option (List Addr) → ℕ → List (ℕ × Packet) → ℕ → List Packet × Filter
unfolding filter_bufs bare
write f interface_addrs now bufs offset =
    let (locals, f') = local_addrs f interface_addrs now in
    let (allowed, flows) = filter_bufs f.rules locals offset f'.flows bufs in
    if f.rules_set then (allowed, record f' { flows = flows }) else (bare bufs, f)
