-- ===== src/Lib.antt =====
-- Bline-X is a mesh VPN. A control plane (management/) enrols peers, gives each an address and a
-- DNS label, and sends every agent the peers, routes and rules of its account. Agents (client/)
-- talk WireGuard to each other, over a direct path that the probes of a link have proved or over a
-- relay; they meet through the signal server (signal/), which passes on their messages. An agent
-- filters what comes in by the rules, forwards to the subnets it advertises, and resolves names.
--
-- The files, and the code that each models:
-- - Prelude, with Tests, Lists, Text and Dict below it: Boolean tests, lists, Go strings as bytes
--   and Go maps as association lists.
-- - Netip: the part of Go's net/netip that the program uses, on IPv4; Netip/Print: `hostToIP` of
--   management/internal/grpcserver/ipam.go.
-- - Wgmgr: client/internal/wgmgr. Wgmgr/Acl: `aclAllows`, `aclHostMatch` (nsrouter.go).
--   Wgmgr/Packet and Wgmgr/Conntrack: conntrack.go. Wgmgr/Filter: aclfilter.go and
--   aclfilter_windows.go. Wgmgr/Router: the decisions and semaphores of nsrouter.go.
-- - Management: management/internal. Management/Domain: domain/. Management/Ipam and
--   Management/RateLimit: ipam.go and ratelimit.go of grpcserver/. Management/Store:
--   store/memory/store.go. Management/Login: `Login`, `UpdatePeerMeta` and `notifyAll` of
--   grpcserver/server.go. Management/Sync: `buildSyncResponse`, `resolveExitNode` and
--   `expandGroupRule` of the same file. Management/Auth: auth/auth.go with auth_interceptor.go of
--   grpcserver/ and the middleware of httpserver/server.go. Management/Http: httpserver/server.go,
--   a module for each kind of handler, Management/Http/Dispatch for the routes. The handlers change
--   the store, the token manager and the streams that the gRPC server's operations change too.
--   Management/Streams: `Sync` and its subscriptions. Management/Feed: blocklist/blocklist.go and
--   `GetBlocklist`.
-- - Peerlink: client/internal/peerlink/link.go, `probeState` in Peerlink/Probe and the link with its
--   loops in Peerlink/Link.
-- - Signal: signal/internal/server/server.go.
-- - Dns: client/internal/dns/resolver.go.
-- - Peers: client/internal/peer/manager.go.
-- - Engine: client/internal/engine/engine.go, `applySync` in Engine/Sync, `applyOSRoutes` in
--   Engine/Routes, `pollBlocklist` in Engine/Blocklist, which meets the feed of the control plane and
--   the resolver, and `ensureRelayLink` in Engine/Paths, with client/internal/relay/conn.go and the
--   endpoints of client/internal/wgmgr/bind.go.
-- - Tests: concrete runs.
--
-- A state is a record and an operation a function that returns its result and the state after
-- it; what a mutex guards is one step. A pass of the signal server's loop and a round of a probe
-- loop are several, between which others may come; so is `Login`, of which the part after the
-- read of the setup key is `with_key`. The other handlers run each as a whole, which is how the
-- theorems about them are to be read. `none` and the constructors of a result type are the
-- errors. Function names are the source's in snake_case. Strings are lists of bytes, of which
-- the program's own are ASCII; case is that of ASCII, but in `ToDNSLabel`, which reads a
-- hostname's runes. An address or a network is read in dotted decimal form: what `net.ParseIP`
-- and `net.ParseCIDR` accept beyond it, IPv4-mapped IPv6 texts and leading zeros in a prefix
-- length, is read as no address. A rule's priority is a natural number, though the API accepts a
-- negative one. Numbers do not wrap unless the source's do within reach: an address is below 2 ^
-- 32 and its sums wrap, ports are compared modulo 2 ^ 16, and ports and priorities of a rule go
-- out as int32. Times are nanoseconds and are given to each operation. The login limiter's
-- tokens are exact where the source has floats. No model runs on fuel, but for the printing of a
-- decimal index, whose fuel is the number and one more, no fewer than its digits. A loop over a
-- map meets the entries in the order of the list, and no theorem depends on which.
--
-- Not modelled: the gVisor stack and sockets, the wrapped TUN device, the JWT library, Postgres,
-- the HTTP framework, ICE, the TURN server, the engine's start-up and status, the operating
-- system's tables, configuration, and the dashboard. What the code gets from these is an argument:
-- the addresses of the interfaces, new UUIDs, tokens, whether a send succeeds, the DNS wire format
-- and the upstream server.
pub mod Prelude
pub mod Netip
pub mod Wgmgr
pub mod Management
pub mod Peerlink
pub mod Signal
pub mod Dns
pub mod Peers
pub mod Engine
pub mod Tests
