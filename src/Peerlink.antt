-- ===== src/Peerlink.antt =====
-- client/internal/peerlink/link.go: the data path to one peer. `Probe` is the policy that promotes
-- and demotes the direct path, `Link` the path that packets take.
pub mod Probe
pub mod Link
