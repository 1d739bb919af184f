-- ===== src/Management.antt =====
-- management/internal: the control plane.
pub mod Domain
pub mod Ipam
pub mod RateLimit
pub mod Store
pub mod Login
pub mod Sync
pub mod Auth
pub mod Http
pub mod Streams
pub mod Feed
