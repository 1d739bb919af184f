-- ===== src/Engine.antt =====
-- client/internal/engine: the agent's reaction to what the control plane sends.
pub mod Routes
pub mod Blocklist
pub mod Paths
pub mod Sync
