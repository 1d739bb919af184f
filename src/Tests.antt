-- ===== src/Tests.antt =====
-- Concrete runs of the development: each theorem with conditions is applied where they hold.
mod Wgmgr
mod Peerlink
mod Signal
mod Management
mod Account
mod Http
mod Dns
mod Peers
mod Engine
