-- ===== src/Manager.antt =====
-- src/tunnels/tunmgr.rs: the tunnels of the proxy, and which of them a request goes to.
pub mod State
pub mod Alloc
pub mod Mgr
