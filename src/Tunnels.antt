-- ===== src/Tunnels.antt =====
-- src/tunnels/.
pub mod Header
pub mod Reqq
pub mod Frames
pub mod Tunnel
pub mod Udp
pub mod Dispatch
pub mod Runs
pub mod Reqserv
