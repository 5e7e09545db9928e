-- ===== src/Xport.antt =====
-- src/xport: the tunnel through which the peer opens connections to ports of this host.
pub mod Slots
pub mod Tunnel
