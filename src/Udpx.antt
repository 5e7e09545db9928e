-- ===== src/Udpx.antt =====
-- src/udpx: the sockets that carry the peers' datagrams back to the local network.
pub mod Cache
pub mod Manager
