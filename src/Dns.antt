-- ===== src/Dns.antt =====
-- src/dns: the messages of the DNS proxy and the domains that it sends through the tunnel.
pub mod Buffer
pub mod Names
pub mod Labels
pub mod Header
pub mod Packet
pub mod Resolver
pub mod Tunnel
pub mod Forwarder
pub mod Domap
