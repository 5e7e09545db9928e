-- ===== src/Lws.antt =====
-- src/lws/: messages over the websocket connection of a tunnel.
pub mod Msg
pub mod Socket
pub mod Framed
pub mod Handshake
pub mod TcpFramed
