-- ===== src/Htp.antt =====
-- src/htp: the requests to the server.
pub mod Http
