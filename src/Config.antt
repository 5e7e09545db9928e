-- ===== src/Config.antt =====
-- src/config: the configuration that the server sends.
pub mod Tuncfg
