-- ===== src/Service.antt =====
-- src/service: the service, its threads, and the record of which address has reached which domain.
pub mod Acclog
pub mod Subservice
pub mod State
pub mod Control
