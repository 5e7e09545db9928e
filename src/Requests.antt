-- ===== src/Requests.antt =====
-- src/requests: the connections that the router accepts, and which tunnel manager each goes to.
pub mod ReqMgr
