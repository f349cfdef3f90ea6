-- ===== src/Protocol.antt =====
-- The client and the server together.
pub mod Filter
pub mod Requests
