-- ===== src/Ports.antt =====
-- src/alicerce/ports: the interfaces that the adapters implement.
pub mod StateStore
