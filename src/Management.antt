-- ===== src/Management.antt =====
-- app/services/management.py
pub mod Redact
pub mod Reader
pub mod Chunks
mod Tests
