-- ===== src/Controller.antt =====
-- app/services/openvpn.py
pub mod State
pub mod Announce
pub mod Events
pub mod Api
pub mod Worker
pub mod Tracked
pub mod Run
pub mod Soundness
pub mod Notices
pub mod Attempts
mod Tests
