-- ===== src/ControlCenter.antt =====
-- apps/kittd/src/settings_web.rs: the local web server behind the Control Center.
pub mod Json
pub mod Values
pub mod Changes
pub mod Overlay
pub mod Requests
pub mod Exchange
pub mod Start
mod Tests
