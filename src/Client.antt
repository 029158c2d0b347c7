-- ===== src/Client.antt =====
-- The client: its transport, its protocol and its controllers.
pub mod Connection
pub mod Protocol
pub mod Controllers
pub mod Window
pub mod Journey
pub mod Reading
pub mod Dialog
