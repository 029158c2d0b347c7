-- ===== src/Tests.antt =====
-- Runs of the theorems at concrete inputs.
pub mod Net
pub mod Racing
pub mod Stream
pub mod Rules
pub mod Client
pub mod Screens
pub mod Memory
pub mod Storage
pub mod Pool
pub mod Startup
pub mod Ending
pub mod Journey
pub mod Program
