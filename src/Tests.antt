-- ===== src/Tests.antt =====
-- Inputs on which the theorems are applied. Every hypothesis of a theorem holds at its input.
pub mod Samples
pub mod Wire
pub mod Lists
pub mod Sending
pub mod Serving
pub mod Texts
pub mod Running
pub mod Dispatching
pub mod Typing
pub mod Clients
