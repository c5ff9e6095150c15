-- ===== src/Runtime.antt =====
-- crates/runtime, and the traits of crates/ports and the types of crates/protocol that it uses.
pub mod Fault
pub mod Broker
pub mod Message
pub mod Host
pub mod Projection
pub mod Calls
pub mod Turn
pub mod Journal
