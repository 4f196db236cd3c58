-- ===== src/Call.antt =====
-- The call package: internal/voip/call.
pub mod State
pub mod Deadline
pub mod Lifecycle
pub mod Diagram
pub mod Receive
pub mod CopyFilter
pub mod Forwarding
pub mod Relays
pub mod Manager
pub mod Client
