-- ===== src/Runs.antt =====
-- The theorems at concrete inputs.
pub mod Calls
pub mod Streams
pub mod Reports
pub mod Frames
pub mod Coder
pub mod Registry
pub mod Files
pub mod Receive
pub mod Manager
pub mod Clients
pub mod Numbering
