-- ===== src/Call/Manager.antt =====
-- CallManager of internal/voip/call: one call of ours with its keys, its relays and its watchdog.
pub mod Jids
pub mod State
pub mod Keys
pub mod Locally
pub mod Signals
pub mod Accepts
pub mod Relay
pub mod Video
pub mod Watchdog
pub mod Quiet
pub mod Steps
pub mod Histories
pub mod Expiry
pub mod Kept
pub mod Answered
pub mod Late
pub mod Rtcp
pub mod Numbering
