-- ===== src/Events.antt =====
-- internal/app/events and its clients: the registry of live calls, who owns them, and their history.
pub mod Dict
pub mod Registry
pub mod Clients
pub mod Ownership
pub mod Requests
pub mod Claims
pub mod History
pub mod Export
