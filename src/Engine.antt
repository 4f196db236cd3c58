-- ===== src/Engine.antt =====
-- The engine package: internal/voip/engine.
pub mod SrtpManager
pub mod Memory
