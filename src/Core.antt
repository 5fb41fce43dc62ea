-- ===== src/Core.antt =====
-- fakedetector/core
pub mod Clock
