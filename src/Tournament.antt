-- ===== src/Tournament.antt =====
-- frontend/lib/tournament.ts: the battles that a user sets up.
pub mod Calls
pub mod Labels
pub mod Wizard
mod Tests
