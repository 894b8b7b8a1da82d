-- ===== src/Labels.antt =====
-- Text helpers of frontend/lib: Persian digits, genre labels and titles.
pub mod Digits
pub mod Genre
pub mod Tier
pub mod Lines
mod Tests
pub mod Title
