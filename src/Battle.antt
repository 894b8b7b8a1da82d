-- ===== src/Battle.antt =====
-- The "winner stays" battles: the home page's in-place run, the battle component, and a pool's tally.
pub mod Run
pub mod WinnerStays
pub mod PickMark
pub mod Session
pub mod Pool
mod Tests
