-- ===== src/Account.antt =====
-- The viewer's account in the browser: the session's tokens, the login gate, and the marks that a
-- viewer toggles.
pub mod Retry
pub mod Provider
pub mod Gate
pub mod Marks
mod Tests
