-- ===== src/ListPage.antt =====
-- The list page's components that keep state, under frontend/components.
pub mod Votes
pub mod Order
pub mod Adding
mod Tests
