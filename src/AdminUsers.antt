-- ===== src/AdminUsers.antt =====
-- frontend/app/admin/(protected)/users: the table of users in the admin panel. Selection is the users
-- that are ticked and the actions on all of them, Loading the reading of a page of the table.
pub mod Selection
pub mod Loading
mod Tests
