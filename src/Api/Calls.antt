-- ===== src/Api/Calls.antt =====
-- Every call of the backend as data.
pub mod Title
pub mod Lists
pub mod User
pub mod Battle
pub mod Tournament
pub mod Notification
