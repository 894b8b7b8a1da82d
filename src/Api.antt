-- ===== src/Api.antt =====
-- frontend/lib/api.ts and notifications.ts: the calls of the backend. Net holds the types and Client the
-- ways to send a request and to read an answer; the other children are the endpoints by subject.
pub mod Net
pub mod Client
pub mod Titles
pub mod Lists
pub mod Users
pub mod Contact
pub mod Battles
pub mod Notifications
pub mod Sends
pub mod Private
pub mod Calls
pub mod Session
mod Reads
mod Discover
mod Tests
