-- ===== src/Sessions.antt =====
-- internal/sessions: the session tree that the connection manager edits.
pub mod Node
pub mod Index
pub mod Tree
pub mod Validate
pub mod Import
pub mod Edits
mod Tests
