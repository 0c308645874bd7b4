-- ===== src/Capture.antt =====
-- Package capture: the store of captured artifacts (internal/capture).
pub mod History
pub mod Prune
pub mod Put
pub mod Slug
pub mod Path
pub mod Store
pub mod Myers
pub mod Diff
mod Tests
