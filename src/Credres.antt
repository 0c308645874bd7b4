-- ===== src/Credres.antt =====
-- Package credres (internal/credres): which credentials a device is offered, and in which order.
pub mod Outcome
pub mod Rank
pub mod Resolve
pub mod Report
pub mod Walk
pub mod Aliases
pub mod Binding
pub mod Shapes
mod Tests
