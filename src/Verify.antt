-- ===== src/Verify.antt =====
-- src/compiler/analysis/verify.rs: the ownership check, and what it guarantees.
mod Checks
mod Walk
mod Module
pub mod Machine
pub mod Invariant
pub mod Steps
mod Captures
pub mod Scopes
pub mod Sound
pub mod Linear
pub mod Paths
pub mod Routing
unfoldable pub use Checks.*
unfoldable pub use Walk.*
unfoldable pub use Module.*
