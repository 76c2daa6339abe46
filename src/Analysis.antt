-- ===== src/Analysis.antt =====
-- src/compiler/analysis/mod.rs: what the compiler computes from the tree.
mod Calls
mod Fingerprint
mod Measures
mod Pointers
mod Prune
mod Sets
pub mod Roots
pub mod Reach
pub mod Turns
pub mod Kept
pub mod Rename
pub mod Mentions
pub mod Names
pub mod Shared
unfoldable pub use Calls.{collect_calls, get_calls}
unfoldable pub use Fingerprint.{structural_fingerprint}
unfoldable pub use Measures.{is_pure, complexity}
unfoldable pub use Pointers.{returns_ptr_with_stack}
unfoldable pub use Prune.{unwrap_metadata, prune_dead_code}
