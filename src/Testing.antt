-- ===== src/Testing.antt =====
-- src/testing/mod.rs: the discovery of the tests of a module.
mod Discovery
mod Process
mod Harness
mod Runner
pub mod Split
pub mod Protocol
pub mod Counts
pub mod Stripped
unfoldable pub use Discovery.*
unfoldable pub use Process.*
unfoldable pub use Harness.*
unfoldable pub use Runner.*
