-- ===== src/Cli.antt =====
-- src/main.rs: the command line.
mod Args
mod TestArgs
mod Compile
pub mod Forms
pub mod Verdict
pub mod Outputs
pub mod Written
pub mod Accepted
unfoldable pub use Args.*
unfoldable pub use TestArgs.*
unfoldable pub use Compile.*
