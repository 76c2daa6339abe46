-- ===== src/Index.antt =====
-- src/bin/mcp_server.rs: the index of a code base, and the tools of the server.
mod Codebase
mod Queries
mod Tools
mod Requests
pub mod Replace
pub mod Resolve
pub mod Listed
pub mod Callers
pub mod Atomic
pub mod Patch
unfoldable pub use Codebase.*
unfoldable pub use Queries.*
unfoldable pub use Tools.*
unfoldable pub use Requests.*
