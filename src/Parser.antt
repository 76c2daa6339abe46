-- ===== src/Parser.antt =====
-- src/compiler/parser/mod.rs: the parser.
mod State
pub mod Signature
mod Router
mod Grammar
mod Expr
pub mod Progress
mod Loops
mod Productions
pub mod Terminates
pub mod Names
unfoldable pub use State.*
unfoldable pub use Signature.*
unfoldable pub use Router.*
unfoldable pub use Grammar.*
unfoldable pub use Expr.*
