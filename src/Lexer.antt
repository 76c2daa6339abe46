-- ===== src/Lexer.antt =====
-- src/compiler/lexer/mod.rs: the lexer.
mod Chars
mod Scan
pub mod Progress
unfoldable pub use Chars.*
unfoldable pub use Scan.*
