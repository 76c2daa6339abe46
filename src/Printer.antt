-- ===== src/Printer.antt =====
-- src/compiler/ast/display.rs: the printer of the tree.
mod Format
pub mod Literals
pub mod Digits
pub mod Numbers
unfoldable pub use Format.{escape_string, print, print_integer}
