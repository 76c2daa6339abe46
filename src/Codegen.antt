-- ===== src/Codegen.antt =====
-- src/compiler/codegen: what it tracks of the variables, without the code that it emits.
mod Stack
mod Pointers
mod Inference
mod Driver
mod Names
mod Builder
mod Columns
mod Rows
mod Operators
mod Variables
mod Tasks
mod Calls
mod Generate
mod Walk
mod Functions
pub mod Follows
pub mod Regions
pub mod Traps
mod Reads
mod Bodies
pub mod Accepts
pub mod Safe
pub mod Opencl
pub mod Kernel
pub mod Agreement
pub mod Growth
pub mod Settles
pub mod Signatures
pub mod Cleaning
pub mod Entries
pub mod Importing
pub mod Exports
unfoldable pub use Driver.*
unfoldable pub use Names.*
pub use Stack.{StackItem}
pub use Pointers.{Ptrs}
unfoldable pub use Stack.{infer_item_shape, captured_items}
unfoldable pub use Pointers.{infer_constraints}
pub use Inference.{Types}
unfoldable pub use Inference.{init_types, round, analyze_module_types}
pub use Builder.{Llvm}
pub use Variables.{Settings}
unfoldable pub use Tasks.{hoists}
unfoldable pub use Bodies.{Inner}
unfoldable pub use Functions.{gen_function}
