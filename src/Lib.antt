-- ===== src/Lib.antt =====
-- The llmlang compiler (src/compiler): source text to tokens, tokens to a syntax tree, the ownership
-- check of the tree, and the analyses that code generation asks for.
--
-- The parts, in the order in which a module passes through them:
-- - Token, Ast, Error: the tokens (src/compiler/lexer/mod.rs), `Expr` and `Param`
--   (src/compiler/ast/mod.rs), `CompileError` (src/compiler/error.rs), and two types of results:
--   `Result` for functions that only fail, `Outcome` for the lexer and the parser, which can panic.
-- - Lexer (src/compiler/lexer/mod.rs): Chars holds the classes of characters and the keywords, Scan
--   the methods of `Lexer` on the characters that are left, Progress that each token takes characters.
-- - Parser (src/compiler/parser/mod.rs): State holds `Parser` and its scopes, Signature the resolver
--   and `load_signature`, Router the function that `parse_router` generates, Grammar the loops and the
--   steps that the productions share, Expr the productions, `parse_expr` and `parse_module`. Progress,
--   Productions and Terminates are about the fuel, Names about the scopes. The parser calls
--   `next_token` in `consume`.
-- - Verify (src/compiler/analysis/verify.rs): Checks holds `VerificationContext` and what each branch
--   of `verify_expr` does, Walk `verify_expr`, Module `verify_module`. Machine is the independent
--   description of a run: every variable gets a slot, and each access and move of a slot is logged.
--   Invariant, Steps, Scopes and Sound relate the two; Linear and Paths draw the conclusions.
-- - Analysis (src/compiler/analysis/mod.rs): Calls (`get_calls`), Fingerprint
--   (`structural_fingerprint`), Measures (`is_pure`, `complexity`), Pointers
--   (`returns_ptr_with_stack`), Prune (`prune_dead_code`). Sets, Roots, Reach, Turns and Kept are about
--   pruning; Mentions and Names about what `get_calls` finds, Rename and Shared about the fingerprint.
-- - Printer (src/compiler/ast/display.rs): Format holds `PrettyExpr`'s Display; Literals and Numbers are
--   about reading back what it writes.
-- - Codegen (src/compiler/codegen): Stack holds `StackItem`, `infer_shape` and the stack of a generated
--   trap function; Agreement compares them with the check. Pointers and Inference hold
--   the pointer inference of symbol.rs; Growth and Settles are about it. Names holds the names of
--   functions and the signature file of symbol.rs; Cleaning, Entries, Signatures, Importing and Exports
--   say what an importer reads.
--   Builder holds LLVM's interface and the helpers of mod.rs, Operators, Columns and Rows the code of the
--   operators and of shapes, Variables the stack, Tasks parallel.rs, Calls and Generate the calls, lets and
--   branches, Walk `gen_expr` and Functions `gen_function`; Follows, Regions, Traps, Reads, Accepts and Safe
--   compare them with the check, on the expressions of Bodies. Templates are expanded on fuel, since one that
--   calls itself is expanded for ever; without templates one unit is enough.
--   Opencl holds `translate_to_opencl`, Kernel the meaning of what it writes. Driver holds the loops of
--   `main` (src/main.rs) and of `compile_harness` over the methods of the code generator.
-- - Testing (src/testing/mod.rs): Discovery holds `discover_tests`, Process `run_single_test`, Harness
--   `generate_harness_main` and `compile_harness`, Runner `run_tests`. Split is about the discovery,
--   Protocol about the result block, Counts about the report, Stripped about the two builds.
-- - Index (src/bin/mcp_server.rs): Codebase holds `CodebaseIndex`, Queries the tools that read it, Tools
--   `analyze_path`, `run_symbol_tests` and `patch_symbol`, Requests `handle_method`. Replace and Resolve
--   are about the index, Listed and Callers about the queries, Patch and Atomic about the tools. A write that fails
--   may leave a file in any state; the work directory of a test run is not part of a state.
-- - Cli (src/main.rs): Args and TestArgs hold the arguments, TestArgs also `run_test_command`, Compile
--   `main` over the file system and the methods of the code generator (`Compiler`). Forms and Verdict are
--   about the command `test`, Outputs, Written and Accepted about a compilation.
-- - Verify.Routing joins the parser's generated loop with the check.
-- - Prelude: names of the libraries, Boolean tests, lists, texts, dictionaries, numerals.
-- - Tests: the theorems at concrete inputs, and runs.
--
-- How the code is translated:
-- - A `&mut self` method is a function from the state to its result and the new state; in Verify the
--   context is threaded through `Check`, in Parser the parser through `M`.
-- - A `String` is the list of its code points; a `Vec` that is used as a stack (scopes, the variables of
--   a scope, the stacks of the check, `to_visit`) is kept with its top first, so that an index from the
--   top is a position of the list.
-- - A `HashMap` is an association list with one entry for each key, a `HashSet` a list without order. The
--   signature file lists shapes and templates in the order of the list, where the code has any order.
-- - An `f64` is kept as the numeral that it was read from; `i64` multiplication wraps.
-- - `unwrap` on an error is the result `panic`.
--
-- Fuel: the lexer takes a unit for each comment, and has one more than there are characters left. The
-- parser takes a unit for each call of `parse_expr` and each round of a loop, and starts with one more
-- than there are characters and tokens left. `prune_dead_code` has `turns`: (2n + 2) for each of n
-- expressions, and 2n + 1. The theorems below say that none of them runs out.
--
-- What is taken as a parameter: the letters beyond ASCII, the signature resolver with the file system,
-- the conversion of a money amount from `f64` (`Host`, `FileSystem`), what `{}` writes for an `f64`, the
-- hash of a fingerprint, the canonical form of a path, the values of the code generator, LLVM's
-- `add_function`, the file system, processes and the linker (`Suite`, `Backend`, `System`, `Server`, `Compiler`,
-- `TestHost`), JSON
-- values, and the order in which a `HashMap` lists its keys.
--
-- What is not modelled: `CodeGen::new`, the stack of the thread and `emit_to_file` of the code
-- generator, which are calls of LLVM and the system; the names of LLVM values and the types of its
-- functions; what the command line prints; the rewriting of messages in the MCP server's `main`; the C runtime; the texts of the
-- errors of the index.
pub mod Prelude
pub mod Token
pub mod Error
pub mod Ast
pub mod Lexer
pub mod Parser
pub mod Verify
pub mod Analysis
pub mod Printer
pub mod Codegen
pub mod Testing
pub mod Index
pub mod Cli
pub mod Tests
