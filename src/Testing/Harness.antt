-- ===== src/Testing/Harness.antt =====
-- src/testing/mod.rs: `generate_harness_main`, `find_llm_clang` and `compile_harness`. The file system, the
-- environment and the linker are parameters.
use llmlang.Prelude.{
  Bool, Text, codes, text_eq, List, [], ◌∷◌, ◌++◌, Option, none, some, map, if◌then◌else◌,
}
use llmlang.Ast.{Expr}
use llmlang.Error.{CompileError, Result, ok, err, bind, map_err, Outcome}
use llmlang.Parser.{Host, Parser, parse_source, strip_metadata}
use llmlang.Verify.{verify_module}
use llmlang.Codegen.{Generator, gen_harness}
use llmlang.Printer.{print_integer}
use llmlang.Prelude.Int.{pos}
use llmlang.Testing.Discovery.{DiscoveredTest}
use llmlang.Testing.Process.{result_marker, result_end_marker}

-- The lines that run one test and print its result block.
unfoldable pub dispatch_lines : Text → Text
dispatch_lines name =
    codes "? sr $ tname \"^"
    ++ (name
        ++ (codes "$\"\nL t0 tns\nL ok ^ . @0 "
            ++ (name
                ++ (codes " 1 0\nL t1 tns\n. ) 1 sc \"\\n"
                    ++ (result_marker
                        ++ (codes
                              "\" sc str $ ok sc \":\" sc str - $ t1 $ t0 sc \":\" sc env \"LLM_PANIC_MSG\" \""
                            ++ (result_end_marker ++ codes "\\n\"\n? = $ ok 1 0 1\n")))))))

unfoldable pub all_dispatch_lines : List Text → Text
unfolding dispatch_lines
all_dispatch_lines [] = []
all_dispatch_lines (name ∷ names) = dispatch_lines name ++ all_dispatch_lines names

unfoldable pub generate_harness_main : List Text → Text
unfolding all_dispatch_lines
generate_harness_main test_names =
    codes ": main\nL tname env \"LLM_TEST_NAME\"\n"
    ++ (all_dispatch_lines test_names ++ codes ". ) 2 \"unknown test name\\n\" 1\n")

-- What the search of the linker wrapper asks the system.
pub record System : Type 0 where
  pub var : Text → Option Text
  pub is_file : Text → Bool
  pub current_exe : Option Text
  pub current_dir : Option Text
  pub canonicalize : Text → Option Text
  pub ancestors : Text → List Text
  pub join : Text → Text → Text

abbrev skip_one : List Text → List Text
skip_one [] = []
skip_one (_ ∷ ps) = ps

module _ (sys : System) where
  unfoldable pub above : Option Text → List Text
  above none = []
  above (some path) = skip_one (sys.ancestors path)

  unfoldable pub or_above : Option Text → List Text
  or_above none = []
  or_above (some path) = sys.ancestors path

  unfoldable pub first_wrapper : List Text → Result Text Text
  first_wrapper [] = err (codes "could not locate llm-clang (set LLM_CLANG to its path)")
  first_wrapper (root ∷ roots) =
      if sys.is_file (sys.join root (codes "llm-clang"))
      then ok (sys.join root (codes "llm-clang"))
      else first_wrapper roots

  unfoldable pub search_wrapper : Text → Result Text Text
  unfolding above or_above first_wrapper
  search_wrapper source_path =
      first_wrapper (
        above sys.current_exe ++ (above (sys.canonicalize source_path) ++ or_above sys.current_dir))

  unfoldable pub find_llm_clang : Text → Result Text Text
  unfolding search_wrapper
  find_llm_clang source_path = elim (sys.var (codes "LLM_CLANG")) [
    | none ↦ search_wrapper source_path
    | some p ↦ if sys.is_file p then ok p else search_wrapper source_path
  ]

unfoldable pub is_main : Expr → Bool
unfolding text_eq
is_main (Expr.define name _ _ _) = text_eq name (codes "main")
is_main _ = Bool.false

unfoldable pub without_main : List Expr → List Expr
unfolding is_main strip_metadata
without_main [] = []
without_main (e ∷ es) = if is_main (strip_metadata e) then without_main es else e ∷ without_main es

-- `Display` of `CompileError`
unfoldable pub error_text : CompileError → Text
unfolding print_integer
error_text e =
    e.code
    ++ (codes " (" ++ (e.filename ++ (codes ":" ++ (print_integer (pos e.line) ++ codes ")"))))

-- The result of a call of the parser with its error as a text; `none` is a panic.
unfoldable pub parse_errors :
    (CompileError → Text) → Outcome (List Expr × Parser) → Option (Result Text (List Expr))
parse_errors text (Outcome.ok (exprs, _)) = some (ok exprs)
parse_errors text (Outcome.err e) = some (err (text e))
parse_errors text Outcome.panic = none
parse_errors text Outcome.out_of_fuel = none

unfoldable pub harness_exprs : List Expr → List DiscoveredTest → List Expr → List Expr
unfolding without_main
harness_exprs production tests main_exprs =
    without_main production ++ (map (λ t. t.define) tests ++ main_exprs)

-- What `compile_harness` uses: the code generator for a source file, with its start, the analysis of the
-- module's types, the emission of an object file, and the run of the linker wrapper.
pub record Backend (S : Type 0) : Type 0 where
  pub host : Host
  pub system : System
  pub generator : Generator S
  pub new_codegen : Text → S
  pub analyze_module_types : List Expr → S → S
  pub emit_to_file : Text → S → Result Text (Unit {0})
  pub link : Text → Text → List Text → Text → Result Text (Unit {0})

module _ {S : Type 0} (b : Backend S) where
  abbrev pub parse_harness : List DiscoveredTest → Option (Result Text (List Expr))
  parse_harness tests =
      parse_errors (λ e. codes "harness generation error: " ++ error_text e)
        (parse_source b.host (generate_harness_main (map (λ t. t.name) tests))
          (codes "<llmtest-harness>") [])

  -- From the assembled module on: the check, the code, the object file and the binary.
  unfoldable pub build_harness : Text → List Text → Text → List Expr → Result Text Text
  unfolding verify_module gen_harness find_llm_clang error_text
  build_harness source_path import_paths work_dir exprs = do
    let obj_path = b.system.join work_dir (codes "llmtest_harness.o")
    let bin_path = b.system.join work_dir (codes "llmtest_harness_bin")
    _ ← map_err error_text (verify_module exprs source_path)
    s ←
        map_err error_text
          (gen_harness b.generator exprs (b.analyze_module_types exprs (b.new_codegen source_path)))
    _ ← map_err (λ e. codes "object emission failed: " ++ e) (b.emit_to_file obj_path s)
    llm_clang ← find_llm_clang b.system source_path
    _ ← b.link llm_clang obj_path import_paths bin_path
    ok bin_path
    where
      ◌>>=◌ : {A B : Type 0} → Result Text A → (A → Result Text B) → Result Text B
      ◌>>=◌ = bind

  unfoldable pub compile_harness :
      Text → List Expr → List DiscoveredTest → List Text → Text → Option (Result Text Text)
  unfolding parse_errors harness_exprs build_harness generate_harness_main parse_source
  compile_harness source_path production tests import_paths work_dir = elim (parse_harness tests) [
    | none ↦ none
    | some parsed ↦ some (
        bind parsed λ main_exprs.
          build_harness source_path import_paths work_dir
            (harness_exprs production tests main_exprs))
  ]
