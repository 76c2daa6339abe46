-- ===== src/Index/Tools.antt =====
-- src/bin/mcp_server.rs: `analyze_path`, and the tools that read or write source files. The file system
-- with its walk, the JSON values with their accessors, and what is written of a report are parameters;
-- `none` is a panic of the handler. The documents and the descriptions of the tools, which are fixed
-- texts, are a constructor each.
use llmlang.Prelude.{
  ℕ, ◌+◌, Text, codes, text_eq, List, [], ◌∷◌, ◌++◌, Option, none, some, length, if◌then◌else◌,
  insert, print_decimal, drop_end,
}
use llmlang.Ast.{Expr}
use llmlang.Error.{Result, ok, err, Outcome}
use llmlang.Lexer.{is_whitespace, new_lexer}
use llmlang.Parser.{Host, Parser, new_parser, parse_module, parse_source}
use llmlang.Token.{Float}
use llmlang.Printer.{print}
use llmlang.Testing.{TestReport, TestResult, Suite, run_tests, error_text}
use llmlang.Index.Codebase.{CodebaseIndex, index_exprs, resolve_function, ResolveError}
use llmlang.Index.Queries.{McpError, invalid, internal, Listing}

-- What the handler uses: `F` is the state of the file system, `J` a JSON value. A write that fails may
-- have changed the files: `std::fs::write` truncates the file before it writes.
pub record Server (F J S : Type 0) : Type 0 where
  pub host : Host
  pub hash : Text → Text
  pub canonicalize : Text → Option Text
  pub show_float : Float → Text
  pub listing : Listing
  pub llm_files : F → Text → List Text
  pub read_to_string : F → Text → Result Text Text
  pub write : F → Text → Text → F × Result {0} Text Unit
  pub suite : Suite S
  pub field : J → Text → Option J
  pub as_str : J → Option Text
  pub from_value : J → Result Text Expr
  pub resolve_text : ResolveError → Text
  pub report_text : TestReport → List (Text × TestResult) → Text

-- The handler's state, and the files.
pub record World (F : Type 0) : Type 0 where
  pub index : CodebaseIndex
  pub files : F

pub data Reply : Type 0 where
  resource_list tool_list : Reply
  spec_document agent_guide : Text → Reply
  text_content : Text → Reply

abbrev pub Handled : Type 0 → Type 0
Handled F = Option (Result McpError Reply × World F)

-- `.map_err(f)?` and `.ok_or_else(f)?` in the handler: an error ends the request.
unfoldable pub on_ok :
    {F E A : Type 0} → (E → McpError) → World F → Result E A → (A → Handled F) → Handled F
on_ok f w (err e) k = some (err (f e), w)
on_ok f w (ok a) k = k a

unfoldable pub required : {F A : Type 0} → Text → World F → Option A → (A → Handled F) → Handled F
required missing w none k = some (err (invalid missing), w)
required missing w (some a) k = k a

-- The reply after an analysis, which fails only by a panic.
unfoldable pub replied : {F : Type 0} → (Text → Text) → Option (Text × World F) → Handled F
replied f none = none
replied f (some (text, w)) = some (ok (Reply.text_content (f text)), w)

-- The body of the first definition of a name, if there is one.
unfoldable pub replace_body : Text → Expr → List Expr → Option (List Expr)
unfolding text_eq
replace_body function_name body [] = none
replace_body function_name body (Expr.define name params old exported ∷ es) =
    let rest = replace_body function_name body es in
    if text_eq name function_name
    then some (Expr.define name params body exported ∷ es)
    else elim rest [
      | none ↦ none
      | some replaced ↦ some (Expr.define name params old exported ∷ replaced)
    ]
replace_body function_name body (e ∷ es) = elim (replace_body function_name body es) [
  | none ↦ none
  | some replaced ↦ some (e ∷ replaced)
]

-- The failed results by their fingerprints, as they are inserted into a JSON map.
unfoldable pub failure_map : List TestResult → List (Text × TestResult) → List (Text × TestResult)
unfolding insert
failure_map [] m = m
failure_map (r ∷ rs) m = failure_map rs (if r.passed then m else insert r.fingerprint r m)

module _ {F J S : Type 0} (s : Server F J S) where
  abbrev pub parsed : Text → Text → Outcome (List Expr × Parser)
  parsed content path = parse_source s.host content path []

  unfoldable pub index_parsed :
      Text → ℕ × CodebaseIndex → Outcome (List Expr × Parser) → Option (ℕ × CodebaseIndex)
  unfolding index_exprs
  index_parsed path (count, index) (Outcome.ok (exprs, _)) =
      let (more, index') = index_exprs s.hash path exprs index in some (count + more, index')
  index_parsed path (count, index) (Outcome.err _) = some (count, index)
  index_parsed path (count, index) Outcome.panic = none
  index_parsed path (count, index) Outcome.out_of_fuel = none

  -- A file that cannot be read or parsed is passed over.
  unfoldable pub analyze_file : F → Text → ℕ × CodebaseIndex → Option (ℕ × CodebaseIndex)
  unfolding index_parsed parse_source
  analyze_file files path state = elim (s.read_to_string files path) [
    | err _ ↦ some state
    | ok content ↦ index_parsed path state (parsed content path)
  ]

  unfoldable pub analyze_files : F → List Text → ℕ × CodebaseIndex → Option (ℕ × CodebaseIndex)
  unfolding analyze_file
  analyze_files files [] state = some state
  analyze_files files (p ∷ ps) state = elim (analyze_file files p state) [
    | none ↦ none
    | some state' ↦ analyze_files files ps state'
  ]

  unfoldable pub analyze_path : Text → World F → Option (Text × World F)
  unfolding analyze_files print_decimal
  analyze_path path w = elim (analyze_files w.files (s.llm_files w.files path) (0, w.index)) [
    | none ↦ none
    | some (count, index) ↦ some (
      codes "Indexed "
          ++ (print_decimal count
              ++ (codes " functions and "
                  ++ (print_decimal (length (s.listing.shape_keys index)) ++ codes " shapes"))),
      record w { index = index },
    )
  ]

  unfoldable pub diagnostics : Outcome (List Expr × Parser) → World F → Handled F
  unfolding error_text
  diagnostics (Outcome.ok _) w = some (ok (Reply.text_content (codes "No errors found")), w)
  diagnostics (Outcome.err e) w =
      some (ok (Reply.text_content (codes "Error: " ++ error_text e)), w)
  diagnostics Outcome.panic w = none
  diagnostics Outcome.out_of_fuel w = none

  unfoldable pub get_diagnostics : Text → World F → Handled F
  unfolding on_ok diagnostics parse_source
  get_diagnostics path w =
      on_ok internal w (s.read_to_string w.files path)
        λ content. diagnostics (parsed content path) w

  abbrev pub joined : Option (Result Text TestReport) → Result Text TestReport
  joined none = err (codes "task panicked")
  joined (some r) = r

  -- The run stands in a task of its own, so that its panic is an error of the request. The work directory
  -- that it makes and removes is not among the files.
  unfoldable pub run_symbol_tests : Text → Option Text → World F → Handled F
  unfolding run_tests on_ok failure_map
  run_symbol_tests path test_data_dir w =
      on_ok internal w (joined (run_tests s.suite path test_data_dir [])) λ report.
        some (ok (Reply.text_content (s.report_text report (failure_map report.results []))), w)

  unfoldable pub print_all : List Expr → Text
  unfolding print
  print_all [] = []
  print_all (e ∷ es) = print s.show_float 0 e ++ (codes "\n\n" ++ print_all es)

  -- `format!("{}\n", new_content.trim_end())`
  unfoldable pub file_content : List Expr → Text
  unfolding print_all drop_end is_whitespace
  file_content exprs = drop_end is_whitespace (print_all exprs) ++ codes "\n"

  -- The written file is analyzed again.
  unfoldable pub after_write : Text → Text → World F → Handled F
  unfolding analyze_path replied
  after_write function_name path w =
      replied (λ _. codes "Successfully patched function: " ++ function_name) (analyze_path path w)

  unfoldable pub write_back : Text → Text → Option (List Expr) → World F → Handled F
  unfolding file_content on_ok after_write
  write_back function_name path none w =
      some (err (internal (codes "Function definition not found in parsed source file")), w)
  write_back function_name path (some exprs) w =
      let (files, written) = s.write w.files path (file_content exprs) in
      let w' : World F = record w { files = files } in
      on_ok internal w' written λ _. after_write function_name path w'

  unfoldable pub patch_parsed :
      Text → Expr → Text → Outcome (List Expr × Parser) → World F → Handled F
  unfolding replace_body write_back error_text
  patch_parsed function_name body path (Outcome.ok (exprs, _)) w =
      write_back function_name path (replace_body function_name body exprs) w
  patch_parsed function_name body path (Outcome.err e) w =
      some (err (internal (codes "Parse error: " ++ error_text e)), w)
  patch_parsed function_name body path Outcome.panic w = none
  patch_parsed function_name body path Outcome.out_of_fuel w = none

  unfoldable pub patch_started : Text → Expr → Text → Outcome Parser → World F → Handled F
  unfolding patch_parsed parse_module error_text
  patch_started function_name body path (Outcome.ok parser) w =
      patch_parsed function_name body path (parse_module s.host parser) w
  patch_started function_name body path (Outcome.err e) w =
      some (err (internal (codes "Parse init error: " ++ error_text e)), w)
  patch_started function_name body path Outcome.panic w = none
  patch_started function_name body path Outcome.out_of_fuel w = none

  unfoldable pub patch_file : Text → Expr → Text → World F → Handled F
  unfolding on_ok patch_started new_parser new_lexer
  patch_file function_name body path w = on_ok internal w (s.read_to_string w.files path) λ content.
      patch_started function_name body path (new_parser s.host (new_lexer content) path) w

  unfoldable pub patch_symbol : Text → Expr → Option Text → World F → Handled F
  unfolding on_ok resolve_function patch_file
  patch_symbol function_name body path w =
      on_ok (λ e. invalid (s.resolve_text e)) w
        (resolve_function s.canonicalize function_name path w.index)
        λ meta. patch_file function_name body meta.path w
