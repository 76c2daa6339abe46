-- ===== src/Testing/Runner.antt =====
-- src/testing/mod.rs: `TestReport`, `parse_module` and `run_tests`. A result that is `none` is a panic.
-- `canonicalize`, `temp_dir` with the process id and `create_dir_all` are parameters. The work directory,
-- which is made for the run and removed at its end, is not part of any state: what is written to it is
-- only seen in the results of the compiler, the linker and the tests.
use llmlang.Prelude.{
  ℕ, ◌+◌, ◌==◌, Bool, Text, codes, List, [], ◌∷◌, ◌++◌, Option, none, some, length, if◌then◌else◌,
}
use llmlang.Ast.{Expr}
use llmlang.Error.{Result, ok, err, map_err}
use llmlang.Parser.{parse_source}
use llmlang.Testing.Discovery.{DiscoveredTest, discover_tests}
use llmlang.Testing.Process.{TestResult, Command, Output, run_single_test}
use llmlang.Testing.Harness.{Backend, error_text, parse_errors, compile_harness}

pub record TestReport : Type 0 where
  pub file : Text
  pub total : ℕ
  pub passed : ℕ
  pub failed : ℕ
  pub results : List TestResult

unfoldable pub success : TestReport → Bool
success report = report.failed == 0

-- What the run of a suite uses.
pub record Suite (S : Type 0) : Type 0 where
  pub backend : Backend S
  pub hash : Text → Text
  pub read_to_string : Text → Result Text Text
  pub parent : Text → Option Text
  pub work_dir : Text
  pub create_dir_all : Text → Result Text (Unit {0})
  pub spawn : Command → Result Text Output

unfoldable pub count_result : TestResult → TestReport → TestReport
count_result res report =
    if res.passed
    then record report { passed = report.passed + 1; results = report.results ++ (res ∷ []) }
    else record report { failed = report.failed + 1; results = report.results ++ (res ∷ []) }

unfoldable pub new_report : Text → List DiscoveredTest → TestReport
new_report source_path tests = record {
  file = source_path;
  total = length tests;
  passed = 0;
  failed = 0;
  results = [];
}

module _ {S : Type 0} (s : Suite S) where
  -- The loop over the tests, with the binary and the data directory.
  unfoldable pub run_each : Text → Text → List DiscoveredTest → TestReport → TestReport
  unfolding count_result
  run_each bin data_dir [] report = report
  run_each bin data_dir (t ∷ ts) report =
      run_each bin data_dir ts (count_result (run_single_test s.spawn bin t data_dir) report)

  -- The absolute path, so that a test does not depend on the current directory.
  abbrev pub canonical : Text → Text
  canonical data_dir = elim (s.backend.system.canonicalize data_dir) [
    | none ↦ data_dir
    | some p ↦ p
  ]

  abbrev pub parent_paths : Text → List Text
  parent_paths source_path = elim (s.parent source_path) [ none ↦ [] | some dir ↦ dir ∷ [] ]

  unfoldable pub parse_file : Text → List Text → Option (Result Text (List Expr))
  unfolding parse_errors parse_source error_text
  parse_file source_path import_paths = elim (s.read_to_string source_path) [
    | err e ↦ some (err (codes "E999: Could not read file " ++ (source_path ++ (codes ": " ++ e))))
    | ok input ↦
        parse_errors error_text
          (parse_source s.backend.host input source_path (import_paths ++ parent_paths source_path))
  ]

  unfoldable pub data_dir_of : Option Text → Text
  data_dir_of none = canonical (codes "./tests/data")
  data_dir_of (some dir) = canonical dir

  abbrev pub some_ok :
      {A : Type 0}
      → Option (Result Text A)
      → (A → Option (Result Text TestReport))
      → Option (Result Text TestReport)
  some_ok none f = none
  some_ok (some (err e)) f = some (err e)
  some_ok (some (ok a)) f = f a

  abbrev pub make_work_dir : Option (Result Text (Unit {0}))
  make_work_dir =
      some (map_err (λ e. codes "cannot create work dir: " ++ e) (s.create_dir_all s.work_dir))

  unfoldable pub run_binary :
      Text → Option Text → List DiscoveredTest → Text → Option (Result Text TestReport)
  unfolding new_report run_each data_dir_of
  run_binary source_path test_data_dir tests bin =
      some (ok (run_each bin (data_dir_of test_data_dir) tests (new_report source_path tests)))

  unfoldable pub compile_and_run :
      Text
      → Option Text
      → List Text
      → List DiscoveredTest
      → List Expr
      → Option (Result Text TestReport)
  unfolding compile_harness run_binary
  compile_and_run source_path test_data_dir import_paths tests production =
      some_ok (compile_harness s.backend source_path production tests import_paths s.work_dir)
        (run_binary source_path test_data_dir tests)

  -- What was discovered is compiled and run, unless there is no test.
  unfoldable pub run_discovered :
      Text
      → Option Text
      → List Text
      → List DiscoveredTest × List Expr
      → Option (Result Text TestReport)
  unfolding new_report compile_and_run
  run_discovered source_path test_data_dir import_paths ([], production) =
      some (ok (new_report source_path []))
  run_discovered source_path test_data_dir import_paths (t ∷ ts, production) =
      some_ok make_work_dir
        λ _. compile_and_run source_path test_data_dir import_paths (t ∷ ts) production

  unfoldable pub discover_and_run :
      Text → Option Text → List Text → List Expr → Option (Result Text TestReport)
  unfolding discover_tests run_discovered
  discover_and_run source_path test_data_dir import_paths expressions =
      some_ok (some (discover_tests s.hash expressions))
        (run_discovered source_path test_data_dir import_paths)

  unfoldable pub run_tests : Text → Option Text → List Text → Option (Result Text TestReport)
  unfolding parse_file discover_and_run
  run_tests source_path test_data_dir import_paths =
      some_ok (parse_file source_path import_paths)
        (discover_and_run source_path test_data_dir import_paths)
