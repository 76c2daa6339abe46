-- ===== src/Cli/TestArgs.antt =====
-- src/main.rs: `run_test_command`. The file system and the runs of the suites are parameters; what is
-- printed of the reports is left out.
use llmlang.Prelude.{
  ℕ, ◌+◌, ltb, Bool, true, false, not, ◌&&◌, ◌||◌, Text, codes, text_eq, List, [], ◌∷◌, ◌++◌,
  Option, none, some, if◌then◌else◌, strip_prefix, starts_with,
}
use llmlang.Error.{Result, ok, err}
use llmlang.Index.{sort}
use llmlang.Testing.{TestReport}
use llmlang.Cli.Args.{Ended, exit, panicked}

pub record TestOptions : Type 0 where
  pub path : Option Text
  pub test_data_dir : Option Text
  pub format : Text
  pub import_paths : List Text

unfoldable pub no_test_options : TestOptions
no_test_options = record {
  path = none;
  test_data_dir = none;
  format = codes "text";
  import_paths = [];
}

abbrev pub wants_value : Text → Bool
wants_value a =
    text_eq a (codes "--test-data-dir") || text_eq a (codes "--format") || text_eq a (codes "-I")

unfoldable pub missing_value : Text → Text
unfolding text_eq
missing_value a =
    if text_eq a (codes "--test-data-dir")
    then codes "--test-data-dir requires a value"
    else if text_eq a (codes "--format")
    then codes "--format requires a value (text or json)"
    else codes "-I requires a path"

unfoldable pub put_value : Text → Text → TestOptions → TestOptions
unfolding text_eq
put_value a v o =
    if text_eq a (codes "--test-data-dir")
    then record o { test_data_dir = some v }
    else if text_eq a (codes "--format")
    then record o { format = v }
    else record o { import_paths = o.import_paths ++ (v ∷ []) }

-- An argument of another form: with its value behind `=`, the path, or unknown.
unfoldable pub put_other : Text → TestOptions → Result Text TestOptions
unfolding starts_with
put_other a o = elim (strip_prefix (codes "--test-data-dir=") a) [
  | some v ↦ ok (record o { test_data_dir = some v })
  | none ↦ elim (strip_prefix (codes "--format=") a) [
    | some v ↦ ok (record o { format = v })
    | none ↦
        if starts_with (codes "-") a
        then err (codes "Unknown argument: " ++ a)
        else ok (record o { path = some a })
  ]
]

unfoldable pub parse_test_options : List Text → TestOptions → Result Text TestOptions
unfolding text_eq put_value put_other missing_value
parse_test_options [] o = ok o
parse_test_options (a ∷ []) o = if wants_value a then err (missing_value a) else put_other a o
parse_test_options (a ∷ v ∷ rest) o =
    let valued = parse_test_options rest (put_value a v o) in
    let other : Result Text TestOptions = elim (put_other a o) [
      | ok o' ↦ parse_test_options (v ∷ rest) o'
      | err e ↦ err e
    ] in
    if wants_value a then valued else other

-- `metadata` tells whether a path is a directory; `walk` lists its files with the extension `llm`.
pub record TestHost : Type 0 where
  pub metadata : Text → Result Text Bool
  pub walk : Text → List Text
  pub run_tests : Text → Option Text → List Text → Option (Result Text TestReport)

unfoldable pub total_failed : List TestReport → ℕ
total_failed [] = 0
total_failed (r ∷ rs) = r.failed + total_failed rs

module _ (h : TestHost) where
  unfoldable pub target_files : Text → Bool → List Text
  unfolding sort
  target_files path true = sort (h.walk path)
  target_files path false = path ∷ []

  -- The reports of the files, up to the first one that fails.
  unfoldable pub run_files : TestOptions → List Text → Option (Result Text (List TestReport))
  run_files o [] = some (ok [])
  run_files o (file ∷ files) = elim (h.run_tests file o.test_data_dir o.import_paths) [
    | none ↦ none
    | some (err e) ↦ some (err e)
    | some (ok report) ↦ elim (run_files o files) [
      | none ↦ none
      | some (err e) ↦ some (err e)
      | some (ok reports) ↦ some (ok (report ∷ reports))
    ]
  ]

  unfoldable pub ended : Option (Result Text (List TestReport)) → Ended
  unfolding total_failed
  ended none = panicked
  ended (some (err e)) = exit 1
  ended (some (ok reports)) = exit (if ltb 0 (total_failed reports) then 1 else 0)

  unfoldable pub run_path : TestOptions → Text → Ended
  unfolding target_files run_files ended
  run_path o path = elim (h.metadata path) [
    | err e ↦ exit 1
    | ok is_dir ↦ ended (run_files o (target_files path is_dir))
  ]

  unfoldable pub run_options : TestOptions → Ended
  unfolding text_eq run_path
  run_options o =
      if not (text_eq o.format (codes "text")) && not (text_eq o.format (codes "json"))
      then exit 1
      else elim o.path [ none ↦ exit 1 | some path ↦ run_path o path ]

  unfoldable pub run_test_command : List Text → Ended
  unfolding parse_test_options no_test_options run_options
  run_test_command args = elim (parse_test_options args no_test_options) [
    | err e ↦ exit 1
    | ok o ↦ run_options o
  ]
