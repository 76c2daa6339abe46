-- ===== src/Cli/Forms.antt =====
-- src/main.rs `run_test_command`: the two forms of an option with its value.
use llmlang.Prelude.{◌≡◌, refl, Text, codes, text_eq, List, [], ◌∷◌, ◌++◌, strip_prefix}
use llmlang.Cli.TestArgs.{TestOptions, put_value, put_other, parse_test_options}

-- Whatever options stand in front and behind, the value of `--format` and of `--test-data-dir` is read
-- in the same way from the next argument and from behind `=`.
pub parse_test_options-forms :
    (v : Text) (rest : List Text) (o : TestOptions)
    → (parse_test_options (codes "--format" ∷ v ∷ rest) o
        ≡ parse_test_options ((codes "--format=" ++ v) ∷ rest) o)
      × (parse_test_options (codes "--test-data-dir" ∷ v ∷ rest) o
          ≡ parse_test_options ((codes "--test-data-dir=" ++ v) ∷ rest) o)
unfolding parse_test_options put_value put_other text_eq strip_prefix
parse_test_options-forms v [] o = (refl, refl)
parse_test_options-forms v (a ∷ rest) o = (refl, refl)
