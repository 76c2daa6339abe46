-- ===== src/Testing/Process.antt =====
-- src/testing/mod.rs: `TestResult` and `run_single_test`. Starting a process is a parameter; its output
-- is the text that `from_utf8_lossy` makes of the bytes.
use llmlang.Prelude.{
  ◌||◌, Bool, true, false, Text, codes, text_eq, List, [], ◌∷◌, ◌++◌, Option, none, some,
  if◌then◌else◌, parse_i64, behind_last, before_first, split_once, drop_while, drop_end,
}
use llmlang.Prelude.Int.{ℤ, pos}
use llmlang.Error.{Result, ok, err}
use llmlang.Lexer.{is_whitespace}
use llmlang.Printer.{print_integer}
use llmlang.Testing.Discovery.{DiscoveredTest}

abbrev pub result_marker : Text
result_marker = codes "__LLMTEST__:"

abbrev pub result_end_marker : Text
result_end_marker = codes "__LLMTEST_END__"

pub record TestResult : Type 0 where
  pub name : Text
  pub passed : Bool
  pub duration_ns : ℤ
  pub panic_message : Option Text
  pub fingerprint : Text

-- `std::process::Command`
pub record Command : Type 0 where
  pub program : Text
  pub env : List (Text × Text)
  pub env_remove : List Text

pub record Output : Type 0 where
  pub stdout : Text
  pub stderr : Text
  pub code : Option ℤ

unfoldable pub trim : Text → Text
unfolding drop_while drop_end is_whitespace
trim s = drop_end is_whitespace (drop_while is_whitespace s)

unfoldable pub message_of : Option Text → Text
message_of none = []
message_of (some msg) = msg

unfoldable pub timed_result : Bool → Text → Option Text → Option (Bool × ℤ × Text)
timed_result passed duration msg = elim (parse_i64 (trim duration)) [
  | none ↦ none
  | some duration_ns ↦ some (passed, duration_ns, message_of msg)
]

unfoldable pub timed_parts : Bool → Text × Option Text → Option (Bool × ℤ × Text)
timed_parts passed (duration, msg) = timed_result passed duration msg

unfoldable pub payload_parts : Text × Option Text → Option (Bool × ℤ × Text)
payload_parts (status, none) = none
payload_parts (status, some rest) =
    timed_parts (text_eq (trim status) (codes "1")) (split_once b':' rest)

-- The parts of `payload.splitn(3, ':')`.
unfoldable pub parse_payload : Text → Option (Bool × ℤ × Text)
parse_payload payload = payload_parts (split_once b':' payload)

unfoldable pub parse_result : Text → Option (Bool × ℤ × Text)
parse_result stdout = elim (behind_last result_marker stdout) [
  | none ↦ none
  | some rest ↦ elim (before_first result_end_marker rest) [
    | none ↦ none
    | some payload ↦ parse_payload payload
  ]
]

-- `{:?}` of an `Option<i32>`
unfoldable pub debug_code : Option ℤ → Text
unfolding print_integer
debug_code none = codes "None"
debug_code (some n) = codes "Some(" ++ (print_integer n ++ codes ")")

abbrev pub failed_with : DiscoveredTest → Text → TestResult
failed_with test msg = record {
  name = test.name;
  passed = false;
  duration_ns = pos 0;
  panic_message = some msg;
  fingerprint = test.fingerprint;
}

abbrev pub is_empty : Text → Bool
is_empty [] = true
is_empty (_ ∷ _) = false

unfoldable pub reported : DiscoveredTest → Bool → ℤ → Text → TestResult
reported test passed duration_ns msg = record {
  name = test.name;
  passed = passed;
  duration_ns = duration_ns;
  panic_message = if passed || is_empty msg then none else some msg;
  fingerprint = test.fingerprint;
}

unfoldable pub result_of : DiscoveredTest → Output → TestResult
unfolding parse_result reported debug_code trim
result_of test output = elim (parse_result output.stdout) [
  | some (passed, duration_ns, msg) ↦ reported test passed duration_ns msg
  | none ↦ failed_with test (
      codes "test process terminated without result (exit: "
      ++ (debug_code output.code ++ (codes "): " ++ trim output.stderr)))
]

unfoldable pub test_command : Text → DiscoveredTest → Text → Command
test_command bin test test_data_dir = record {
  program = bin;
  env = (codes "LLM_TEST_NAME", test.name) ∷ (codes "TEST_DATA_DIR", test_data_dir) ∷ [];
  env_remove = codes "LLM_PANIC_MSG" ∷ [];
}

unfoldable pub run_single_test :
    (Command → Result Text Output) → Text → DiscoveredTest → Text → TestResult
unfolding test_command result_of
run_single_test spawn bin test test_data_dir = elim (spawn (test_command bin test test_data_dir)) [
  | err e ↦ failed_with test (codes "failed to spawn test process: " ++ e)
  | ok output ↦ result_of test output
]
