-- ===== src/Tests/Running.antt =====
-- The run of a test suite, the two builds and the signature file at concrete inputs.
use llmlang.Prelude.{
  ℕ, ◌+◌, ◌≡◌, refl, ◌↔◌, true, false, Text, codes, List, [], ◌∷◌, ◌++◌, none, some, map, length,
  All, behind_last, before_first, strip_prefix, starts_with, split_once, drop_while, drop_end,
  parse_i64, text_eq, print_decimal, lookup,
}
use native.Mathlib.Omega.{arith}
use llmlang.Prelude.Int.{pos}
use llmlang.Error.{Result, ok, err}
use llmlang.Ast.{Expr}
use llmlang.Lexer.{is_whitespace}
use llmlang.Parser.{Host, exported}
use llmlang.Codegen.{Generator, gen_module, gen_harness}
use llmlang.Testing.{
  DiscoveredTest, discover_tests, TestReport, Command, Output, Suite, System, result_marker,
  test_command, reported, run_single_test, run_tests, parse_file, success, trim, timed_result,
  timed_parts, payload_parts, parse_payload, parse_result, message_of, compile_harness,
}
use llmlang.Testing.Protocol.{result_block, run_single_test-result_block}
use llmlang.Testing.Counts.{passes, identity_of_result, identity_of_test, run_tests-counts}
use llmlang.Testing.Stripped.{gen_module-discovered}
use llmlang.Parser.{
  fail, peek, modify, push_scope, pop_scope, add_to, add_variable, drop_from, drop_variable,
  resolve_in, resolve_from, resolve_variable, resolve_shape, resolve_shape_name, identifier_of,
  string_of, consume, expect_identifier, expect_string, new_parser, lines, words_from, words,
  add_func, add_shape, add_line, add_lines, read_signature, find_named, built_in, search_paths,
  first_existing, beside, find_signature, fs_resolve, wrapping_mul, strip_metadata, misplaced_test,
  route_count, module_name_of, imported, generate, load_signature, parse_param, parse_params,
  parse_fields, parse_many, parse_route, parse_routes, unary, binary, ternary, name_expr, parse_let,
  parse_define, parse_shape, parse_new, parse_get, parse_set, parse_metadata, parse_money,
  parse_import, parse_apply, parse_unpack, parse_map, parse_time_now, parse_time_set, parse_otel,
  parse_router, parse_rest, parse_token, parse_expr, drain, parse_all, parse_module, parse_source,
}
use llmlang.Lexer.{
  skip_from, skip_whitespace, parse_or, apply_token, lex_arity_token, trap_token,
  lex_trap_or_debruijn, number_token, lex_number, lex_identifier, unescape, string_from, lex_string,
  skip_comment, behind_comment, lex_slash, invalid_char, lex_long, lex_char, lex_at, next_within,
  next_token, new_lexer, is_letter, is_alphanumeric, single_tokens, find_single, keywords,
  word_token,
}
use llmlang.Verify.{
  is_moved, is_borrowed, infer_shape, unknown_identifier, access, from_top, on_expand, has_field,
  check_field, check_shape, check_inferred, check_mapped, check_function, check_callee, is_operator,
  check_operator, check_identifier, push, pop_variable, check_let, state_eq, states_eq,
  check_branches, is_captured, captured_states, captured_shapes, captured, check_trap, check_move,
  verify_expr, verify_args, register, register_all, enter_params, verify_body, verify_bodies,
  verify_module,
}
use llmlang.Testing.{
  takes_parameters, fingerprint_of, add_test, discover_expr, debug_code, result_of, dispatch_lines,
  all_dispatch_lines, generate_harness_main, above, or_above, first_wrapper, search_wrapper,
  find_llm_clang, is_main, without_main, error_text, parse_errors, harness_exprs, build_harness,
  count_result, new_report, run_each, data_dir_of, run_binary, compile_and_run, run_discovered,
  discover_and_run,
}
use llmlang.Prelude.{
  contains_text, decimal_from, all_digits, parse_digits, parse_usize, digits_onto, print_hex,
  insert, contains_key,
}
use llmlang.Codegen.{gen_spanned, gen_otel, gen_item, gen_harness_item}
use llmlang.Lexer.{span}
use llmlang.Prelude.{join}

abbrev alone : DiscoveredTest
alone = record {
  name = codes "t";
  fingerprint = codes "hi";
  define = Expr.define (codes "t") [] (Expr.integer (pos 1)) false;
}

-- The test writes a line of its own in front of the block.
abbrev printed : Command → Result Text Output
printed c = ok (record {
  stdout = codes "__LLMTEST__:x\n" ++ (result_marker ++ result_block 1 27 [] (codes "\n"));
  stderr = [];
  code = some (pos 0);
})

run_single_test-result_block_example :
    run_single_test printed (codes "bin") alone (codes "data") ≡ record {
      name = alone.name;
      passed = true;
      duration_ns = pos 27;
      panic_message = none;
      fingerprint = alone.fingerprint;
    }
unfolding behind_last before_first strip_prefix starts_with print_decimal
run_single_test-result_block_example =
    run_single_test-result_block printed (codes "bin") (codes "data") (codes "__LLMTEST__:x\n")
      alone 1 27 [] (codes "\n")
      (record {
        stdout = codes "__LLMTEST__:x\n" ++ (result_marker ++ result_block 1 27 [] (codes "\n"));
        stderr = [];
        code = some (pos 0);
      })
      refl refl (omega arith) (omega arith) refl refl

abbrev pub no_files : Host
no_files = record {
  alphanumeric = λ c. false;
  resolve = λ name paths filename. err (codes "E017");
  to_money = λ f. pos 0;
}

-- A code generator that counts the functions.
abbrev counting : Generator ℕ
counting = record {
  gen_shape = λ name fields exported n. n;
  gen_function = λ name params body exported span n. ok (n + 1);
  gen_import = λ module_name symbol arity n. n;
}

abbrev bare_system : System
bare_system = record {
  var = λ name. some (codes "/bin/llm-clang");
  is_file = λ p. true;
  current_exe = none;
  current_dir = none;
  canonicalize = λ p. none;
  ancestors = λ p. [];
  join = λ a b. a ++ (codes "/" ++ b);
}

abbrev tested_source : Text
tested_source = codes ": f 2\nM \"test\" \"one\" : t 1\n"

abbrev pub suite : Suite ℕ
suite = record {
  backend = record {
    host = no_files;
    system = bare_system;
    generator = counting;
    new_codegen = λ path. 0;
    analyze_module_types = λ es n. n;
    emit_to_file = λ path n. ok tt;
    link = λ wrapper obj paths bin. ok tt;
  };
  hash = λ t. codes "h" ++ t;
  read_to_string = λ path. ok tested_source;
  parent = λ path. none;
  work_dir = codes "/tmp";
  create_dir_all = λ dir. ok tt;
  spawn = printed;
}

abbrev one_passed : TestReport
one_passed = record {
  file = codes "a.llm";
  total = 1;
  passed = 1;
  failed = 0;
  results = reported alone true (pos 27) [] ∷ [];
}

suite_run : run_tests suite (codes "a.llm") none [] ≡ some (ok one_passed)
unfolding fail peek modify push_scope pop_scope add_to add_variable drop_from drop_variable
    resolve_in resolve_from resolve_variable resolve_shape resolve_shape_name identifier_of
    string_of consume expect_identifier expect_string new_parser lines words_from words add_func
    add_shape add_line add_lines read_signature find_named built_in search_paths first_existing
    beside find_signature fs_resolve wrapping_mul strip_metadata misplaced_test exported route_count
    module_name_of imported generate load_signature parse_param parse_params parse_fields parse_many
    parse_route parse_routes unary binary ternary name_expr parse_let parse_define parse_shape
    parse_new parse_get parse_set parse_metadata parse_money parse_import parse_apply parse_unpack
    parse_map parse_time_now parse_time_set parse_otel parse_router parse_rest parse_token
    parse_expr drain parse_all parse_module parse_source span skip_from skip_whitespace parse_or
    apply_token lex_arity_token trap_token lex_trap_or_debruijn number_token lex_number
    lex_identifier unescape string_from lex_string skip_comment behind_comment lex_slash
    invalid_char lex_long lex_char lex_at next_within next_token new_lexer is_whitespace is_letter
    is_alphanumeric single_tokens find_single keywords word_token is_moved is_borrowed infer_shape
    unknown_identifier access from_top on_expand has_field check_field check_shape check_inferred
    check_mapped check_function check_callee is_operator check_operator check_identifier push
    pop_variable check_let state_eq states_eq check_branches is_captured captured_states
    captured_shapes captured check_trap check_move verify_expr verify_args register register_all
    enter_params verify_body verify_bodies verify_module takes_parameters fingerprint_of add_test
    discover_expr discover_tests trim message_of timed_result timed_parts payload_parts
    parse_payload parse_result debug_code reported result_of test_command run_single_test
    dispatch_lines all_dispatch_lines generate_harness_main above or_above first_wrapper
    search_wrapper find_llm_clang is_main without_main error_text parse_errors harness_exprs
    build_harness compile_harness success count_result new_report run_each parse_file data_dir_of
    run_binary compile_and_run run_discovered discover_and_run run_tests strip_prefix starts_with
    behind_last before_first split_once contains_text drop_while drop_end join decimal_from
    all_digits parse_digits parse_usize parse_i64 digits_onto print_decimal print_hex text_eq lookup
    insert contains_key gen_spanned gen_otel gen_item gen_module gen_harness_item gen_harness
suite_run = refl

run_tests-counts_example :
    (exprs : List Expr) × (tests : List DiscoveredTest) × (production : List Expr) × (parse_file
        suite
        (codes "a.llm")
        []
      ≡ some (ok exprs))
    × (discover_tests suite.hash exprs ≡ ok (tests, production))
    × (one_passed.file ≡ codes "a.llm")
    × (one_passed.total ≡ length tests)
    × (map identity_of_result one_passed.results ≡ map identity_of_test tests)
    × (one_passed.passed ≡ passes one_passed.results)
    × (one_passed.passed + one_passed.failed ≡ one_passed.total)
    × ((success one_passed ≡ true) ↔ All (λ r. r.passed ≡ true) one_passed.results)
run_tests-counts_example = run_tests-counts suite (codes "a.llm") none [] one_passed suite_run

abbrev tagged : List Expr
tagged =
    Expr.metadata (Expr.string (codes "test")) (Expr.string (codes "one")) alone.define
    ∷ Expr.define (codes "f") [] (Expr.integer (pos 2)) false
    ∷ []

abbrev untagged : List Expr
untagged = Expr.define (codes "f") [] (Expr.integer (pos 2)) false ∷ []

tagged_discovered : discover_tests (λ t. codes "h" ++ t) tagged ≡ ok (alone ∷ [], untagged)
unfolding discover_tests
tagged_discovered = refl

gen_module-discovered_example :
    (gen_module counting tagged 0 ≡ gen_module counting untagged 0)
    × (gen_harness counting untagged 0 ≡ gen_module counting untagged 0)
gen_module-discovered_example =
    gen_module-discovered counting (λ t. codes "h" ++ t) tagged (alone ∷ []) untagged 0
      tagged_discovered
