-- ===== src/Tests/Commands.antt =====
-- The command line at concrete arguments.
use llmlang.Prelude.{
  ℕ, ◌+◌, ◌≡◌, refl, ◌↔◌, inl, ap, if◌then◌else◌, true, false, Text, codes, List, [], ◌∷◌, some,
  text_eq, strip_prefix, starts_with, strip_suffix, decimal_from, all_digits, parse_digits,
  parse_usize, digits_onto, print_decimal, lookup, insert, contains_key,
}
use llmlang.Error.{ok, err}
use llmlang.Lexer.{is_whitespace, span}
use llmlang.Parser.{exported}
use llmlang.Analysis.{prune_dead_code}
use llmlang.Codegen.{Generator, gen_spanned, gen_otel, gen_item, gen_module}
use llmlang.Cli.{
  Options, Ended, exit, TestHost, TestOptions, no_test_options, no_options, default_config,
  parse_test_options, run_test_command, Run, Output, Compiler, main, parse_options, usize_or,
  with_config, set_threads, set_queue, set_parallel, set_value, set_flag, sig_path, write_ir,
  write_object, write_module, write_outputs, generated, start, verified, pruned, parsed,
  compile_file, compile_options,
}
use llmlang.Cli.Forms.{parse_test_options-forms}
use llmlang.Cli.Verdict.{Succeeds, run_test_command-exit}
use llmlang.Cli.Outputs.{paths, Distinct, NotEmpty}
use llmlang.Cli.Written.{main-Distinct, main-Writes}
use llmlang.Cli.Accepted.{Accepted, main-Accepted}
use llmlang.Tests.Running.{no_files}
use llmlang.Lexer.{is_whitespace}
use llmlang.Parser.{
  fail, peek, modify, push_scope, pop_scope, add_to, add_variable, drop_from, drop_variable,
  resolve_in, resolve_from, resolve_variable, resolve_shape, resolve_shape_name, identifier_of,
  string_of, consume, expect_identifier, expect_string, new_parser, lines, words_from, words,
  add_func, add_shape, add_line, add_lines, read_signature, find_named, built_in, search_paths,
  first_existing, beside, find_signature, fs_resolve, wrapping_mul, strip_metadata, misplaced_test,
  route_count, module_name_of, imported, generate, load_signature, parse_param, parse_params,
  parse_fields, parse_many, parse_route, parse_routes, unary, binary, ternary, name_expr, parse_let,
  parse_define, parse_shape, parse_new, parse_get, parse_set, parse_metadata, parse_money,
  parse_import, parse_apply, parse_unpack, parse_map, parse_time_now, parse_time_set, parse_otel,
  parse_router, parse_rest, parse_token, parse_expr, drain, parse_all, parse_module, parse_source,
}
use llmlang.Lexer.{
  skip_from, skip_whitespace, parse_or, apply_token, lex_arity_token, trap_token,
  lex_trap_or_debruijn, number_token, lex_number, lex_identifier, unescape, string_from, lex_string,
  skip_comment, behind_comment, lex_slash, invalid_char, lex_long, lex_char, lex_at, next_within,
  next_token, new_lexer, is_letter, is_alphanumeric, single_tokens, find_single, keywords,
  word_token,
}
use llmlang.Verify.{
  is_moved, is_borrowed, infer_shape, unknown_identifier, access, from_top, on_expand, has_field,
  check_field, check_shape, check_inferred, check_mapped, check_function, check_callee, is_operator,
  check_operator, check_identifier, push, pop_variable, check_let, state_eq, states_eq,
  check_branches, is_captured, captured_states, captured_shapes, captured, check_trap, check_move,
  verify_expr, verify_args, register, register_all, enter_params, verify_body, verify_bodies,
  verify_module,
}
use llmlang.Lexer.{span}

parse_test_options-forms_example :
    (parse_test_options (codes "--format" ∷ codes "json" ∷ codes "dir" ∷ []) no_test_options
      ≡ parse_test_options (codes "--format=json" ∷ codes "dir" ∷ []) no_test_options)
    × (parse_test_options
          (codes "--test-data-dir" ∷ codes "json" ∷ codes "dir" ∷ [])
          no_test_options
        ≡ parse_test_options (codes "--test-data-dir=json" ∷ codes "dir" ∷ []) no_test_options)
parse_test_options-forms_example =
    parse_test_options-forms (codes "json") (codes "dir" ∷ []) no_test_options

-- A directory of two files, in one of which a test fails.
abbrev two_files : TestHost
two_files = record {
  metadata = λ path. ok true;
  walk = λ path. codes "dir/b.llm" ∷ codes "dir/a.llm" ∷ [];
  run_tests = λ file data_dir paths. some (
      ok (record {
        file = file;
        total = 1;
        passed = 0;
        failed = if text_eq file (codes "dir/a.llm") then 0 else 1;
        results = [];
      }));
}

run_test_command-exit_example : (run_test_command two_files (codes "dir" ∷ []) ≡ exit 0) ↔ (
    (o : TestOptions) × (parse_test_options (codes "dir" ∷ []) no_test_options ≡ ok o)
    × Succeeds two_files o)
run_test_command-exit_example = run_test_command-exit two_files (codes "dir" ∷ [])

abbrev counted : Generator ℕ
counted = record {
  gen_shape = λ name fields exported n. n;
  gen_function = λ name params body exported span n. ok (n + 1);
  gen_import = λ module_name symbol arity n. n;
}

abbrev compiler : Compiler ℕ
compiler = record {
  host = no_files;
  read_config = λ path. err path;
  read_to_string = λ path. ok (codes ": main 2\n: unused 3\n");
  new_codegen = λ path config. 0;
  analyze_module_types = λ es n. n;
  generator = counted;
  has_exports = λ n. true;
  emit_signature_file = λ n. codes ": main 0\n";
  print_to_string = λ n. codes "define";
  writes = λ path. true;
  emits = λ path n. true;
}

abbrev object_args : List Text
object_args = codes "a.llm" ∷ codes "-o" ∷ codes "a.o" ∷ []

abbrev object_options : Options
object_options = record {
  input_path = some (codes "a.llm");
  output_path = some (codes "a.o");
  emit_ir = false;
  emit_sig = false;
  config = record { parallel_threshold = 50; max_threads = 8; queue_size = 64 };
  import_paths = [];
}

abbrev no_tests : List Text → Ended
no_tests args = exit 1

object_read : parse_options compiler.read_config object_args no_options ≡ ok object_options
unfolding usize_or with_config set_threads set_queue set_parallel set_value set_flag parse_options
    default_config no_options starts_with strip_prefix text_eq
object_read = refl

-- The function that `main` does not use is not generated.
object_run : main compiler no_tests object_args ≡ record {
  ended = exit 0;
  outputs =
      Output.written (codes "a.llmi") (codes ": main 0\n") ∷ Output.emitted (codes "a.o") 1 ∷ [];
}
unfolding fail peek modify push_scope pop_scope add_to add_variable drop_from drop_variable
    resolve_in resolve_from resolve_variable resolve_shape resolve_shape_name identifier_of
    string_of consume expect_identifier expect_string new_parser lines words_from words add_func
    add_shape add_line add_lines read_signature find_named built_in search_paths first_existing
    beside find_signature fs_resolve wrapping_mul strip_metadata misplaced_test exported route_count
    module_name_of imported generate load_signature parse_param parse_params parse_fields parse_many
    parse_route parse_routes unary binary ternary name_expr parse_let parse_define parse_shape
    parse_new parse_get parse_set parse_metadata parse_money parse_import parse_apply parse_unpack
    parse_map parse_time_now parse_time_set parse_otel parse_router parse_rest parse_token
    parse_expr drain parse_all parse_module parse_source span skip_from skip_whitespace parse_or
    apply_token lex_arity_token trap_token lex_trap_or_debruijn number_token lex_number
    lex_identifier unescape string_from lex_string skip_comment behind_comment lex_slash
    invalid_char lex_long lex_char lex_at next_within next_token new_lexer is_whitespace is_letter
    is_alphanumeric single_tokens find_single keywords word_token is_moved is_borrowed infer_shape
    unknown_identifier access from_top on_expand has_field check_field check_shape check_inferred
    check_mapped check_function check_callee is_operator check_operator check_identifier push
    pop_variable check_let state_eq states_eq check_branches is_captured captured_states
    captured_shapes captured check_trap check_move verify_expr verify_args register register_all
    enter_params verify_body verify_bodies verify_module strip_prefix starts_with strip_suffix
    decimal_from all_digits parse_digits parse_usize digits_onto print_decimal text_eq lookup insert
    contains_key gen_spanned gen_otel gen_item gen_module usize_or with_config set_threads set_queue
    set_parallel set_value set_flag parse_options default_config no_options sig_path write_ir
    write_object write_module write_outputs generated start verified pruned parsed compile_file
    compile_options main prune_dead_code
object_run = refl

main-Distinct_example : Distinct (paths (main compiler no_tests object_args).outputs)
main-Distinct_example = main-Distinct compiler no_tests object_args

main-Writes_example : NotEmpty (main compiler no_tests object_args).outputs
unfolding text_eq
main-Writes_example =
    main-Writes compiler no_tests (codes "a.llm") (codes "-o" ∷ codes "a.o" ∷ []) object_options
      refl object_read (ap (λ (r : Run ℕ). r.ended) object_run)

main-Accepted_example :
    Accepted compiler (parse_options compiler.read_config object_args no_options)
unfolding text_eq
main-Accepted_example =
    main-Accepted compiler no_tests (codes "a.llm") (codes "-o" ∷ codes "a.o" ∷ []) refl
      (inl (ap (λ (r : Run ℕ). r.ended) object_run))
