-- ===== src/Tests/Tools.antt =====
-- The tools of the MCP server at concrete inputs.
use llmlang.Index.{internal}
use llmlang.Prelude.{
  ◌⊎◌, ◌↔◌, ℕ, ◌≡◌, refl, inl, inr, Bool, true, false, Text, codes, text_eq, List, [], ◌∷◌, ◌++◌,
  none, some, lookup, ◌+◌,
}
use llmlang.Prelude.Int.{pos}
use llmlang.Error.{ok, err}
use llmlang.Ast.{Expr, Exprs}
use llmlang.Analysis.Rename.{rename}
use llmlang.Testing.{TestResult}
use llmlang.Index.{
  CodebaseIndex, new_index, index_exprs, Listing, callers, same_structure, Server, World,
  handle_method, replace_body, failure_map,
}
use llmlang.Analysis.Mentions.{Mentions}
use llmlang.Index.Listed.{lists}
use llmlang.Index.Callers.{CalledElsewhere, HasBody, callers-index_exprs, same_structure-rename}
use llmlang.Index.Atomic.{FailedWrite, handle_method-error}
use llmlang.Index.Patch.{Replaces, last_failure, replace_body-Replaces, failure_map-last}
use llmlang.Tests.Running.{suite, no_files}
use llmlang.Lexer.{next_token}
use llmlang.Parser.{
  modify, push_scope, pop_scope, identifier_of, consume, expect_identifier, parse_params,
  parse_define, parse_rest, parse_token, parse_expr, drain, parse_all,
}

abbrev plain : Listing
plain = record {
  function_keys = λ index. codes "f" ∷ codes "g" ∷ [];
  shape_keys = λ index. [];
  debug_expr = λ e. [];
  debug_texts = λ ts. [];
}

abbrev hashed : Text → Text
hashed t = codes "h" ++ t

abbrev f_body : Expr
f_body = Expr.apply (Expr.identifier (codes "p")) (Exprs.cons (Expr.integer (pos 1)) Exprs.nil)

abbrev to_q : Text → Text
to_q t = codes "q"

abbrev source : List Expr
source =
    Expr.define (codes "f") [] f_body false
    ∷ Expr.define (codes "g") [] (rename to_q (λ s. s) f_body) false
    ∷ []

abbrev indexed : CodebaseIndex
indexed = (index_exprs hashed (codes "a.llm") source new_index).1

-- `g` calls `q`.
callers-index_exprs_example : (lists (callers plain (codes "q") indexed) (codes "g") ≡ true) ↔ (
    (lists (plain.function_keys indexed) (codes "g") ≡ true)
    × (CalledElsewhere plain (codes "a.llm") (codes "q") (new_index.functions (codes "g"))
        ⊎ ((body : Expr) × HasBody plain (codes "g") body source × Mentions (codes "q") body)))
callers-index_exprs_example =
    callers-index_exprs plain hashed (codes "a.llm") (codes "q") source new_index (codes "g")

same_structure-rename_example :
    lists (same_structure plain (indexed.functions (codes "f")) indexed) (codes "g") ≡ true
unfolding text_eq
same_structure-rename_example =
    same_structure-rename plain hashed to_q (codes "a.llm") (codes "f") (codes "g") f_body source
      new_index (inl (refl, refl)) (inr (inl (refl, refl))) refl

-- Texts as JSON values, none of which has a field.
abbrev texts_only : Server ℕ Text ℕ
texts_only = record {
  host = no_files;
  hash = hashed;
  canonicalize = λ p. none;
  show_float = λ f. [];
  listing = plain;
  llm_files = λ files path. [];
  read_to_string = λ files path. err (codes "no such file");
  write = λ files path content. (files, ok tt);
  suite = suite;
  field = λ value name. some value;
  as_str = λ value. some value;
  from_value = λ value. err (codes "no tree");
  resolve_text = λ e. [];
  report_text = λ report failures. [];
}

-- The same with a file that can be read, and a disk that is full: a write truncates the file and fails.
abbrev full_disk : Server ℕ Text ℕ
full_disk = record texts_only {
  read_to_string = λ files path. ok (codes ": patch_symbol 1");
  write = λ files path content. (files + 1, err (codes "disk full"));
  from_value = λ value. ok (Expr.integer (pos 7));
}

abbrev at_start : World ℕ
at_start = record {
  index =
      (index_exprs hashed (codes "patch_symbol")
        (Expr.define (codes "patch_symbol") [] (Expr.integer (pos 1)) false ∷ []) new_index).1;
  files = 3;
}

abbrev after_failure : World ℕ
after_failure = record at_start { files = 4 }

-- The one text is the name of the tool, of the function and of the file.
disk_full :
    handle_method full_disk (codes "tools/call") (some (codes "patch_symbol")) at_start
    ≡ some (err (internal (codes "disk full")), after_failure)
unfolding handle_method new_index text_eq next_token parse_all parse_expr parse_token consume
    parse_rest parse_define expect_identifier identifier_of push_scope modify parse_params pop_scope
    drain
disk_full = refl

handle_method-error_example :
    (after_failure.index ≡ at_start.index) × FailedWrite full_disk at_start after_failure.files
handle_method-error_example =
    handle_method-error full_disk at_start (codes "tools/call") (some (codes "patch_symbol"))
      (internal (codes "disk full")) after_failure disk_full

replace_body-Replaces_example :
    Replaces
      (codes "g")
      (Expr.integer (pos 7))
      source
      (replace_body (codes "g") (Expr.integer (pos 7)) source)
replace_body-Replaces_example = replace_body-Replaces (codes "g") (Expr.integer (pos 7)) source

abbrev failed : Text → Bool → TestResult
failed name passed = record {
  name = name;
  passed = passed;
  duration_ns = pos 1;
  panic_message = none;
  fingerprint = codes "h";
}

abbrev three : List TestResult
three = failed (codes "a") false ∷ failed (codes "b") false ∷ failed (codes "c") true ∷ []

failure_map-last_example :
    lookup (codes "h") (failure_map three []) ≡ last_failure (codes "h") three
failure_map-last_example = failure_map-last (codes "h") three

-- Two failed tests with one fingerprint leave one failure.
overwritten : failure_map three [] ≡ (codes "h", failed (codes "b") false) ∷ []
unfolding failure_map text_eq
overwritten = refl
