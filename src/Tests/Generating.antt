-- ===== src/Tests/Generating.antt =====
-- The generation of a function at a concrete body.
use llmlang.Prelude.{ℕ, ◌+◌, refl, true, false, codes, [], ◌∷◌, none, some, lookup}
use llmlang.Ast.{Expr}
use llmlang.Analysis.{is_pure, complexity}
use llmlang.Prelude.Int.{pos}
use llmlang.Token.{Token}
use llmlang.Codegen.{Llvm, Settings, Inner, gen_function}
use llmlang.Codegen.Accepts.{Plain}
use llmlang.Codegen.Safe.{IsStateSafe, gen_function-IsStateSafe}

-- Every value is an integer, and the module counts what is built.
abbrev counting_llvm : Llvm ℕ ℕ
counting_llvm = record {
  is_int_value = λ v. true;
  is_float_value = λ v. false;
  is_pointer_value = λ v. false;
  const_int = λ i. 0;
  const_float = λ x. 0;
  build = λ i vals g. (g, g + 1);
  call_external = λ name vals g. (g, g + 1);
  build_call = λ f vals g. (g, g + 1);
  functions = λ g. [];
  function_value = λ name. 0;
  add_function = λ name arity g. (g, g + 1);
  append_basic_block = λ name g. (g, g + 1);
  append_entry = λ f g. (g, g + 1);
  get_insert_block = λ g. g;
  position_at_end = λ block g. g;
  get_nth_param = λ f i. i;
  get_global = λ name g. none;
  add_string_global = λ name t g. (g, g + 1);
}

abbrev settings : Settings ℕ ℕ
settings = record {
  llvm = counting_llvm;
  file = record { file_stem = some (codes "a"); hash = codes "0" };
  input_path = codes "a.llm";
  symbols = record {
    shapes = [];
    templates = [];
    has_exports = false;
    exports = [];
    imports = [];
    functions = [];
  };
  fn_returns_ptr = [];
  fn_param_ptrs = [];
  parallel_threshold = 50;
  max_parallel_depth = 256;
  has_sufficient_stack = λ g. true;
  hash = λ t. t;
  float_text = λ x. [];
}

-- `: f p L s "a" ? (+ @1 1) (cat (> @0) "b") (> @0)`, with a sum of the parameter as the condition.
abbrev branching : Expr
branching = Expr.let_in (codes "s") (Expr.string (codes "a")) (
    Expr.if_else (Expr.binary_op Token.add (Expr.de_bruijn 1) (Expr.integer (pos 1)))
      (Expr.cat (Expr.move (Expr.de_bruijn 0)) (Expr.string (codes "b")))
      (Expr.move (Expr.de_bruijn 0)))

settings-Plain : Plain settings
unfolding lookup
settings-Plain = record { no_template = λ name. refl }

branching-Inner : Inner settings.parallel_threshold branching
unfolding Inner is_pure complexity
branching-Inner = (tt, ((refl, tt, tt), (tt, tt), tt))

gen_function-IsStateSafe_example : IsStateSafe (
    gen_function 1
      (codes "f")
      (record { name = codes "p"; expand = false } ∷ [])
      branching
      false
      none
      settings
      0)
gen_function-IsStateSafe_example =
    gen_function-IsStateSafe settings 0 (codes "f")
      (record { name = codes "p"; expand = false } ∷ []) branching false none 0 settings-Plain
      branching-Inner
