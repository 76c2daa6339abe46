-- ===== src/Tests/Exporting.antt =====
-- The signature file and the kernels at concrete inputs.
use llmlang.Prelude.{◌⊎◌}
use llmlang.Prelude.{◌↔◌}
use llmlang.Prelude.{Memᴰ}
use llmlang.Prelude.{List}
use native.Mathlib.Omega.{arith}
use llmlang.Prelude.{
  ℕ, ◌+◌, ◌-◌, ◌*◌, ◌/◌, ◌==◌, ◌≡◌, refl, Bool, true, not, Text, codes, text_eq, [], ◌∷◌, ◌++◌,
  none, some, length, lookup, if◌then◌else◌,
}
use llmlang.Prelude.Int.{pos, negsuc}
use llmlang.Token.{Token, Float}
use llmlang.Ast.{Param, Expr}
use llmlang.Lexer.{is_whitespace}
use llmlang.Parser.{read_signature, find_named}
use llmlang.Codegen.{
  Symbols, SourceFile, AddFunction, declare_function, emit_signature_file, exported_entries,
  prefix_of, without_internal, Template, has_function, is_internal, clean_name,
}
use llmlang.Codegen.Entries.{Exported}
use llmlang.Codegen.Importing.{ListedFunction, ListedTemplate, read_signature-emit_signature_file}
use llmlang.Codegen.Exports.{find_named-emit_signature_file}
use llmlang.Codegen.Opencl.{translate_to_opencl, translate_expr, kernel_text}
use llmlang.Codegen.Kernel.{
  CExpr, Arithmetic, written, eval_c, eval, IsFresh, item_env, translate_to_opencl-computes, Longs,
  IsIntegral,
}

abbrev geometry : SourceFile
geometry = record { file_stem = some (codes "geo"); hash = codes "9a" }

abbrev x_param : Bool → Param
x_param e = record { name = codes "x"; expand = e }

abbrev pieces : Symbols
pieces = record {
  shapes = (codes "Point", codes "x" ∷ codes "y" ∷ []) ∷ (codes "Hidden", []) ∷ [];
  templates = [];
  has_exports = true;
  exports = codes "Point" ∷ codes "area" ∷ [];
  imports = [];
  functions = (codes "geo_area", 2) ∷ (codes "__llm_9a_help", 1) ∷ (codes "main", 0) ∷ [];
}

-- What a module of this name exports, as an importer reads it.
read_signature-emit_signature_file_example :
    (let sig = read_signature (emit_signature_file geometry pieces) in
      ((name : Text) (fields : List Text)
        → Memᴰ (name, fields) sig.shapes
          ↔ Exported pieces.exports (prefix_of geometry) pieces.shapes name fields)
      × ((name : Text) (n : ℕ)
          → Memᴰ (name, n) sig.funcs
            ↔ (ListedFunction geometry pieces name n ⊎ ListedTemplate geometry pieces name n)))
unfolding is_whitespace
read_signature-emit_signature_file_example =
    read_signature-emit_signature_file geometry pieces (ground arith) (ground arith) (ground arith)
      tt

-- LLVM's `add_function`, for a name that is free.
abbrev append_function : AddFunction
append_function name arity fs = fs ++ ((name, arity) ∷ [])

-- A template is read without parameters.
find_named-emit_signature_file_example :
    find_named
      (codes "scale")
      (read_signature (
        emit_signature_file geometry (
          declare_function append_function geometry
            (codes "scale")
            (x_param true ∷ [])
            (Expr.expand (codes "x"))
            true
            pieces))).funcs
    ≡ some 0
unfolding declare_function exported_entries prefix_of without_internal is_whitespace clean_name
    has_function is_internal text_eq
find_named-emit_signature_file_example =
    find_named-emit_signature_file append_function geometry (codes "scale") (x_param true ∷ [])
      (Expr.expand (codes "x")) pieces refl refl (λ n. refl) refl (ground arith)
      (ground arith, ground arith, ground arith)

-- The integers without any overflow, and floats as zero.
abbrev naturals : Arithmetic ℕ
naturals = record {
  of_int = λ i. elim i [ pos n ↦ n | negsuc n ↦ 0 ];
  of_float = λ f. 0;
  operate = λ op a b. elim op [
    | Token.add ↦ a + b
    | Token.sub ↦ a - b
    | Token.mul ↦ a * b
    | Token.div ↦ a / b
    | Token.eq ↦ if a == b then 1 else 0
    | _ ↦ 0
  ];
  is_true = λ a. not (a == 0);
  to_long = λ a. a;
  read_float = λ t. 0;
}

all_long : Longs naturals
all_long = record {
  is_long = λ a. true;
  integers = λ i. refl;
  results = λ op v w h k. refl;
  unchanged = λ v h. refl;
}

abbrev no_text : Float → Text
no_text f = []

-- `L y + x 1 * y y`
abbrev squared : Template
squared = record {
  params = x_param true ∷ [];
  body =
      Expr.let_in (codes "y") (Expr.binary_op Token.add (Expr.de_bruijn 0) (Expr.integer (pos 1)))
        (Expr.binary_op Token.mul (Expr.de_bruijn 0) (Expr.de_bruijn 0));
}

abbrev mapped : Symbols
mapped = record pieces { templates = (codes "sq", squared) ∷ [] }

abbrev squared_kernel : Text
squared_kernel =
    kernel_text no_text (codes "({ long local_y = (param_0 + 1); (local_y * local_y); })")

translate_to_opencl-computes_example :
    (t : Template) × (c : CExpr) × (lookup (codes "sq") mapped.templates ≡ some t)
    × (squared_kernel ≡ kernel_text no_text (written c))
    × ((v : ℕ)
        → length t.params ≡ 1
        → all_long.is_long v ≡ true
        → IsIntegral t.body
        → IsFresh t.body (codes "param_0" ∷ [])
        → eval_c naturals c (item_env v) ≡ eval naturals t.body (v ∷ []))
unfolding translate_to_opencl text_eq
translate_to_opencl-computes_example =
    translate_to_opencl-computes naturals all_long no_text mapped (codes "sq") squared_kernel refl

-- An initializer reads the variable that it initializes, if an outer one has its name: in C it has no
-- determined value there, where the language gives it the value of the outer variable.
abbrev shadowed : Expr
shadowed =
    Expr.let_in (codes "x") (Expr.integer (pos 4))
      (Expr.let_in (codes "x") (Expr.de_bruijn 0) (Expr.de_bruijn 0))

abbrev shadowed_text : CExpr
shadowed_text =
    CExpr.declare (codes "local_x") (CExpr.literal (pos 4)) (
      CExpr.declare (codes "local_x") (CExpr.name (codes "local_x")) (CExpr.name (codes "local_x")))

shadowed-written : translate_expr no_text shadowed [] ≡ some (written shadowed_text)
unfolding translate_expr written
shadowed-written = refl

shadowed-undetermined : eval_c naturals shadowed_text (λ y. none) ≡ none
unfolding eval_c text_eq
shadowed-undetermined = refl

shadowed-four : eval naturals shadowed [] ≡ some 4
unfolding eval
shadowed-four = refl
