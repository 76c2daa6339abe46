-- ===== src/Codegen/Opencl.antt =====
-- src/compiler/codegen/expr.rs: `translate_to_opencl`. What `{}` writes for an `f64` is a parameter; the
-- texts of the errors, which the code drops, are left out. The names are kept with the top first.
use llmlang.Prelude.{
  ℕ, zero, suc, Text, codes, List, [], ◌∷◌, ◌++◌, Option, none, some, get_elem?, length, lookup,
  print_decimal,
}
use llmlang.Token.{Token, Float}
use llmlang.Ast.{Expr}
use llmlang.Printer.{print_integer}
use llmlang.Codegen.Names.{Template, Symbols}

infixl 5 ◌>>=◌
abbrev pub ◌>>=◌ : {A B : Type 0} → Option A → (A → Option B) → Option B
none >>= f = none
some a >>= f = f a

unfoldable pub op_str : Token → Option Text
op_str Token.add = some (codes "+")
op_str Token.sub = some (codes "-")
op_str Token.mul = some (codes "*")
op_str Token.div = some (codes "/")
op_str Token.eq = some (codes "==")
op_str Token.lt = some (codes "<")
op_str Token.gt = some (codes ">")
op_str _ = none

abbrev pub binary_text : Text → Text → Text → Text
binary_text l op r = codes "(" ++ (l ++ (codes " " ++ (op ++ (codes " " ++ (r ++ codes ")")))))

abbrev pub let_text : Text → Text → Text → Text
let_text name val body =
    codes "({ long " ++ (name ++ (codes " = " ++ (val ++ (codes "; " ++ (body ++ codes "; })")))))

abbrev pub if_text : Text → Text → Text → Text
if_text c t f = codes "((" ++ (c ++ (codes ") ? (" ++ (t ++ (codes ") : (" ++ (f ++ codes "))")))))

abbrev pub local_name : Text → Text
local_name name = codes "local_" ++ name

module _ (float_text : Float → Text) where
  unfoldable pub translate_expr : Expr → List Text → Option Text
  unfolding print_integer op_str
  translate_expr (Expr.integer i) stack_names = some (print_integer i)
  translate_expr (Expr.float f) stack_names = some (float_text f)
  translate_expr (Expr.de_bruijn idx) stack_names = get_elem? stack_names idx
  translate_expr (Expr.binary_op op left right) stack_names = do
    l ← translate_expr left stack_names
    r ← translate_expr right stack_names
    op_text ← op_str op
    some (binary_text l op_text r)
  translate_expr (Expr.let_in name val body) stack_names = do
    v ← translate_expr val stack_names
    b ← translate_expr body (local_name name ∷ stack_names)
    some (let_text (local_name name) v b)
  translate_expr (Expr.if_else cond true_branch false_branch) stack_names = do
    c ← translate_expr cond stack_names
    t ← translate_expr true_branch stack_names
    f ← translate_expr false_branch stack_names
    some (if_text c t f)
  translate_expr _ stack_names = none

  -- `param_0`, and on, with the last on top.
  unfoldable pub param_names : ℕ → List Text
  unfolding print_decimal
  param_names zero = []
  param_names (suc n) = (codes "param_" ++ print_decimal n) ∷ param_names n

  abbrev pub kernel_text : Text → Text
  kernel_text expr_str =
      codes
        "__kernel void map_kernel(__global const long* input, __global long* output, const long count) {\n    int id = get_global_id(0);\n    if (id < count) {\n        long param_0 = input[id];\n        output[id] = "
      ++ (expr_str ++ codes ";\n    }\n}\n")

  unfoldable pub translate_template : Template → Option Text
  unfolding translate_expr param_names
  translate_template t = do
    expr_str ← translate_expr t.body (param_names (length t.params))
    some (kernel_text expr_str)

  unfoldable pub translate_to_opencl : Symbols → Text → Option Text
  unfolding lookup translate_template
  translate_to_opencl sym func_name = do t ← lookup func_name sym.templates; translate_template t
