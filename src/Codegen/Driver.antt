-- ===== src/Codegen/Driver.antt =====
-- src/main.rs `main` and src/testing/mod.rs `compile_harness`: the loops that hand the expressions of a
-- module to the code generator, whose state is `S`.
use llmlang.Prelude.{
  ℕ, Bool, Text, codes, text_eq, List, [], ◌∷◌, Option, none, some, if◌then◌else◌,
}
use llmlang.Ast.{Param, Expr}
use llmlang.Error.{CompileError, Result, ok, bind}

-- The methods of `CodeGen` that the loops call.
pub record Generator (S : Type 0) : Type 0 where
  pub gen_shape : Text → List Text → Bool → S → S
  pub gen_function : Text → List Param → Expr → Bool → Option Text → S → Result CompileError S
  pub gen_import : Text → Text → ℕ → S → S

module _ {S : Type 0} (g : Generator S) where
  -- A definition under metadata with a span name.
  unfoldable pub gen_spanned : Text → Expr → S → Result CompileError S
  gen_spanned span_name (Expr.define name params body exported) s =
      g.gen_function name params body exported (some span_name) s
  gen_spanned span_name _ s = ok s

  unfoldable pub gen_otel : Expr → Expr → S → Result CompileError S
  unfolding gen_spanned
  gen_otel (Expr.string span_name) target s = gen_spanned span_name target s
  gen_otel _ target s = ok s

  -- One round of the loop of `main`.
  unfoldable pub gen_item : Expr → S → Result CompileError S
  unfolding gen_otel text_eq
  gen_item (Expr.shape name fields exported) s = ok (g.gen_shape name fields exported s)
  gen_item (Expr.define name params body exported) s =
      g.gen_function name params body exported none s
  gen_item (Expr.metadata (Expr.string tag_str) val target) s =
      if text_eq tag_str (codes "test")
      then ok s
      else if text_eq tag_str (codes "otel")
      then gen_otel val target s
      else ok s
  gen_item (Expr.import module_name symbol arity) s = ok (g.gen_import module_name symbol arity s)
  gen_item _ s = ok s

  unfoldable pub gen_module : List Expr → S → Result CompileError S
  unfolding gen_item
  gen_module [] s = ok s
  gen_module (e ∷ es) s = bind (gen_item e s) (gen_module es)

  -- One round of the loop of `compile_harness`.
  unfoldable pub gen_harness_item : Expr → S → Result CompileError S
  unfolding gen_otel text_eq
  gen_harness_item (Expr.shape name fields exported) s = ok (g.gen_shape name fields exported s)
  gen_harness_item (Expr.define name params body exported) s =
      g.gen_function name params body exported none s
  gen_harness_item (Expr.metadata (Expr.string tag_str) val target) s =
      if text_eq tag_str (codes "otel") then gen_otel val target s else ok s
  gen_harness_item (Expr.import module_name symbol arity) s =
      ok (g.gen_import module_name symbol arity s)
  gen_harness_item _ s = ok s

  unfoldable pub gen_harness : List Expr → S → Result CompileError S
  unfolding gen_harness_item
  gen_harness [] s = ok s
  gen_harness (e ∷ es) s = bind (gen_harness_item e s) (gen_harness es)
