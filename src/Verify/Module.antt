-- ===== src/Verify/Module.antt =====
-- src/compiler/analysis/verify.rs: `verify_module`. The metadata around a definition is taken off
-- once, as in the code.
use llmlang.Prelude.{ℕ, suc, Text, List, [], ◌∷◌, none, length, insert, if◌then◌else◌}
use llmlang.Ast.{Param, Expr}
use llmlang.Error.{CompileError, Result, ok, bind, map_err}
use llmlang.Verify.Checks.{VerificationContext, push}
use llmlang.Verify.Walk.{verify_expr}

pub record Tables : Type 0 where
  pub shapes : List (Text × List Text)
  pub functions : List (Text × ℕ)

abbrev pub actual : Expr → Expr
actual (Expr.metadata _ _ t) = t
actual e = e

unfoldable pub register : Expr → Tables → Tables
unfolding insert
register (Expr.shape name fields _) t = record t { shapes = insert name fields t.shapes }
register (Expr.import _ symbol arity) t = record t { functions = insert symbol arity t.functions }
register (Expr.define name params _ _) t = record t {
  functions = insert name (length params) t.functions;
}
register _ t = t

unfoldable pub register_all : List Expr → Tables → Tables
unfolding register
register_all [] t = t
register_all (e ∷ es) t = register_all es (register (actual e) t)

-- The parameters from the `i`-th on, each pushed on the stacks.
unfoldable pub enter_params : ℕ → List Param → VerificationContext → VerificationContext
unfolding push insert
enter_params i [] c = c
enter_params i (p ∷ ps) c = enter_params (suc i) ps (record (push none c) {
  expand_map = if p.expand then insert p.name i c.expand_map else c.expand_map;
})

abbrev pub context_of : Tables → VerificationContext
context_of t = record {
  shapes = t.shapes;
  functions = t.functions;
  stack = [];
  stack_shapes = [];
  expand_map = [];
}

unfoldable pub verify_body : Tables → Text → Expr → Result CompileError (Unit {0})
unfolding enter_params verify_expr
verify_body t filename (Expr.define _ params body _) =
    bind
      (map_err (λ code. record { code = code; filename = filename; line = 1 })
        (verify_expr body (enter_params 0 params (context_of t))))
      λ _. ok tt
verify_body t filename _ = ok tt

unfoldable pub verify_bodies : Tables → Text → List Expr → Result CompileError (Unit {0})
unfolding verify_body
verify_bodies t filename [] = ok tt
verify_bodies t filename (e ∷ es) =
    bind (verify_body t filename (actual e)) λ _. verify_bodies t filename es

unfoldable pub verify_module : List Expr → Text → Result CompileError (Unit {0})
unfolding register_all verify_bodies
verify_module exprs filename =
    verify_bodies (register_all exprs (record { shapes = []; functions = [] })) filename exprs
