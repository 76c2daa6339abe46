-- ===== src/Verify/Walk.antt =====
-- src/compiler/analysis/verify.rs: `verify_expr`, its subexpressions in the order of the code.
use llmlang.Ast.{Expr, Exprs}
use llmlang.Error.{ok}
use llmlang.Verify.Checks.{
  Check, ◌>>◌, access, consume, on_expand, check_field, check_shape, check_inferred, check_mapped,
  check_function, check_callee, check_operator, check_identifier, check_let, check_branches,
  check_trap, check_move,
}

unfoldable mutual
  unfolding access consume on_expand check_field check_shape check_inferred check_mapped
      check_function check_callee check_operator check_identifier check_let check_branches
      check_trap check_move

  pub verify_expr : Expr → Check
  verify_expr (Expr.integer _) = λ c. ok c
  verify_expr (Expr.float _) = λ c. ok c
  verify_expr (Expr.string _) = λ c. ok c
  verify_expr Expr.time_zone = λ c. ok c
  verify_expr Expr.time_now = λ c. ok c
  verify_expr Expr.time_nano = λ c. ok c
  verify_expr (Expr.de_bruijn index) = access index
  verify_expr (Expr.identifier name) = check_identifier name
  verify_expr (Expr.expand name) = on_expand access name
  verify_expr (Expr.move inner) = check_move inner (verify_expr inner)
  verify_expr (Expr.borrow inner) = verify_expr inner
  verify_expr (Expr.mut_borrow inner) = verify_expr inner
  verify_expr (Expr.let_in _ v b) = do verify_expr v; check_let v (verify_expr b)
  verify_expr (Expr.if_else c t f) = do
    verify_expr c
    check_branches (verify_expr t) (verify_expr f)
  verify_expr (Expr.seq e₁ e₂) = do verify_expr e₁; verify_expr e₂
  verify_expr (Expr.new name count) = do check_shape name; verify_expr count
  verify_expr (Expr.get i field idx) = do verify_expr i; verify_expr idx; check_field i field
  verify_expr (Expr.set i field idx v) = do
    verify_expr i
    verify_expr idx
    verify_expr v
    check_field i field
  verify_expr (Expr.pack e) = do verify_expr e; check_inferred e
  verify_expr (Expr.unpack e name) = do verify_expr e; check_shape name
  verify_expr (Expr.map e field f) = do verify_expr e; check_mapped e field; check_function f
  verify_expr (Expr.filter e f) = do verify_expr e; check_inferred e; check_function f
  verify_expr (Expr.apply f args) = do check_callee f; verify_args args
  verify_expr (Expr.trap t f) = check_trap (verify_expr t) (verify_expr f)
  verify_expr (Expr.binary_op op l r) = do check_operator op; verify_expr l; verify_expr r
  verify_expr (Expr.cat l r) = do verify_expr l; verify_expr r
  verify_expr (Expr.loc l r) = do verify_expr l; verify_expr r
  verify_expr (Expr.reg l r) = do verify_expr l; verify_expr r
  verify_expr (Expr.write l r) = do verify_expr l; verify_expr r
  verify_expr (Expr.sub s b l) = do verify_expr s; verify_expr b; verify_expr l
  verify_expr (Expr.split s b l) = do verify_expr s; verify_expr b; verify_expr l
  verify_expr (Expr.time_get t i) = do verify_expr t; verify_expr i
  verify_expr (Expr.time_set y m d h mn s) = do
    verify_expr y
    verify_expr m
    verify_expr d
    verify_expr h
    verify_expr mn
    verify_expr s
  verify_expr (Expr.money_op _ l r) = do verify_expr l; verify_expr r
  verify_expr (Expr.time_op _ l r) = do verify_expr l; verify_expr r
  verify_expr (Expr.http_client m u b) = do verify_expr m; verify_expr u; verify_expr b
  verify_expr (Expr.http_server op arg) = do verify_expr op; verify_expr arg
  verify_expr (Expr.http_header req name) = do verify_expr req; verify_expr name
  verify_expr (Expr.file_open path mode) = do verify_expr path; verify_expr mode
  verify_expr (Expr.len e) = verify_expr e
  verify_expr (Expr.str e) = verify_expr e
  verify_expr (Expr.read e) = verify_expr e
  verify_expr (Expr.env e) = verify_expr e
  verify_expr (Expr.money_str e) = verify_expr e
  verify_expr (Expr.panic e) = verify_expr e
  verify_expr (Expr.define _ _ body _) = verify_expr body
  verify_expr (Expr.shape _ _ _) = λ c. ok c
  verify_expr (Expr.import _ _ _) = λ c. ok c
  verify_expr (Expr.metadata tag v t) = do verify_expr tag; verify_expr v; verify_expr t
  verify_expr (Expr.otel_emit t a₁ a₂ a₃) = do
    verify_expr t
    verify_expr a₁
    verify_expr a₂
    verify_expr a₃

  pub verify_args : Exprs → Check
  verify_args Exprs.nil = λ c. ok c
  verify_args (Exprs.cons e es) = do verify_expr e; verify_args es
