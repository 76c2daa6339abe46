-- ===== src/Verify/Sound.antt =====
-- The check of every expression goes with a run of it.
use llmlang.Prelude.{ℕ, ◌≡◌, Text, List, ◌∷◌, arith, Bool-cases, inl, inr, ◌∙◌}
use llmlang.Token.{Token}
use llmlang.Ast.{Expr, Exprs}
use llmlang.Error.{ok, bind-eq-ok}
use llmlang.Verify.Checks.{
  VerificationContext, Check, ◌>>◌, access, consume, check_field, check_shape, check_inferred,
  check_mapped, check_function, check_callee, check_operator, is_operator, check_identifier,
  check_move,
}
use llmlang.Verify.Walk.{verify_expr, verify_args}
use llmlang.Verify.Machine.{Event, Run, exec, exec_args, run_move}
use llmlang.Verify.Invariant.{Sound}
use llmlang.Verify.Steps.{Sound-seq, Sound-test, access-Sound, consume-Sound, on_expand-Sound}
use llmlang.Verify.Scopes.{let-Sound, branches-Sound, trap-Sound}

-- The check leaves its context alone when it passes.
abbrev IsTest : Check → Type 0
IsTest v = (c c' : VerificationContext) → v c ≡ ok c' → c ≡ c'

ok-IsTest : IsTest (λ c. ok c)
ok-IsTest c c' h = cc

shape-IsTest : (name : Text) → IsTest (check_shape name)
unfolding check_shape
shape-IsTest name c c' h = ground arith

field-IsTest : (e : Expr) (field : Text) → IsTest (check_field e field)
unfolding check_field
field-IsTest e field c c' h = ground arith

inferred-IsTest : (e : Expr) → IsTest (check_inferred e)
unfolding check_inferred
inferred-IsTest e c c' h = ground arith

mapped-IsTest : (e : Expr) (field : Text) → IsTest (check_mapped e field)
unfolding check_mapped
mapped-IsTest e field c c' h =
    let (d, p, q) = bind-eq-ok (check_inferred e c) (check_field e field) h in
    inferred-IsTest e c d p ∙ field-IsTest e field d c' q

function-IsTest : (f : Expr) → IsTest (check_function f)
unfolding check_function
function-IsTest (Expr.identifier name) c c' h = ground arith
function-IsTest _ c c' h = cc

callee-IsTest : (f : Expr) → IsTest (check_callee f)
unfolding check_callee
callee-IsTest (Expr.identifier name) c c' h = ground arith
callee-IsTest _ c c' h = cc

operator-IsTest : (op : Token) → IsTest (check_operator op)
unfolding check_operator
operator-IsTest op c c' h = elim (Bool-cases (is_operator op)) [
  | inl e ↦ cc (rw (e, check_operator) at h)
  | inr e ↦ absurd (let bad = rw (e, check_operator) at h in cc)
]

identifier-IsTest : (name : Text) → IsTest (check_identifier name)
unfolding check_identifier
identifier-IsTest name c c' h = ground arith

module _ (x : List (Text × ℕ)) where
  test : (env : List ℕ) (v : Check) → IsTest v → Sound x env v (λ m. m)
  test env v h = Sound-test x env v h

  -- Behind a check that moves nothing, and in front of one.
  before :
      (env : List ℕ) (v w : Check) (p : Run) → IsTest v → Sound x env w p → Sound x env (v >> w) p
  before env v w p h s = Sound-seq x env v w (λ m. m) p (test env v h) s

  behind :
      (env : List ℕ) (v w : Check) (p : Run) → Sound x env v p → IsTest w → Sound x env (v >> w) p
  behind env v w p s h = Sound-seq x env v w p (λ m. m) s (test env w h)

  move-Sound :
      (inner : Expr) (env : List ℕ) (v : Check) (p : Run)
      → Sound x env v p
      → Sound x env (check_move inner v) (run_move x env inner p)
  unfolding check_move run_move
  move-Sound (Expr.de_bruijn k) env v p h = consume-Sound x env k
  move-Sound (Expr.expand name) env v p h =
      on_expand-Sound x env consume Event.move name (consume-Sound x env)
  move-Sound _ env v p h = h

  mutual
    unfolding verify_expr exec

    verify_expr-Sound : (e : Expr) (env : List ℕ) → Sound x env (verify_expr e) (exec x e env)
    verify_expr-Sound (Expr.integer _) env = test env _ ok-IsTest
    verify_expr-Sound (Expr.float _) env = test env _ ok-IsTest
    verify_expr-Sound (Expr.string _) env = test env _ ok-IsTest
    verify_expr-Sound Expr.time_zone env = test env _ ok-IsTest
    verify_expr-Sound Expr.time_now env = test env _ ok-IsTest
    verify_expr-Sound Expr.time_nano env = test env _ ok-IsTest
    verify_expr-Sound (Expr.de_bruijn k) env = access-Sound x env k
    verify_expr-Sound (Expr.identifier name) env = test env _ (identifier-IsTest name)
    verify_expr-Sound (Expr.expand name) env =
        on_expand-Sound x env access Event.touch name (access-Sound x env)
    verify_expr-Sound (Expr.move e) env = move-Sound e env _ _ (verify_expr-Sound e env)
    verify_expr-Sound (Expr.borrow e) env = verify_expr-Sound e env
    verify_expr-Sound (Expr.mut_borrow e) env = verify_expr-Sound e env
    verify_expr-Sound (Expr.len e) env = verify_expr-Sound e env
    verify_expr-Sound (Expr.str e) env = verify_expr-Sound e env
    verify_expr-Sound (Expr.read e) env = verify_expr-Sound e env
    verify_expr-Sound (Expr.env e) env = verify_expr-Sound e env
    verify_expr-Sound (Expr.money_str e) env = verify_expr-Sound e env
    verify_expr-Sound (Expr.panic e) env = verify_expr-Sound e env
    verify_expr-Sound (Expr.define _ _ e _) env = verify_expr-Sound e env
    verify_expr-Sound (Expr.shape _ _ _) env = test env _ ok-IsTest
    verify_expr-Sound (Expr.import _ _ _) env = test env _ ok-IsTest
    verify_expr-Sound (Expr.let_in _ v b) env = Sound-seq x env _ _ _ _ (verify_expr-Sound v env) (
        let-Sound x env v (verify_expr b) (λ i. exec x b (i ∷ env))
          (λ i. verify_expr-Sound b (i ∷ env)))
    verify_expr-Sound (Expr.if_else c t f) env =
        Sound-seq x env _ _ _ _ (verify_expr-Sound c env)
          (branches-Sound x env _ _ _ _ (verify_expr-Sound t env) (verify_expr-Sound f env))
    verify_expr-Sound (Expr.trap t f) env =
        trap-Sound x env (verify_expr t) (verify_expr f) (exec x t) (exec x f)
          (λ e. verify_expr-Sound t e) (λ e. verify_expr-Sound f e)
    verify_expr-Sound (Expr.seq a b) env =
        Sound-seq x env _ _ _ _ (verify_expr-Sound a env) (verify_expr-Sound b env)
    verify_expr-Sound (Expr.cat a b) env =
        Sound-seq x env _ _ _ _ (verify_expr-Sound a env) (verify_expr-Sound b env)
    verify_expr-Sound (Expr.loc a b) env =
        Sound-seq x env _ _ _ _ (verify_expr-Sound a env) (verify_expr-Sound b env)
    verify_expr-Sound (Expr.reg a b) env =
        Sound-seq x env _ _ _ _ (verify_expr-Sound a env) (verify_expr-Sound b env)
    verify_expr-Sound (Expr.write a b) env =
        Sound-seq x env _ _ _ _ (verify_expr-Sound a env) (verify_expr-Sound b env)
    verify_expr-Sound (Expr.time_get a b) env =
        Sound-seq x env _ _ _ _ (verify_expr-Sound a env) (verify_expr-Sound b env)
    verify_expr-Sound (Expr.http_server a b) env =
        Sound-seq x env _ _ _ _ (verify_expr-Sound a env) (verify_expr-Sound b env)
    verify_expr-Sound (Expr.http_header a b) env =
        Sound-seq x env _ _ _ _ (verify_expr-Sound a env) (verify_expr-Sound b env)
    verify_expr-Sound (Expr.file_open a b) env =
        Sound-seq x env _ _ _ _ (verify_expr-Sound a env) (verify_expr-Sound b env)
    verify_expr-Sound (Expr.sub a b c) env =
        Sound-seq x env _ _ _ _ (verify_expr-Sound a env)
          (Sound-seq x env _ _ _ _ (verify_expr-Sound b env) (verify_expr-Sound c env))
    verify_expr-Sound (Expr.split a b c) env =
        Sound-seq x env _ _ _ _ (verify_expr-Sound a env)
          (Sound-seq x env _ _ _ _ (verify_expr-Sound b env) (verify_expr-Sound c env))
    verify_expr-Sound (Expr.http_client a b c) env =
        Sound-seq x env _ _ _ _ (verify_expr-Sound a env)
          (Sound-seq x env _ _ _ _ (verify_expr-Sound b env) (verify_expr-Sound c env))
    verify_expr-Sound (Expr.metadata a b c) env =
        Sound-seq x env _ _ _ _ (verify_expr-Sound a env)
          (Sound-seq x env _ _ _ _ (verify_expr-Sound b env) (verify_expr-Sound c env))
    verify_expr-Sound (Expr.otel_emit a b c d) env =
        Sound-seq x env _ _ _ _ (verify_expr-Sound a env) (
          Sound-seq x env _ _ _ _ (verify_expr-Sound b env)
            (Sound-seq x env _ _ _ _ (verify_expr-Sound c env) (verify_expr-Sound d env)))
    verify_expr-Sound (Expr.time_set a b c d e f) env =
        Sound-seq x env _ _ _ _ (verify_expr-Sound a env) (
          Sound-seq x env _ _ _ _ (verify_expr-Sound b env) (
            Sound-seq x env _ _ _ _ (verify_expr-Sound c env) (
              Sound-seq x env _ _ _ _ (verify_expr-Sound d env)
                (Sound-seq x env _ _ _ _ (verify_expr-Sound e env) (verify_expr-Sound f env)))))
    verify_expr-Sound (Expr.money_op _ a b) env =
        Sound-seq x env _ _ _ _ (verify_expr-Sound a env) (verify_expr-Sound b env)
    verify_expr-Sound (Expr.time_op _ a b) env =
        Sound-seq x env _ _ _ _ (verify_expr-Sound a env) (verify_expr-Sound b env)
    verify_expr-Sound (Expr.binary_op op a b) env =
        Sound-seq x env _ _ _ _ (test env _ (operator-IsTest op))
          (Sound-seq x env _ _ _ _ (verify_expr-Sound a env) (verify_expr-Sound b env))
    verify_expr-Sound (Expr.new name e) env =
        before env _ _ _ (shape-IsTest name) (verify_expr-Sound e env)
    verify_expr-Sound (Expr.get a field b) env =
        Sound-seq x env _ _ _ _ (verify_expr-Sound a env)
          (Sound-seq x env _ _ _ _ (verify_expr-Sound b env) (test env _ (field-IsTest a field)))
    verify_expr-Sound (Expr.set a field b c) env =
        Sound-seq x env _ _ _ _ (verify_expr-Sound a env) (
          Sound-seq x env _ _ _ _ (verify_expr-Sound b env)
            (Sound-seq x env _ _ _ _ (verify_expr-Sound c env) (test env _ (field-IsTest a field))))
    verify_expr-Sound (Expr.pack e) env =
        behind env _ _ _ (verify_expr-Sound e env) (inferred-IsTest e)
    verify_expr-Sound (Expr.unpack e name) env =
        behind env _ _ _ (verify_expr-Sound e env) (shape-IsTest name)
    verify_expr-Sound (Expr.map e field f) env = Sound-seq x env _ _ _ _ (verify_expr-Sound e env) (
        Sound-seq x env _ _ _ _ (test env _ (mapped-IsTest e field))
          (test env _ (function-IsTest f)))
    verify_expr-Sound (Expr.filter e f) env =
        Sound-seq x env _ _ _ _ (verify_expr-Sound e env) (
          Sound-seq x env _ _ _ _ (test env _ (inferred-IsTest e)) (test env _ (function-IsTest f)))
    verify_expr-Sound (Expr.apply f args) env =
        before env _ _ _ (callee-IsTest f) (verify_args-Sound args env)

    verify_args-Sound :
        (es : Exprs) (env : List ℕ) → Sound x env (verify_args es) (exec_args x es env)
    verify_args-Sound Exprs.nil env = test env _ ok-IsTest
    verify_args-Sound (Exprs.cons e es) env =
        Sound-seq x env _ _ _ _ (verify_expr-Sound e env) (verify_args-Sound es env)

  -- The check of an expression goes with its run, in any environment.
  pub expr-Sound : (e : Expr) (env : List ℕ) → Sound x env (verify_expr e) (exec x e env)
  expr-Sound e env = verify_expr-Sound e env
