-- ===== src/Verify/Paths.antt =====
-- What a body that passes the check has moved does not depend on the way the run went, and a trap
-- moves nothing that was there before it.
use llmlang.Prelude.{ℕ, ◌≡◌, sym, subst, ◌∙◌, Bool, Text, List, [], ◌∷◌, All}
use llmlang.Ast.{Expr}
use llmlang.Error.{ok, bind, bind-eq-ok, ok_injective}
use llmlang.Verify.Checks.{VariableState, VerificationContext, check_trap, captured}
use llmlang.Verify.Walk.{verify_expr}
use llmlang.Verify.Machine.{Event, Machine, exec, moved_in}
use llmlang.Verify.Invariant.{Agrees, Inv}
use llmlang.Verify.Sound.{expr-Sound}

-- Every slot of `env` is moved in both logs or in neither.
abbrev pub SameMoves : List ℕ → List Event → List Event → Type 0
SameMoves env log log' = All (λ i. moved_in i log ≡ moved_in i log') env

Agrees-SameMoves :
    (ss : List VariableState) (env : List ℕ) (log log' : List Event)
    → Agrees ss env log
    → Agrees ss env log'
    → SameMoves env log log'
Agrees-SameMoves [] [] log log' a b = tt
Agrees-SameMoves (s ∷ ss) (i ∷ is) log log' a b =
    (sym a.0 ∙ b.0, Agrees-SameMoves ss is log log' a.2 b.2)
Agrees-SameMoves (s ∷ ss) [] log log' a b = absurd a
Agrees-SameMoves [] (i ∷ is) log log' a b = absurd a

module _ (x : List (Text × ℕ)) (env : List ℕ) (c c' : VerificationContext) (m : Machine)
    (start : Inv x c env m) where
  -- If an expression passes the check in a context that stands for the state of a run, then any two
  -- sequences of choices lead to runs that moved the same variables of those in scope.
  pub verify_expr-SameMoves :
      (e : Expr) (choices : List Bool)
      → verify_expr e c ≡ ok c'
      → SameMoves env (exec x e env m).log (exec x e env (record m { choices = choices })).log
  verify_expr-SameMoves e choices h =
      let other : Inv x c env (record m { choices = choices }) = record {
        expands = start.expands;
        below = start.below;
        agrees = start.agrees;
        log_below = start.log_below;
        linear = start.linear;
      } in
      Agrees-SameMoves c'.stack env _ _ (expr-Sound x e env c c' m start h).inv.agrees
        (expr-Sound x e env c c' (record m { choices = choices }) other h).inv.agrees

  -- If a trap passes the check in a context that stands for the state of a run, then the context is
  -- as before, and no run of the trap moves a variable in scope.
  pub verify_expr-trap :
      (t f : Expr)
      → verify_expr (Expr.trap t f) c ≡ ok c'
      → (c' ≡ c) × SameMoves env m.log (exec x (Expr.trap t f) env m).log
  unfolding verify_expr check_trap
  verify_expr-trap t f h =
      let (ct, _, rest) =
        bind-eq-ok (verify_expr t (captured c)) (λ _. bind (verify_expr f (captured c)) (λ _. ok c))
          h in
      let (cf, _, last) = bind-eq-ok (verify_expr f (captured c)) (λ _. ok c) rest in
      let same : c ≡ c' = ok_injective last in
      let behind = (expr-Sound x (Expr.trap t f) env c c' m start h).inv.agrees in
      (
        sym same,
        Agrees-SameMoves c.stack env m.log _ start.agrees (
            subst
              (λ (d : VerificationContext). Agrees d.stack env (exec x (Expr.trap t f) env m).log)
              (sym same) behind),
      )
