-- ===== src/Tests/Checking.antt =====
-- The ownership check at concrete inputs.
use llmlang.Prelude.{◌≡◌, refl, true, false, codes, List, [], ◌∷◌, none, arith}
use llmlang.Prelude.Int.{pos}
use llmlang.Error.{ok, err}
use llmlang.Ast.{Param, Expr}
use llmlang.Verify.{
  VariableState, VerificationContext, is_moved, is_captured, verify_expr, verify_module,
}
use llmlang.Verify.Machine.{Machine, IsLinear, exec, moved_in}
use llmlang.Verify.Invariant.{Inv}
use llmlang.Verify.Linear.{param_slots, entry, expands_of, verify_module-IsLinear}
use llmlang.Verify.Paths.{SameMoves, verify_expr-SameMoves, verify_expr-trap}

abbrev x : Param
x = record { name = codes "x"; expand = false }

abbrev y : Param
y = record { name = codes "y"; expand = true }

-- Both branches move `x`; `y` is read behind them.
abbrev body : Expr
body =
    Expr.seq
      (Expr.if_else (Expr.expand (codes "y")) (Expr.move (Expr.de_bruijn 1))
        (Expr.move (Expr.de_bruijn 1)))
      (Expr.trap (Expr.de_bruijn 0) (Expr.integer (pos 0)))

abbrev program : List Expr
program = Expr.define (codes "f") (x ∷ y ∷ []) body true ∷ []

passes : verify_module program (codes "a.llm") ≡ ok tt
unfolding verify_module
passes = refl

verify_module-IsLinear_example :
    IsLinear
      (exec
        (expands_of (x ∷ y ∷ []))
        body
        (param_slots 0 (x ∷ y ∷ []) [])
        (entry (x ∷ y ∷ []) (false ∷ []))).log
verify_module-IsLinear_example =
    verify_module-IsLinear program (codes "a.llm") 0
      (Expr.define (codes "f") (x ∷ y ∷ []) body true) (codes "f") (x ∷ y ∷ []) body true passes
      refl refl (false ∷ [])

-- Two variables, neither of them moved.
abbrev two_owned : VerificationContext
two_owned = record {
  shapes = [];
  functions = [];
  stack = VariableState.available ∷ VariableState.available ∷ [];
  stack_shapes = none ∷ none ∷ [];
  expand_map = [];
}

abbrev second_moved : VerificationContext
second_moved = record two_owned { stack = VariableState.available ∷ VariableState.moved ∷ [] }

abbrev two_slots : Machine
two_slots = record { log = []; next = 2; choices = true ∷ [] }

two_slots-Inv : Inv [] two_owned (1 ∷ 0 ∷ []) two_slots
unfolding moved_in is_moved is_captured
two_slots-Inv = record {
  expands = refl;
  below = (omega arith, (omega arith, tt));
  agrees = (refl, refl, (refl, refl, tt));
  log_below = tt;
  linear = tt;
}

abbrev branching : Expr
branching =
    Expr.if_else (Expr.de_bruijn 0) (Expr.move (Expr.de_bruijn 1))
      (Expr.seq (Expr.move (Expr.de_bruijn 1)) (Expr.de_bruijn 0))

moves : verify_expr branching two_owned ≡ ok second_moved
unfolding verify_expr
moves = refl

verify_expr-SameMoves_example :
    SameMoves
      (1 ∷ 0 ∷ [])
      (exec [] branching (1 ∷ 0 ∷ []) two_slots).log
      (exec [] branching (1 ∷ 0 ∷ []) (record two_slots { choices = false ∷ [] })).log
verify_expr-SameMoves_example =
    verify_expr-SameMoves [] (1 ∷ 0 ∷ []) two_owned second_moved two_slots two_slots-Inv branching
      (false ∷ []) moves

abbrev trying : Expr
trying =
    Expr.trap (Expr.let_in (codes "z") (Expr.de_bruijn 0) (Expr.move (Expr.de_bruijn 0)))
      (Expr.de_bruijn 1)

tries : verify_expr trying two_owned ≡ ok two_owned
unfolding verify_expr
tries = refl

verify_expr-trap_example :
    (two_owned ≡ two_owned)
    × SameMoves (1 ∷ 0 ∷ []) two_slots.log (exec [] trying (1 ∷ 0 ∷ []) two_slots).log
verify_expr-trap_example =
    verify_expr-trap [] (1 ∷ 0 ∷ []) two_owned two_owned two_slots two_slots-Inv
      (Expr.let_in (codes "z") (Expr.de_bruijn 0) (Expr.move (Expr.de_bruijn 0))) (Expr.de_bruijn 1)
      tries

-- Under a trap, an index counts the variables that are still owned: `^1`, which is owned, is refused
-- behind a move of `^0`, and `^0`, which is moved, is accepted.
trap_index_test :
    (verify_expr
        (Expr.seq
          (Expr.move (Expr.de_bruijn 0))
          (Expr.trap (Expr.de_bruijn 1) (Expr.integer (pos 0))))
        two_owned
      ≡ err (codes "E003"))
    × (verify_expr
          (Expr.seq
            (Expr.move (Expr.de_bruijn 0))
            (Expr.trap (Expr.de_bruijn 0) (Expr.integer (pos 0))))
          two_owned
        ≡ ok (record two_owned { stack = VariableState.moved ∷ VariableState.available ∷ [] }))
unfolding verify_expr
trap_index_test = (refl, refl)
